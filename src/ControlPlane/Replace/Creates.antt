-- ===== src/ControlPlane/Replace/Creates.antt =====
-- A scale down creates no Machine.
use k0smotron.Prelude.{String, Option, none, some}
use k0smotron.Kube.{Upstream, Api}
use k0smotron.ControlPlane.Action.Frame.{Frame, frame_rules}
use k0smotron.ControlPlane.Machines.Effects.{creates, creates-delete_machine_object}
use k0smotron.ControlPlane.Replace.{delete_chosen, scale_down}

module _ (u : Upstream) (k : Api) where
  chosen-Frame : (o : Option String) → Frame creates (delete_chosen u k o)
  unfolding delete_chosen
  chosen-Frame none = search frame_rules
  chosen-Frame (some m) = creates-delete_machine_object u k m

  pub scale_down-Frame : Frame creates (scale_down u k)
  unfolding scale_down
  scale_down-Frame = search (frame_rules, chosen-Frame)
