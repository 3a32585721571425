-- ===== src/ControlPlane/Deletions/Creates.antt =====
-- Manual deletions create no Machine.
use k0smotron.Prelude.{String, Bool, true, false, refl}
use k0smotron.Kube.{Upstream, Api}
use k0smotron.ControlPlane.Action.{modify}
use k0smotron.ControlPlane.Action.Frame.{Frame, Frame-modify, frame_rules}
use k0smotron.ControlPlane.Machines.{remove_machine_from_scope}
use k0smotron.ControlPlane.Machines.Effects.{
  creates, creates-Blind, delete_k0s_node_resources-Frame, creates-delete_machine_object,
}
use k0smotron.ControlPlane.Deletions.{
  leave_deleted, drop_machine, drop_unless_exists, drop_if_gone, reconcile_manual_deletions,
}

module _ (u : Upstream) (k : Api) where
  remove-Frame : (m : String) → Frame creates (modify (remove_machine_from_scope m))
  unfolding remove_machine_from_scope
  remove-Frame m = Frame-modify (remove_machine_from_scope m) (λ w. refl)

  leave_deleted-Frame : (m : String) → Frame creates (leave_deleted u k m)
  unfolding leave_deleted
  leave_deleted-Frame m = search (frame_rules, delete_k0s_node_resources-Frame creates-Blind u k)

  drop_machine-Frame : (m : String) → Frame creates (drop_machine u k m)
  unfolding drop_machine
  drop_machine-Frame m =
      search
        (
          frame_rules,
          delete_k0s_node_resources-Frame creates-Blind u k,
          creates-delete_machine_object u k,
          remove-Frame,
        )
        depth 8

  drop_unless-Frame : (m : String) (b : Bool) → Frame creates (drop_unless_exists u k m b)
  unfolding drop_unless_exists
  drop_unless-Frame m true = search frame_rules
  drop_unless-Frame m false = drop_machine-Frame m

  drop_if_gone-Frame : (m : String) → Frame creates (drop_if_gone u k m)
  unfolding drop_if_gone
  drop_if_gone-Frame m = search (frame_rules, drop_unless-Frame)

  pub manual_deletions-Frame : Frame creates (reconcile_manual_deletions u k)
  unfolding reconcile_manual_deletions
  manual_deletions-Frame = search (frame_rules, leave_deleted-Frame, drop_if_gone-Frame) depth 8
