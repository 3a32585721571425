-- ===== src/ControlPlane/Remediation/Creates.antt =====
-- A remediation creates no Machine.
use k0smotron.Prelude.{String, List, Option, none, some, refl}
use k0smotron.Kube.{Upstream, Api, Error, Result, ok, err}
use k0smotron.ControlPlane.Action.{modify, M}
use k0smotron.ControlPlane.Action.Frame.{
  Frame, Frame-bind, Frame-gets, Frame-when, Frame-modify, Frame-outcome_of, frame_rules,
}
use k0smotron.ControlPlane.Machines.Effects.{
  creates, creates-Blind, Frame-quiet, creates-delete_machine_object,
}
use k0smotron.ControlPlane.Remediation.{
  mark_in_progress, after_deletion, delete_unhealthy, delete_unless_blocked, patch_remediated,
  delete_or_wait, remediate_machine, remediate_oldest, reconcile_unhealthy_machines,
}
use k0smotron.ControlPlane.Remediation.Safety.{
  sanitize_healthy_machines-Frame, set_remediated-Frame,
}

module _ (u : Upstream) (k : Api) where
  mark-Frame : Frame creates (modify mark_in_progress)
  mark-Frame = Frame-modify mark_in_progress (λ w. refl)

  after_deletion-Frame :
      (m : String) (r : Result Error Unit) → Frame creates (after_deletion u k m r)
  unfolding after_deletion
  after_deletion-Frame m (ok t) = mark-Frame
  after_deletion-Frame m (err e) = search (frame_rules, set_remediated-Frame creates-Blind u k)

  delete_unhealthy-Frame : (m : String) → Frame creates (delete_unhealthy u k m)
  unfolding delete_unhealthy
  delete_unhealthy-Frame m =
      search (frame_rules, creates-delete_machine_object u k, after_deletion-Frame)

  unless_blocked-Frame :
      (m : String) (o : Option String) → Frame creates (delete_unless_blocked u k m o)
  unfolding delete_unless_blocked
  unless_blocked-Frame m none = delete_unhealthy-Frame m
  unless_blocked-Frame m (some t) = set_remediated-Frame creates-Blind u k m _ t

  patch_remediated-Frame :
      (m : String) {body : M Unit}
      → Frame creates body
      → Frame creates (patch_remediated u k m body)
  unfolding patch_remediated
  patch_remediated-Frame m h =
      Frame-bind (Frame-outcome_of h) λ r. search (frame_rules, Frame-quiet creates-Blind, tt)

  delete_or_wait-Frame : (m : String) (ms : List String) → Frame creates (delete_or_wait u k m ms)
  unfolding delete_or_wait
  delete_or_wait-Frame m ms = Frame-bind (Frame-gets (λ w. w)) λ w. unless_blocked-Frame m _

  remediate_machine-Frame :
      (ms : List String) (o : Option String) → Frame creates (remediate_machine u k ms o)
  unfolding remediate_machine
  remediate_machine-Frame ms none = search frame_rules
  remediate_machine-Frame ms (some m) =
      Frame-bind (Frame-gets (λ w. w.machines m))
        λ o. Frame-when _ (patch_remediated-Frame m (delete_or_wait-Frame m ms))

  remediate_oldest-Frame : (ms : List String) → Frame creates (remediate_oldest u k ms)
  unfolding remediate_oldest
  remediate_oldest-Frame ms =
      Frame-bind (Frame-gets (λ w. w)) λ w. Frame-when _ (remediate_machine-Frame ms _)

  pub unhealthy-Frame : Frame creates (reconcile_unhealthy_machines u k)
  unfolding reconcile_unhealthy_machines
  unhealthy-Frame =
      search
        (frame_rules, sanitize_healthy_machines-Frame creates-Blind u k, remediate_oldest-Frame)
