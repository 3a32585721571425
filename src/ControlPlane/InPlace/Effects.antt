-- ===== src/ControlPlane/InPlace/Effects.antt =====
-- An update in place neither creates nor deletes Machines.
use k0smotron.Prelude.{String, List, [], ◌∷◌, has, Bool, true, false, ◌≡◌, refl}
use k0smotron.Kube.{Upstream, VersionLib, Api, Error, Result, ok, err, Json, zero_result}
use k0smotron.Autopilot.{PlanParameters, get_plan-Frame, remove_plan, post_plan}
use k0smotron.ControlPlane.Scope.{Scope, World}
use k0smotron.ControlPlane.Action.{modify}
use k0smotron.ControlPlane.Action.Frame.{
  Frame, Frame-modify, Frame-bind, Frame-gets, Frame-with_context, Frame-attempt, Frame-if,
  Frame-pure, frame_rules,
}
use k0smotron.ControlPlane.Machines.Effects.{OfCalls, OfCalls-Blind, Frame-quiet, Frame-object}
use k0smotron.ControlPlane.Template.{Codec}
use k0smotron.ControlPlane.Template.Effects.{lift_result-Frame}
use k0smotron.ControlPlane.Retrieval.Effects.{retrieve-Frame}
use k0smotron.ControlPlane.Trigger.Effects.{
  OfCalls-Unconcerned, trigger-Frame, is_extension_deployed-Frame,
  complete_interrupted_triggers-Frame,
}
use k0smotron.ControlPlane.InPlace.{
  update_machine_version, update_if_machine, update_each,
  ensure_target_machines_with_target_version, run_standalone_autopilot_plan,
  run_through_cluster_api, run_inplace_update, start_update, after_completion, by_completion,
  by_plan, by_clientset, by_availability, by_interrupted, reconcile_inplace_k0s_version_update,
}

Frame-world :
    {B : Type 0} {g : World → B} (b : OfCalls g) (f : World → World)
    → ((w : World) → (f w).calls ≡ w.calls)
    → Frame g (modify f)
Frame-world b f h = Frame-modify f (λ w. b.same w (f w) (h w))

module _ {B : Type 0} {g : World → B} (b : OfCalls g) (u : Upstream) (k : Api) where
  remove_plan-Frame : (c : Bool) → Frame g (remove_plan k c)
  unfolding remove_plan
  remove_plan-Frame false = search frame_rules
  remove_plan-Frame true = search (frame_rules, Frame-quiet (OfCalls-Blind b), tt)

  post_plan-Frame : (c : Bool) (p : PlanParameters) → Frame g (post_plan k c p)
  unfolding post_plan
  post_plan-Frame false p = search frame_rules
  post_plan-Frame true p = search (frame_rules, Frame-quiet (OfCalls-Blind b), tt)

  update_machine_version-Frame :
      (m version : String) → Frame g (update_machine_version u k m version)
  unfolding update_machine_version
  update_machine_version-Frame m version =
      search (frame_rules, Frame-quiet (OfCalls-Blind b), Frame-object (OfCalls-Blind b))

  update_if_machine-Frame :
      (version n : String) (is_machine : Bool)
      → Frame g (update_if_machine u k version n is_machine)
  unfolding update_if_machine
  update_if_machine-Frame version n false = search frame_rules
  update_if_machine-Frame version n true = search (frame_rules, update_machine_version-Frame)

  update_each-Frame :
      (version : String) (active ns : List String) → Frame g (update_each u k version active ns)
  unfolding update_each
  update_each-Frame version active [] = search frame_rules
  update_each-Frame version active (n ∷ ns) =
      Frame-bind (update_if_machine-Frame version n (has n active))
        λ _. update_each-Frame version active ns

  ensure-Frame : (plan : Json) → Frame g (ensure_target_machines_with_target_version u k plan)
  unfolding ensure_target_machines_with_target_version
  ensure-Frame plan = search (frame_rules, lift_result-Frame (OfCalls-Blind b), update_each-Frame)

  standalone-Frame : (c : Bool) → Frame g (run_standalone_autopilot_plan u k c)
  unfolding run_standalone_autopilot_plan
  standalone-Frame c = Frame-bind (Frame-gets (λ w. w)) λ w.
      Frame-bind (Frame-with_context _ (post_plan-Frame c _))
        λ _. Frame-world b (λ w. record w { updating_versions = true }) (λ w. refl)

module _ {B : Type 0} {g : World → B} (b : OfCalls g) (u : Upstream) (v : VersionLib) (c : Codec)
    (k : Api) (gate : Bool) (hook : String) where
  through-Frame : Frame g (run_through_cluster_api u v c k gate hook)
  unfolding run_through_cluster_api
  through-Frame = Frame-bind (Frame-gets (λ w. w)) λ w.
      Frame-bind (lift_result-Frame (OfCalls-Blind b) _ _) λ oldest.
        Frame-with_context _
          (trigger-Frame (OfCalls-Unconcerned b) u k hook _ oldest.0 oldest.1 oldest.2)

  run_inplace_update-Frame : (h : Bool) → Frame g (run_inplace_update u v c k gate hook h)
  unfolding run_inplace_update
  run_inplace_update-Frame h =
      Frame-bind (Frame-attempt (is_extension_deployed-Frame (OfCalls-Unconcerned b) u k hook))
        λ d. Frame-if _ through-Frame (standalone-Frame b u k h)

  start_update-Frame : (h : Bool) → Frame g (start_update u v c k gate hook h)
  unfolding start_update
  start_update-Frame h = search (frame_rules, run_inplace_update-Frame)

  after_completion-Frame : (h r : Bool) → Frame g (after_completion u v c k gate hook h r)
  unfolding after_completion
  after_completion-Frame h true = search (frame_rules, remove_plan-Frame b u k, start_update-Frame)
  after_completion-Frame h false =
      Frame-bind (Frame-with_context _ (retrieve-Frame u v c k b)) λ _. Frame-pure zero_result

  by_completion-Frame :
      (h r : Bool) (plan : Json) (d : Result Error Bool)
      → Frame g (by_completion u v c k gate hook h r plan d)
  unfolding by_completion
  by_completion-Frame h r plan (err e) = search frame_rules
  by_completion-Frame h r plan (ok false) = search frame_rules
  by_completion-Frame h r plan (ok true) =
      Frame-bind (Frame-world b (λ w. record w { updating_versions = false }) (λ w. refl)) λ _.
        Frame-bind (Frame-with_context _ (ensure-Frame b u k plan)) λ _. after_completion-Frame h r

  by_plan-Frame :
      (h r : Bool) (plan : Result Error Json) → Frame g (by_plan u v c k gate hook h r plan)
  unfolding by_plan
  by_plan-Frame h r (ok plan) = by_completion-Frame h r plan _
  by_plan-Frame h r (err e) = search (frame_rules, start_update-Frame)

  by_clientset-Frame :
      (r : Bool) (h : Result Error Bool) → Frame g (by_clientset u v c k gate hook r h)
  unfolding by_clientset
  by_clientset-Frame r (ok h) = search (frame_rules, get_plan-Frame k, by_plan-Frame)
  by_clientset-Frame r (err e) = search frame_rules

  by_availability-Frame : (r : Bool) (s : Scope) → Frame g (by_availability u v c k gate hook r s)
  unfolding by_availability
  by_availability-Frame r s = search (frame_rules, by_clientset-Frame)

  by_interrupted-Frame : (r i : Bool) → Frame g (by_interrupted u v c k gate hook r i)
  unfolding by_interrupted
  by_interrupted-Frame r true = search frame_rules
  by_interrupted-Frame r false = search (frame_rules, by_availability-Frame)

  pub inplace-Frame : Frame g (reconcile_inplace_k0s_version_update u v c k gate hook)
  unfolding reconcile_inplace_k0s_version_update
  inplace-Frame = search (
    frame_rules,
    complete_interrupted_triggers-Frame (OfCalls-Unconcerned b) u k hook,
    by_interrupted-Frame,
  )
