-- ===== src/ControlPlane/Trigger/Effects.antt =====
-- A trigger neither creates nor deletes Machines.
use k0smotron.Prelude.{String, List, [], ◌∷◌, Bool, true, false, Option, none, some, ◌≡◌, refl}
use k0smotron.Kube.{
  Upstream, Api, ApiError, not_found, refused, Result, ok, err, Machine, InfraMachine,
  ControllerConfig,
}
use k0smotron.ControlPlane.Scope.{World}
use k0smotron.ControlPlane.Action.{modify}
use k0smotron.ControlPlane.Action.Frame.{Frame, Frame-bind, Frame-gets, Frame-modify, frame_rules}
use k0smotron.ControlPlane.Machines.Effects.{
  Blind, OfCalls, OfCalls-Blind, Frame-quiet, Frame-object,
}
use k0smotron.ControlPlane.Trigger.{
  set_infra, set_config, patch_from, latch_machine, latch_infra, latch_config, mark_machine,
  trigger_capi_inplace_version_update, deployed_by, is_extension_deployed, complete_with,
  complete_each, complete_if_deployed, complete_interrupted, complete_interrupted_triggers,
}

-- `g` sees neither the quiet requests nor the objects of the machines.
pub record Unconcerned {B : Type 0} (g : World → B) : Type 0 where
  pub blind : Blind g
  pub infra : (m : String) (i : InfraMachine) (w : World) → g (set_infra m i w) ≡ g w
  pub config : (m : String) (c : ControllerConfig) (w : World) → g (set_config m c w) ≡ g w

pub OfCalls-Unconcerned : {B : Type 0} {g : World → B} → OfCalls g → Unconcerned g
OfCalls-Unconcerned b = record {
  blind = OfCalls-Blind b;
  infra = λ m i w. b.same w (set_infra m i w) refl;
  config = λ m c w. b.same w (set_config m c w) refl;
}

module _ {B : Type 0} {g : World → B} (b : Unconcerned g) (u : Upstream) (k : Api)
    (hook : String) where
  Frame-infra : (m : String) (i : InfraMachine) → Frame g (modify (set_infra m i))
  Frame-infra m i = Frame-modify (set_infra m i) (b.infra m i)

  Frame-config : (m : String) (i : ControllerConfig) → Frame g (modify (set_config m i))
  Frame-config m i = Frame-modify (set_config m i) (b.config m i)

  patch_from-Frame : (m : String) (o : Machine) → Frame g (patch_from u k hook m o)
  unfolding patch_from
  patch_from-Frame m o = search (frame_rules, Frame-quiet b.blind, Frame-object b.blind)

  latch_machine-Frame : (m : String) → Frame g (latch_machine u k hook m)
  unfolding latch_machine
  latch_machine-Frame m = search (frame_rules, patch_from-Frame)

  mark_machine-Frame : (version m : String) → Frame g (mark_machine u k hook version m)
  unfolding mark_machine
  mark_machine-Frame version m = search (frame_rules, patch_from-Frame)

  latch_infra-Frame : (m : String) (i : InfraMachine) → Frame g (latch_infra u k hook m i)
  unfolding latch_infra
  latch_infra-Frame m i = search (frame_rules, Frame-quiet b.blind, Frame-infra)

  latch_config-Frame : (m : String) (c : ControllerConfig) → Frame g (latch_config u k hook m c)
  unfolding latch_config
  latch_config-Frame m c = search (frame_rules, Frame-quiet b.blind, Frame-config)

  pub trigger-Frame :
      (version m : String) (i : InfraMachine) (c : ControllerConfig)
      → Frame g (trigger_capi_inplace_version_update u k hook version m i c)
  unfolding trigger_capi_inplace_version_update
  trigger-Frame version m i c =
      search (
        frame_rules, latch_machine-Frame, latch_infra-Frame, latch_config-Frame, mark_machine-Frame,
      )

  deployed_by-Frame : (r : Result ApiError Unit) → Frame g (deployed_by u k hook r)
  unfolding deployed_by
  deployed_by-Frame (ok t) = search frame_rules
  deployed_by-Frame (err not_found) = search frame_rules
  deployed_by-Frame (err (refused t)) = search frame_rules

  pub is_extension_deployed-Frame : Frame g (is_extension_deployed u k hook)
  unfolding is_extension_deployed
  is_extension_deployed-Frame = search (frame_rules, deployed_by-Frame)

  complete_with-Frame :
      (m : String) (i : Option InfraMachine) (c : Option ControllerConfig)
      → Frame g (complete_with u k hook m i c)
  unfolding complete_with
  complete_with-Frame m none c = search frame_rules
  complete_with-Frame m (some i) none = search frame_rules
  complete_with-Frame m (some i) (some c) = search (frame_rules, trigger-Frame)

  complete_each-Frame : (ms : List String) → Frame g (complete_each u k hook ms)
  unfolding complete_each
  complete_each-Frame [] = search frame_rules
  complete_each-Frame (m ∷ ms) =
      Frame-bind (Frame-gets (λ w. w.scope))
        λ s. Frame-bind (complete_with-Frame m _ _) λ _. complete_each-Frame ms

  complete_if_deployed-Frame :
      (ms : List String) (d : Bool) → Frame g (complete_if_deployed u k hook ms d)
  unfolding complete_if_deployed
  complete_if_deployed-Frame ms false = search frame_rules
  complete_if_deployed-Frame ms true = search (frame_rules, complete_each-Frame)

  complete_interrupted-Frame : (ms : List String) → Frame g (complete_interrupted u k hook ms)
  unfolding complete_interrupted
  complete_interrupted-Frame [] = search frame_rules
  complete_interrupted-Frame (m ∷ ms) =
      search (frame_rules, is_extension_deployed-Frame, complete_if_deployed-Frame)

  pub complete_interrupted_triggers-Frame :
      (gate : Bool) → Frame g (complete_interrupted_triggers u k hook gate)
  unfolding complete_interrupted_triggers
  complete_interrupted_triggers-Frame false = search frame_rules
  complete_interrupted_triggers-Frame true = search (frame_rules, complete_interrupted-Frame)
