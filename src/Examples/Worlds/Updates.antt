-- ===== src/Examples/Worlds/Updates.antt =====
-- How in-place updates go.
use k0smotron.Prelude.{
  String, [], ◌∷◌, true, some, ◌≡◌, refl, lookup, if◌then◌else◌, ◌==◌, IsFree, is_free, split,
}
use k0smotron.Kube.{
  InfraMachine, ControllerConfig, Json, text, array, object, item, no_items, field, no_fields,
  update_in_place,
}
use k0smotron.Autopilot.{get_plan_target_nodes, get_plan_target_version}
use k0smotron.ControlPlane.Action.{◌>>=◌, with_context}
use k0smotron.ControlPlane.Action.Returns.{OnOk}
use k0smotron.ControlPlane.Template.{lift_result}
use k0smotron.ControlPlane.InPlace.{
  requires_update, reconcile_inplace_k0s_version_update, update_machine_version,
  ensure_target_machines_with_target_version,
}
use k0smotron.ControlPlane.InPlace.Hold.{IsNotZero, inplace_holds}
use k0smotron.ControlPlane.InPlace.Versions.{planned_machines_updated}
use k0smotron.ControlPlane.Scope.{World}
use k0smotron.ControlPlane.Hooks.{pending_hooks, has_pending_hook, mark_hook_pending}
use k0smotron.ControlPlane.Hooks.Tracking.{mark_hook_pending_adds}
use k0smotron.ControlPlane.Trigger.{trigger_capi_inplace_version_update}
use k0smotron.ControlPlane.Trigger.Interruption.{IsStarted, trigger_outcome}
use k0smotron.ControlPlane.Machines.Server.{stored}
use k0smotron.Examples.Libraries.{upstream, set_laws}
use k0smotron.Examples.Specs.{control_plane_config, versions}
use k0smotron.Examples.Worlds.{servers, rolling, world_of, control_plane_of}
use k0smotron.Examples.Worlds.Requests.{codec}

abbrev hook : String
hook = "UpdateMachine"

hook-IsFree : IsFree b',' hook
unfolding is_free
hook-IsFree = refl

mark_hook_pending_adds_example :
    has_pending_hook
      (mark_hook_pending upstream hook (("runtime.cluster.x-k8s.io/pending-hooks", "Other") ∷ []))
      "Other"
    ≡ (if hook == "Other"
        then true
        else has_pending_hook (("runtime.cluster.x-k8s.io/pending-hooks", "Other") ∷ []) "Other")
mark_hook_pending_adds_example =
    mark_hook_pending_adds upstream set_laws hook
      (("runtime.cluster.x-k8s.io/pending-hooks", "Other") ∷ []) "Other" (λ e. cc) hook-IsFree

abbrev infra : InfraMachine
infra = record {
  api_version = "v1beta1";
  kind = "DockerMachine";
  name = "cp-1";
  labels = [];
  annotations = [];
  content = no_fields;
}

abbrev config : ControllerConfig
config = record {
  name = "cp-1";
  labels = [];
  annotations = [];
  version = "v1.34.1+k0s.0";
  spec = some control_plane_config;
}

abbrev world : World
world = world_of rolling

trigger_outcome_example :
    let (r, w') =
      trigger_capi_inplace_version_update upstream servers hook "v1.34.2+k0s.0" "cp-1" infra config
        world in
    IsStarted hook "v1.34.2+k0s.0"
      (world.machines "cp-1")
      (stored servers "cp-1" (world.machines "cp-1") w'.calls)
      r
unfolding stored has_pending_hook pending_hooks lookup split
trigger_outcome_example =
    trigger_outcome upstream servers hook "cp-1" (world.machines "cp-1") set_laws (λ e. cc)
      hook-IsFree "v1.34.2+k0s.0" infra config world refl refl refl

-- A plan for two nodes, one of which is a worker.
abbrev plan : Json
plan = object (
    field "spec"
      (object (
        field "commands"
          (array (
            item
              (object (
                field "k0supdate"
                  (object (
                    field "version" (text "v1.34.2+k0s.0") (
                      field "targets"
                        (object (
                          field "controllers"
                            (object (
                              field "discovery"
                                (object (
                                  field "static"
                                    (object (
                                      field "nodes"
                                        (array (item (text "cp-2") (item (text "worker") no_items)))
                                        no_fields))
                                    no_fields))
                                no_fields))
                            no_fields))
                        no_fields)))
                  no_fields))
              no_items))
          no_fields))
      no_fields)

planned_machines_updated_example :
    let w' = (ensure_target_machines_with_target_version upstream servers plan world).1 in
    ((w'.machines "cp-2").version ≡ "v1.34.2+k0s.0")
    × ((stored servers "cp-2" (world.machines "cp-2") w'.calls).version ≡ "v1.34.2+k0s.0")
unfolding get_plan_target_nodes get_plan_target_version ensure_target_machines_with_target_version
    ◌>>=◌ update_machine_version lift_result with_context stored
planned_machines_updated_example =
    planned_machines_updated upstream servers world.machines plan ("cp-2" ∷ "worker" ∷ [])
      "v1.34.2+k0s.0" world (λ a. (refl, refl)) refl refl refl "cp-2" refl refl

-- A control plane that is to be updated in place.
abbrev due : World
due =
    let kcp = control_plane_of 3 update_in_place in
    world_of (record rolling { kcp = kcp; has_machines_with_only_version_outdated = true })

inplace_holds_example :
    let (r, w') =
      reconcile_inplace_k0s_version_update upstream versions codec servers true hook due in
    OnOk IsNotZero r w'
unfolding requires_update
inplace_holds_example = inplace_holds upstream versions codec servers true hook due refl refl
