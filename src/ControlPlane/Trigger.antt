-- ===== src/ControlPlane/Trigger.antt =====
-- How an in-place update through Cluster API begins: triggerCAPIInplaceVersionUpdate,
-- machinesToCompleteTrigger and completeInterruptedTriggers in
-- internal/controller/controlplane/inplace.go, and retrieveOldestMachineOutOfDate in scale.go.
-- The hook's name is a parameter: the runtime catalog of Cluster API makes it.
pub mod Interruption
pub mod Effects
use k0smotron.Prelude.{
  ℕ, String, List, [], ◌∷◌, Bool, true, false, not, ◌&&◌, Option, none, some, nat_eq, length,
  if◌then◌else◌, StringMap, has_key, insert, update,
}
use k0smotron.Kube.{
  Upstream, Api, ApiError, not_found, refused, Error, api, plain, wrap, fault, Result, ok, err,
  Machine, InfraMachine, ControllerConfig, patch_machine, patch_infra, patch_config,
}
use k0smotron.ControlPlane.Scope.{World, set_machine}
use k0smotron.ControlPlane.Action.{
  M, pure, fail, gets, modify, when, ◌>>=◌, ◌>>◌, with_context, send, if_failed,
}
use k0smotron.ControlPlane.Hooks.{has_pending_hook, mark_hook_pending}

-- clusterv1.UpdateInProgressAnnotation
abbrev pub update_in_progress : String
update_in_progress = "in-place-updates.internal.cluster.x-k8s.io/update-in-progress"

abbrev pub is_latched : StringMap → Bool
is_latched annotations = has_key update_in_progress annotations

abbrev pub latched : StringMap → StringMap
latched annotations = insert update_in_progress "" annotations

-- Changes the object that the struct points at.
abbrev pub set_infra : String → InfraMachine → World → World
set_infra m i w =
    let s = w.scope in
    record w { scope = record s { infra_machines = update s.infra_machines m (some i) } }

abbrev pub set_config : String → ControllerConfig → World → World
set_config m c w =
    let s = w.scope in
    record w { scope = record s { controller_configs = update s.controller_configs m (some c) } }

-- What the filter of machinesToCompleteTrigger asks.
unfoldable pub is_interrupted : String → Machine → Bool
is_interrupted hook o = is_latched o.annotations && not (has_pending_hook o.annotations hook)

module _ (u : Upstream) (k : Api) (hook : String) where
  -- The end of a branch that has changed the Machine.
  patch_from : String → Machine → M Unit
  patch_from m o = do
    modify (set_machine m o)
    e ← send k (patch_machine o)
    if_failed e (λ a. wrap ("failed to trigger in-place update for Machine" ∷ m ∷ []) (api a))

  unfoldable pub latch_machine : String → M Unit
  unfolding patch_from
  latch_machine m = do
    o ← gets (λ w. w.machines m)
    when (not (is_latched o.annotations))
        do let o' = record o { annotations = latched o.annotations }; patch_from m o'

  unfoldable pub latch_infra : String → InfraMachine → M Unit
  latch_infra m i = when (not (is_latched i.annotations)) do
    let i' = record i { annotations = latched i.annotations }
    modify (set_infra m i')
    e ← send k (patch_infra i')
    if_failed e (λ a.
        wrap ("failed to trigger in-place update for InfrastructureMachine" ∷ i.name ∷ []) (api a))

  unfoldable pub latch_config : String → ControllerConfig → M Unit
  latch_config m c = when (not (is_latched c.annotations)) do
    let c' = record c { annotations = latched c.annotations }
    modify (set_config m c')
    e ← send k (patch_config c')
    if_failed e
        (λ a. wrap ("failed to trigger in-place update for BootstrapConfig" ∷ c.name ∷ []) (api a))

  unfoldable pub mark_machine : String → String → M Unit
  unfolding patch_from
  mark_machine version m = do
    o ← gets (λ w. w.machines m)
    when (not (has_pending_hook o.annotations hook)) do
      let o' = record o { version = version; annotations = mark_hook_pending u hook o.annotations }
      patch_from m o'

  unfoldable pub trigger_capi_inplace_version_update :
      String → String → InfraMachine → ControllerConfig → M Unit
  unfolding latch_machine latch_infra latch_config mark_machine
  trigger_capi_inplace_version_update version m i c = do
    latch_machine m
    latch_infra m i
    latch_config m c
    mark_machine version m

  unfoldable pub machines_to_complete_trigger : World → List String
  unfolding is_interrupted
  machines_to_complete_trigger w =
      u.filter (λ m. is_interrupted hook (w.machines m)) w.scope.active_machines

  -- By the answer to the request for the ExtensionConfig.
  deployed_by : Result ApiError Unit → M Bool
  deployed_by (ok _) = pure true
  deployed_by (err not_found) = pure false
  deployed_by (err (refused t)) =
      fail
        (wrap ("error getting k0smotron inplace version update extension" ∷ []) (api (refused t)))

  unfoldable pub is_extension_deployed : M Bool
  unfolding deployed_by
  is_extension_deployed = do r ← gets (λ w. k.get_extension w.calls); deployed_by r

  -- One round of the loop, by the objects of the machine.
  complete_with : String → Option InfraMachine → Option ControllerConfig → M Unit
  unfolding trigger_capi_inplace_version_update
  complete_with m none c = fail (plain ("infrastructure machine not found for machine" ∷ m ∷ []))
  complete_with m (some i) none = fail (plain ("controller config not found for machine" ∷ m ∷ []))
  complete_with m (some i) (some c) = do
    version ← gets (λ w. w.scope.kcp.spec.version)
    with_context (wrap ("error completing in-place update trigger for machine" ∷ m ∷ []))
        (trigger_capi_inplace_version_update version m i c)

  complete_each : List String → M Bool
  unfolding complete_with
  complete_each [] = pure true
  complete_each (m ∷ ms) = do
    s ← gets (λ w. w.scope)
    complete_with m (s.infra_machines m) (s.controller_configs m)
    complete_each ms

  complete_if_deployed : List String → Bool → M Bool
  unfolding complete_each
  complete_if_deployed ms false = pure false
  complete_if_deployed ms true = do
    sorted ← gets (λ w. u.sorted_by_creation w.machines ms)
    complete_each sorted

  complete_interrupted : List String → M Bool
  unfolding complete_if_deployed is_extension_deployed
  complete_interrupted [] = pure false
  complete_interrupted (m ∷ ms) = do
    d ←
        with_context
          (wrap ("error checking if k0smotron extension for in-place updates is deployed" ∷ []))
          is_extension_deployed
    complete_if_deployed (m ∷ ms) d

  -- With the feature gate InPlaceUpdates.
  unfoldable pub complete_interrupted_triggers : Bool → M Bool
  unfolding complete_interrupted machines_to_complete_trigger
  complete_interrupted_triggers false = pure false
  complete_interrupted_triggers true = do
    ms ← gets machines_to_complete_trigger
    complete_interrupted ms

-- By the objects of the oldest machine that is out of date; there is none if the set is empty, and
-- its name is read.
outdated_with :
    String
    → Option ControllerConfig
    → Option InfraMachine
    → Result Error (String × InfraMachine × ControllerConfig)
outdated_with m none i = err (plain ("controller config not found for machine" ∷ []))
outdated_with m (some c) none = err (plain ("infrastructure machine not found for machine" ∷ []))
outdated_with m (some c) (some i) = ok (m, i, c)

outdated_if_any : World → Option String → Result Error (String × InfraMachine × ControllerConfig)
unfolding outdated_with
outdated_if_any w none = err fault
outdated_if_any w (some m) =
    outdated_with m (w.scope.controller_configs m) (w.scope.infra_machines m)

unfoldable pub retrieve_oldest_machine_out_of_date :
    Upstream → World → Result Error (String × InfraMachine × ControllerConfig)
unfolding outdated_if_any
retrieve_oldest_machine_out_of_date u w =
    outdated_if_any w (u.oldest w.machines w.scope.not_up_to_date_machines)
