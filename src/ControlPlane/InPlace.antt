-- ===== src/ControlPlane/InPlace.antt =====
-- Updates of the k0s version in place: reconcileInplaceK0sVersionUpdate and what it calls, in
-- internal/controller/controlplane/inplace.go. `gate` is the feature gate InPlaceUpdates, and `hook`
-- the name of the hook.
pub mod Hold
pub mod Versions
pub mod Effects
use Prim.Native.Nat.{◌/◌}
use Prim.Native.String.{◌++◌ as push_str}
use k0smotron.Prelude.{
  ℕ, String, List, [], ◌∷◌, Bool, true, false, not, ◌&&◌, ◌==◌, Option, none, some, has, length,
  nat_eq, if◌then◌else◌,
}
use k0smotron.Kube.{
  Upstream, VersionLib, Api, ApiError, Error, api, plain, wrap, fault, is_not_found, Result, ok,
  err, Json, object, UpdateStrategy, update_in_place, update_recreate, update_recreate_delete_first,
  patch_machine, CtrlResult, zero_result, second,
}
use k0smotron.Autopilot.{
  PlanParameters, get_plan, remove_plan, post_plan, is_plan_completed, get_plan_target_nodes,
  get_plan_target_version, is_unexpected_plan_state,
}
use k0smotron.ControlPlane.Scope.{Scope, World, set_machine}
use k0smotron.ControlPlane.Action.{
  M, pure, fail, gets, modify, ◌>>=◌, ◌>>◌, attempt, when, with_context, send, if_failed,
  unless_not_found,
}
use k0smotron.ControlPlane.Template.{Codec, lift_result}
use k0smotron.ControlPlane.Readiness.{requeue_soon}
use k0smotron.ControlPlane.Retrieval.{retrieve_control_plane_state}
use k0smotron.ControlPlane.Trigger.{
  trigger_capi_inplace_version_update, complete_interrupted_triggers, is_extension_deployed,
  retrieve_oldest_machine_out_of_date,
}

abbrev pub available_condition : String
available_condition = "Available"

-- ctrl.Result{RequeueAfter: 10 * time.Second}
abbrev pub wait_a_little : CtrlResult
wait_a_little = record { requeue = false; requeue_after = 10000000000 }

abbrev is_in_place : UpdateStrategy → Bool
is_in_place update_in_place = true
is_in_place update_recreate = false
is_in_place update_recreate_delete_first = false

unfoldable pub requires_update : Scope → Bool
requires_update s =
    s.has_machines_with_only_version_outdated && is_in_place s.kcp.spec.update_strategy

unfoldable pub count_matches : Scope → Bool
count_matches s = nat_eq (length s.active_machines) s.kcp.spec.replicas

module _ (u : Upstream) (k : Api) where
  unfoldable pub update_machine_version : String → String → M Unit
  update_machine_version m version = do
    o ← gets (λ w. w.machines m)
    when (not (o.version == version)) do
      let o' = record o { version = version }
      modify (set_machine m o')
      e ← send k (patch_machine o')
      if_failed e (λ a. wrap ("error patching machine" ∷ m ∷ []) (api a))

  -- One round of the loop over the nodes of the plan; a plan may name nodes that are not machines
  -- of the control plane.
  update_if_machine : String → String → Bool → M Unit
  unfolding update_machine_version
  update_if_machine version n false = pure tt
  update_if_machine version n true =
      with_context (wrap ("error updating machine version for" ∷ n ∷ []))
        (update_machine_version n version)

  update_each : String → List String → List String → M Unit
  unfolding update_if_machine
  update_each version active [] = pure tt
  update_each version active (n ∷ ns) = do
    update_if_machine version n (has n active)
    update_each version active ns

  unfoldable pub ensure_target_machines_with_target_version : Json → M Unit
  unfolding update_each
  ensure_target_machines_with_target_version plan = do
    nodes ←
        lift_result (wrap ("error getting plan target nodes" ∷ [])) (get_plan_target_nodes u plan)
    version ←
        lift_result (wrap ("error getting plan target version" ∷ []))
          (get_plan_target_version u plan)
    active ← gets (λ w. w.scope.active_machines)
    update_each version active nodes

  unfoldable pub run_standalone_autopilot_plan : Bool → M Unit
  run_standalone_autopilot_plan c = do
    w ← gets (λ w. w)
    let kcp = w.scope.kcp
    let timestamp = u.decimal (k.now w.calls / second)
    with_context (wrap ("error creating autopilot plan" ∷ [])) (
        post_plan k c (record {
          id = push_str "id-" (push_str kcp.name (push_str "-" timestamp));
          timestamp = timestamp;
          version = kcp.spec.version;
          download_url = kcp.spec.k0s_config_spec.download_url;
          target = "controllers";
          nodes = w.scope.not_up_to_date_machines;
        }))
    modify (λ w. record w { updating_versions = true })

module _ (u : Upstream) (v : VersionLib) (c : Codec) (k : Api) (gate : Bool) (hook : String) where
  run_through_cluster_api : M Unit
  run_through_cluster_api = do
    w ← gets (λ w. w)
    oldest ←
        lift_result (wrap ("error retrieving machine to update" ∷ []))
          (retrieve_oldest_machine_out_of_date u w)
    let (m, infra, config) = oldest
    with_context (wrap ("error triggering in-place version update for machine" ∷ m ∷ []))
        (trigger_capi_inplace_version_update u k hook w.scope.kcp.spec.version m infra config)

  -- An error of the test for the extension is only logged, and reads as "not deployed".
  is_deployed : Result Error Bool → Bool
  is_deployed (ok d) = d
  is_deployed (err e) = false

  unfoldable pub run_inplace_update : Bool → M Unit
  unfolding run_through_cluster_api is_deployed run_standalone_autopilot_plan
  run_inplace_update has_clientset = do
    d ← attempt (is_extension_deployed u k hook)
    if gate && is_deployed d
        then run_through_cluster_api
        else run_standalone_autopilot_plan u k has_clientset

  -- Updates, and waits.
  start_update : Bool → M CtrlResult
  unfolding run_inplace_update
  start_update has_clientset = do
    with_context (wrap ("error running in-place update" ∷ [])) (run_inplace_update has_clientset)
    pure requeue_soon

  -- Behind the machines' versions.
  after_completion : Bool → Bool → M CtrlResult
  unfolding start_update
  after_completion has_clientset true = do
    e ← remove_plan k has_clientset
    unless_not_found e (λ a. wrap ("error deleting autopilot plan" ∷ []) (api a))
    start_update has_clientset
  after_completion has_clientset false = do
    with_context (wrap ("error re-initializing control plane scope" ∷ []))
        (retrieve_control_plane_state u v c k)
    pure zero_result

  by_completion : Bool → Bool → Json → Result Error Bool → M CtrlResult
  unfolding after_completion ensure_target_machines_with_target_version
  by_completion has_clientset requires plan (err e) = fail (
      if is_unexpected_plan_state e
      then wrap ("autopilot plan is in an unexpected state" ∷ []) e
      else wrap ("error checking if autopilot plan is completed" ∷ []) e)
  by_completion has_clientset requires plan (ok false) = pure requeue_soon
  by_completion has_clientset requires plan (ok true) = do
    modify (λ w. record w { updating_versions = false })
    with_context (wrap ("error ensuring machine versions are updated" ∷ []))
        (ensure_target_machines_with_target_version u k plan)
    after_completion has_clientset requires

  by_plan : Bool → Bool → Result Error Json → M CtrlResult
  unfolding by_completion start_update
  by_plan has_clientset requires (ok plan) =
      by_completion has_clientset requires plan (is_plan_completed u plan)
  by_plan has_clientset requires (err e) =
      if is_not_found e
      then (if requires then start_update has_clientset else pure zero_result)
      else fail (wrap ("error getting autopilot plan" ∷ []) e)

  by_clientset : Bool → Result Error Bool → M CtrlResult
  unfolding by_plan
  by_clientset requires (err e) =
      fail (wrap ("error getting cluster client set for machine update" ∷ []) e)
  by_clientset requires (ok has_clientset) = do
    plan ← attempt (get_plan k has_clientset)
    by_plan has_clientset requires plan

  -- Without the workload cluster only the rollout is held, never a count that does not match.
  by_availability : Bool → Scope → M CtrlResult
  unfolding by_clientset requires_update count_matches
  by_availability requires s =
      if not (u.is_true s.kcp.status.conditions available_condition)
      then pure (if requires && count_matches s then wait_a_little else zero_result)
      else do r ← gets (λ w. k.workload_clientset w.calls); by_clientset requires r

  by_interrupted : Bool → Bool → M CtrlResult
  unfolding by_availability
  by_interrupted requires true = pure requeue_soon
  by_interrupted requires false = do s ← gets (λ w. w.scope); by_availability requires s

  unfoldable pub reconcile_inplace_k0s_version_update : M CtrlResult
  unfolding by_interrupted
  reconcile_inplace_k0s_version_update = do
    requires ← gets (λ w. requires_update w.scope)
    interrupted ← complete_interrupted_triggers u k hook gate
    by_interrupted requires interrupted

-- One round of the background loop: the test of the poll in updateMachineVersions.
module _ (u : Upstream) (k : Api) where
  -- The entries of the plan's status, which are maps with a name and a state; errors read as "".
  text_or_blank : Result Error (Option String) → String
  text_or_blank (ok (some s)) = s
  text_or_blank _ = ""

  update_controllers : List String → String → List Json → M Bool
  unfolding text_or_blank update_if_machine
  update_controllers active version [] = pure true
  update_controllers active version (object fs ∷ cs) = do
    let name = text_or_blank (u.nested_string (object fs) ("name" ∷ []))
    let state = text_or_blank (u.nested_string (object fs) ("state" ∷ []))
    let signalled = state == "SignalCompleted"
    update_if_machine u k version name (signalled && has name active)
    rest ← update_controllers active version cs
    pure (signalled && rest)
  update_controllers active version (_ ∷ cs) = update_controllers active version cs

  controllers_of_command : Result Error (Option (List Json)) → M Bool
  unfolding update_controllers
  controllers_of_command (err e) = fail (wrap ("error reading k0supdate.controllers" ∷ []) e)
  controllers_of_command (ok none) = pure false
  controllers_of_command (ok (some cs)) = do
    s ← gets (λ w. w.scope)
    update_controllers s.active_machines s.kcp.spec.version cs

  commands_of_plan : Result Error (Option (List Json)) → M Bool
  unfolding controllers_of_command
  commands_of_plan (err e) = fail (wrap ("error reading status.commands" ∷ []) e)
  commands_of_plan (ok none) = pure false
  commands_of_plan (ok (some [])) = pure false
  commands_of_plan (ok (some (object c ∷ cs))) =
      controllers_of_command (u.nested_slice (object c) ("k0supdate" ∷ "controllers" ∷ []))
  commands_of_plan (ok (some (_ ∷ cs))) = fail (plain ("unexpected type for command" ∷ []))

  unfoldable pub update_machine_versions_once : Bool → M Bool
  unfolding commands_of_plan
  update_machine_versions_once has_clientset = do
    plan ← get_plan k has_clientset
    commands_of_plan (u.nested_slice plan ("status" ∷ "commands" ∷ []))
