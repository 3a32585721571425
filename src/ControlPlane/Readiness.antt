-- ===== src/ControlPlane/Readiness.antt =====
-- What has to be in order before control plane machines are scaled: preflightChecks in
-- internal/controller/controlplane/scale.go, and checkMachineIsReady.
pub mod Creates
use k0smotron.Prelude.{
  ℕ, ◌-◌, String, [], ◌∷◌, Bool, true, false, not, ltb, Option, none, some, any, if◌then◌else◌,
}
use k0smotron.Kube.{
  Upstream, Api, ApiError, not_found, refused, Error, api, plain, wrap, fault, Result, ok, err,
  ControllerConfig, CtrlResult, zero_result, minute,
}
use k0smotron.Bootstrap.Args.{worker_enabled}
use k0smotron.ControlPlane.Scope.{World}
use k0smotron.ControlPlane.Action.{M, pure, fail, gets, ◌>>=◌, ◌>>◌, attempt, with_context}
use k0smotron.ControlPlane.Remediation.{reconcile_unhealthy_machines}
use k0smotron.ControlPlane.Deletions.{reconcile_manual_deletions}

abbrev pub machine_available : String
machine_available = "Available"

abbrev pub machine_updating : String
machine_updating = "Updating"

-- ErrNewMachinesNotReady
abbrev pub new_machines_not_ready : Error
new_machines_not_ready = plain ("waiting for new machines" ∷ [])

-- ctrl.Result{RequeueAfter: 10 * time.Second, Requeue: true}
abbrev pub requeue_soon : CtrlResult
requeue_soon = record { requeue = true; requeue_after = 10000000000 }

module _ (u : Upstream) (k : Api) where
  -- By the control node, and the time now.
  ready_by_control_node : Result ApiError ℕ → ℕ → M Unit
  ready_by_control_node (err not_found) now = fail new_machines_not_ready
  ready_by_control_node (err (refused t)) now =
      fail (wrap ("error getting controlnode" ∷ []) (api (refused t)))
  ready_by_control_node (ok joined_at) now =
      if ltb (now - joined_at) minute then fail new_machines_not_ready else pure tt

  ready_by_clientset : String → Result Error Bool → M Unit
  unfolding ready_by_control_node
  ready_by_clientset m (err e) =
      fail (wrap ("error getting cluster client set for machine update" ∷ []) e)
  ready_by_clientset m (ok false) = fail fault
  ready_by_clientset m (ok true) = do
    w ← gets (λ w. w)
    ready_by_control_node (k.get_control_node w.calls m) (k.now w.calls)

  pub check_machine_is_ready : String → M Unit
  unfolding ready_by_clientset
  check_machine_is_ready m = do r ← gets (λ w. k.workload_clientset w.calls); ready_by_clientset m r

  is_ok : Result Error Unit → Bool
  is_ok (ok _) = true
  is_ok (err _) = false

  ready_by_checking : String → M Bool
  unfolding is_ok
  ready_by_checking m = do r ← attempt (check_machine_is_ready m); pure (is_ok r)

  -- By the machine's controller config.
  ready_by_config : String → Option ControllerConfig → M Bool
  unfolding ready_by_checking
  ready_by_config m none = ready_by_checking m
  ready_by_config m (some config) =
      if not (worker_enabled config.spec)
      then ready_by_checking m
      else gets (λ w. u.is_true (w.machines m).conditions machine_available)

  ready_if_any : Option String → M Bool
  unfolding ready_by_config
  ready_if_any none = pure true
  ready_if_any (some m) = do
    config ← gets (λ w. w.scope.controller_configs m)
    ready_by_config m config

  pub is_latest_machine_ready : M Bool
  unfolding ready_if_any
  is_latest_machine_ready = do
    latest ← gets (λ w. u.newest w.machines w.scope.active_machines)
    ready_if_any latest

  pub is_any_machine_updating : World → Bool
  is_any_machine_updating w =
      any (λ m. u.is_true (w.machines m).conditions machine_updating) w.scope.active_machines

  when_not_updating : Bool → CtrlResult
  when_not_updating updating = if updating then requeue_soon else zero_result

  when_ready : Bool → M CtrlResult
  unfolding when_not_updating
  when_ready ready =
      if not ready
      then pure requeue_soon
      else gets (λ w. when_not_updating (is_any_machine_updating w))

  pub preflight_checks : M CtrlResult
  unfolding when_ready
  preflight_checks = do
    reconcile_unhealthy_machines u k
    with_context (wrap ("error reconciling manual deletions" ∷ [])) (reconcile_manual_deletions u k)
    ready ← is_latest_machine_ready
    when_ready ready
