-- ===== src/ControlPlane/Report.antt =====
-- How a reconciliation ends: updateStatus in internal/controller/controlplane/status.go, and the
-- deferred function of Reconcile in k0s_controlplane_controller.go. The selector of the status,
-- which the name of the cluster makes, is left out. The two patches are given by their answers.
pub mod Alive
use k0smotron.Prelude.{
  ℕ, String, List, [], ◌∷◌, Bool, true, false, Option, none, some, ◌==◌, unwrap_or, if◌then◌else◌,
}
use k0smotron.Kube.{
  Upstream, VersionLib, ApiError, Error, api, plain, wrap, fault, Result, ok, err, CtrlResult,
}
use k0smotron.ControlPlane.Scope.{World, set_scope}
use k0smotron.ControlPlane.Status.{compute_replicas}
use k0smotron.ControlPlane.Availability.{
  Memory, HealthState, ReadOutcome, compute_availability, requeue_result,
}

-- errors.Is(err, kutil.ErrNotReady)
is_not_ready : Error → Bool
is_not_ready (plain (t ∷ [])) = t == "waiting for the state"
is_not_ready (plain _) = false
is_not_ready (wrap t e) = is_not_ready e
is_not_ready (api a) = false
is_not_ready fault = false

-- How the workload cluster is read: the state of the cluster cache, the time, and the outcome.
pub record Reading : Type 0 where
  pub health : Option HealthState
  pub now : ℕ
  pub outcome : ReadOutcome

module _ (u : Upstream) (v : VersionLib) (cause_text : String → String) (since_text : ℕ → String)
    (reading : Reading) where
  with_availability : Memory × World → Memory × World
  with_availability (memory, w) =
      let (memory', s) =
        compute_availability u cause_text since_text reading.health reading.now reading.outcome
          (memory, w.scope) in
      (memory', set_scope s w)

  -- The deferred function of updateStatus.
  after_replicas : Memory → Result Error Unit × World → Result Error Unit × Memory × World
  unfolding with_availability is_not_ready
  after_replicas memory (ok _, w) = let mw = with_availability (memory, w) in (ok tt, mw.0, mw.1)
  after_replicas memory (err e, w) =
      let mw : Memory × World =
        if is_not_ready e then (memory, w) else with_availability (memory, w) in
      (err e, mw.0, mw.1)

  pub update_status : Memory × World → Result Error Unit × Memory × World
  unfolding after_replicas
  update_status (memory, w) = after_replicas memory (compute_replicas u v w)

  -- The status of a control plane that is being deleted is left alone.
  with_status : Memory × World → Memory × World
  unfolding update_status
  with_status (memory, w) =
      let (_, memory', w') = update_status (memory, w) in
      let mw : Memory × World = if w.scope.kcp.deleting then (memory, w) else (memory', w') in mw

  -- An error goes back with a zero result.
  as_result : Result Error CtrlResult → World → Result Error CtrlResult
  as_result (err e) w = err e
  as_result (ok r) w = ok (requeue_result u cause_text since_text none r w.scope)

  after_cluster_patch : Result Error CtrlResult → World → Option ApiError → Result Error CtrlResult
  unfolding as_result
  after_cluster_patch r w none = as_result r w
  after_cluster_patch r w (some a) =
      as_result (err (wrap ("failed to patch cluster" ∷ []) (api a))) w

  module _ (patch_kcp patch_cluster : World → Option ApiError) where
    -- By the answer to the patch of the control plane, whose error takes the place of the others.
    after_kcp_patch : Result Error CtrlResult → World → Option ApiError → Result Error CtrlResult
    unfolding after_cluster_patch
    after_kcp_patch r w (some a) = err (api a)
    after_kcp_patch r w none =
        if unwrap_or w.scope.kcp.status.initialized false
        then after_cluster_patch r w (patch_cluster w)
        else as_result r w

    patched : Result Error CtrlResult → Memory × World → Result Error CtrlResult × Memory × World
    unfolding after_kcp_patch
    patched r mw = (after_kcp_patch r mw.1 (patch_kcp mw.1), mw.0, mw.1)

    -- Whatever was returned before. An error of the status is only logged.
    pub report : Result Error CtrlResult → Memory × World → Result Error CtrlResult × Memory × World
    unfolding patched with_status
    report r mw = patched r (with_status mw)
