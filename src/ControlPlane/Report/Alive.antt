-- ===== src/ControlPlane/Report/Alive.antt =====
-- The controller keeps looking at a control plane.
use k0smotron.Prelude.{
  [], ◌∷◌, ℕ, String, Bool, true, false, Option, none, some, ◌≡◌, ◌≢◌, refl, ◌∙◌, Bool-cases, inl,
  inr, unwrap_or, if◌then◌else◌,
}
use k0smotron.Kube.{
  Upstream, RuntimeLaws, VersionLib, ApiError, Error, api, wrap, Result, ok, err, CtrlResult,
  zero_result,
}
use k0smotron.ControlPlane.Scope.{World}
use k0smotron.ControlPlane.Status.{compute_replicas}
use k0smotron.ControlPlane.Status.Deleting.{compute_replicas-deleting}
use k0smotron.ControlPlane.Availability.{Memory}
use k0smotron.ControlPlane.Availability.Deleting.{compute_availability-deleting}
use k0smotron.ControlPlane.Availability.Requeue.{requeue_alive}
use k0smotron.ControlPlane.Report.{
  Reading, is_not_ready, with_availability, after_replicas, update_status, as_result,
  after_cluster_patch, after_kcp_patch, patched, with_status, report,
}

abbrev is_deleting : World → Bool
is_deleting w = w.scope.kcp.deleting

module _ (u : Upstream) (v : VersionLib) (cause_text : String → String) (since_text : ℕ → String)
    (reading : Reading) where
  with_availability-deleting :
      (mw : Memory × World)
      → is_deleting (with_availability u v cause_text since_text reading mw).1 ≡ is_deleting mw.1
  unfolding with_availability
  with_availability-deleting mw =
      compute_availability-deleting u cause_text since_text reading.health reading.now
        reading.outcome (mw.0, mw.1.scope)

  after_replicas-deleting :
      (memory : Memory) (p : Result Error Unit × World)
      → is_deleting (after_replicas u v cause_text since_text reading memory p).2 ≡ is_deleting p.1
  unfolding after_replicas
  after_replicas-deleting memory (ok a, w) = with_availability-deleting (memory, w)
  after_replicas-deleting memory (err e, w) = elim (Bool-cases (is_not_ready e)) [
    | inl h ↦ rw h refl
    | inr h ↦ rw h (with_availability-deleting (memory, w))
  ]

  update_status-deleting :
      (mw : Memory × World)
      → is_deleting (update_status u v cause_text since_text reading mw).2 ≡ is_deleting mw.1
  unfolding update_status
  update_status-deleting mw =
      after_replicas-deleting mw.0 (compute_replicas u v mw.1) ∙ compute_replicas-deleting u v mw.1

  with_status-deleting :
      (mw : Memory × World)
      → is_deleting (with_status u v cause_text since_text reading mw).1 ≡ is_deleting mw.1
  unfolding with_status
  with_status-deleting (memory, w) = unless_deleting w.scope.kcp.deleting
    where
      unless_deleting :
          (b : Bool)
          → let (_, memory', w') = update_status u v cause_text since_text reading (memory, w) in
            let mw : Memory × World = if b then (memory, w) else (memory', w') in
            is_deleting mw.1 ≡ is_deleting w
      unless_deleting true = refl
      unless_deleting false = update_status-deleting (memory, w)

  module _ (laws : RuntimeLaws u) where
    as_result-alive :
        (r : Result Error CtrlResult) (w : World)
        → is_deleting w ≡ false
        → as_result u v cause_text since_text reading r w ≢ ok zero_result
    unfolding as_result
    as_result-alive (err e) w h = λ z. cc
    as_result-alive (ok r) w h = λ z. requeue_alive u cause_text since_text laws r w.scope h cc

    after_cluster_patch-alive :
        (r : Result Error CtrlResult) (w : World) (a : Option ApiError)
        → is_deleting w ≡ false
        → after_cluster_patch u v cause_text since_text reading r w a ≢ ok zero_result
    unfolding after_cluster_patch
    after_cluster_patch-alive r w none h = as_result-alive r w h
    after_cluster_patch-alive r w (some a) h =
        as_result-alive (err (wrap ("failed to patch cluster" ∷ []) (api a))) w h

    module _ (patch_kcp patch_cluster : World → Option ApiError) where
      after_kcp_patch-alive :
          (r : Result Error CtrlResult) (w : World) (a : Option ApiError)
          → is_deleting w ≡ false
          → after_kcp_patch u v cause_text since_text reading patch_kcp patch_cluster r w a
            ≢ ok zero_result
      unfolding after_kcp_patch
      after_kcp_patch-alive r w (some a) h = λ z. cc
      after_kcp_patch-alive r w none h =
          elim (Bool-cases (unwrap_or w.scope.kcp.status.initialized false)) [
            | inl e ↦ rw e (after_cluster_patch-alive r w (patch_cluster w) h)
            | inr e ↦ rw e (as_result-alive r w h)
          ]

      patched-alive :
          (r : Result Error CtrlResult) (mw : Memory × World)
          → is_deleting mw.1 ≡ false
          → (patched u v cause_text since_text reading patch_kcp patch_cluster r mw).0
            ≢ ok zero_result
      unfolding patched
      patched-alive r mw h = after_kcp_patch-alive r mw.1 (patch_kcp mw.1) h

      -- When a reconciliation comes as far as its deferred function, which it does once the state of
      -- the control plane is read: whatever it returns before, and however the status, the patches
      -- and the read of the workload cluster go, it ends in an error or in a result that asks to be
      -- run again, unless the control plane is being deleted.
      pub report_alive :
          (r : Result Error CtrlResult) (memory : Memory) (w : World)
          → w.scope.kcp.deleting ≡ false
          → (report u v cause_text since_text reading patch_kcp patch_cluster r (memory, w)).0
            ≢ ok zero_result
      unfolding report
      report_alive r memory w h =
          patched-alive r (with_status u v cause_text since_text reading (memory, w))
            (with_status-deleting (memory, w) ∙ h)
