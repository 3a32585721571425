-- ===== src/ControlPlane/Availability/Requeue.antt =====
-- The controller keeps looking, and what a read leaves.
use k0smotron.Prelude.{
  ℕ, String, Bool, true, false, Option, none, some, ◌≡◌, ◌≢◌, ◌↔◌, ◌⊎◌, refl, arith, inl, inr,
  Bool-cases, sym, ◌∙◌, ◌&&◌, not,
}
use k0smotron.Kube.{Upstream, RuntimeLaws, CtrlResult, zero_result, Kcp}
use k0smotron.ControlPlane.Scope.{Scope}
use k0smotron.ControlPlane.Availability.{
  Memory, HealthState, ReadOutcome, no_client, no_answer, answered, requeue_result,
  availability_requeue_after, compute_availability, after_read, unavailable, reached,
  set_unavailable_after_grace_period, set_kcp_condition, assume_unknown,
  cluster_cache_connection_down,
}

module _ (u : Upstream) (cause_text : String → String) (since_text : ℕ → String) where
  -- For a control plane that is not being deleted, and without an error, the result asks to be run
  -- again.
  pub requeue_alive :
      (laws : RuntimeLaws u) (res : CtrlResult) (s : Scope)
      → s.kcp.deleting ≡ false
      → requeue_result u cause_text since_text none res s ≢ zero_result
  unfolding requeue_result availability_requeue_after
  requeue_alive laws res s h = elim (Bool-cases (u.is_zero res)) [
    | inl e ↦ rw e (ground arith)
    | inr e ↦ rw e (λ z. ground (arith, (laws.is_zero_iff res).1 z))
  ]

  abbrev latch : Memory × Scope → Option Bool
  latch ms = ms.1.kcp.status.initialized

  failed-latch :
      (ever : Bool) (state : Option HealthState) (now : ℕ) (r : ReadOutcome) (ms : Memory × Scope)
      → ((uid : String) → r ≢ answered uid)
      → latch (after_read u cause_text since_text ever state now r ms) ≡ latch ms
  unfolding after_read unavailable set_unavailable_after_grace_period set_kcp_condition
  failed-latch ever state now (answered uid) ms h = absurd (h uid refl)
  failed-latch false state now (no_answer cause) ms h = refl
  failed-latch false state now (no_client c cause) ms h = refl
  failed-latch true state now (no_answer cause) ms h = refl
  failed-latch true state now (no_client c cause) ms h =
      elim (Bool-cases (c && not (cluster_cache_connection_down state now))) [
        | inl e ↦ rw e refl
        | inr e ↦ rw e refl
      ]

  assume_unknown-initialized :
      (ever : Bool) (kcp : Kcp)
      → (assume_unknown u cause_text since_text ever kcp).status.initialized
        ≡ kcp.status.initialized
  unfolding assume_unknown set_kcp_condition
  assume_unknown-initialized true kcp = refl
  assume_unknown-initialized false kcp = refl

  compute-latch :
      (state : Option HealthState) (now : ℕ) (r : ReadOutcome) (ms : Memory × Scope)
      → ((uid : String) → r ≢ answered uid)
      → latch (compute_availability u cause_text since_text state now r ms) ≡ latch ms
  unfolding compute_availability
  compute-latch state now r ms h =
      failed-latch _ state now r _ h ∙ assume_unknown-initialized _ ms.1.kcp

  from_latch :
      (state : Option HealthState) (now : ℕ) (r : ReadOutcome) (ms : Memory × Scope)
      → ((uid : String) → r ≢ answered uid)
      → (latch (compute_availability u cause_text since_text state now r ms) ≡ some true)
        ↔ ((latch ms ≡ some true) ⊎ ((uid : String) × (r ≡ answered uid)))
  from_latch state now r ms h =
      let same = compute-latch state now r ms h in
      (
        (λ e. inl (sym same ∙ e)),
        (λ e. elim e [ inl e ↦ same ∙ e | inr (uid, e) ↦ absurd (h uid e) ]),
      )

  -- Once the control plane was reached it stays so, and it is reached by an answer only.
  pub initialized_iff :
      (state : Option HealthState) (now : ℕ) (r : ReadOutcome) (ms : Memory × Scope)
      → ((compute_availability u cause_text since_text state now r ms).1.kcp.status.initialized
          ≡ some true)
        ↔ ((ms.1.kcp.status.initialized ≡ some true) ⊎ ((uid : String) × (r ≡ answered uid)))
  unfolding compute_availability after_read reached
  initialized_iff state now (answered uid) ms = ((λ h. inr (uid, refl)), (λ h. refl))
  initialized_iff state now (no_answer cause) ms =
      from_latch state now (no_answer cause) ms (λ uid e. cc)
  initialized_iff state now (no_client connected cause) ms =
      from_latch state now (no_client connected cause) ms (λ uid e. cc)
