-- ===== src/ControlPlane/Availability/Deleting.antt =====
-- The availability leaves the deletion timestamp alone.
use k0smotron.Prelude.{
  ℕ, String, Bool, true, false, not, ◌&&◌, Option, ◌≡◌, refl, ◌∙◌, Bool-cases, inl, inr,
}
use k0smotron.Kube.{Upstream, Kcp}
use k0smotron.ControlPlane.Scope.{Scope}
use k0smotron.ControlPlane.Availability.{
  Memory, HealthState, ReadOutcome, no_client, no_answer, answered, compute_availability,
  after_read, unavailable, reached, set_unavailable_after_grace_period, set_kcp_condition,
  assume_unknown, cluster_cache_connection_down,
}

module _ (u : Upstream) (cause_text : String → String) (since_text : ℕ → String) where
  after_read-deleting :
      (ever : Bool) (state : Option HealthState) (now : ℕ) (r : ReadOutcome) (ms : Memory × Scope)
      → (after_read u cause_text since_text ever state now r ms).1.kcp.deleting ≡ ms.1.kcp.deleting
  unfolding after_read unavailable set_unavailable_after_grace_period set_kcp_condition reached
  after_read-deleting ever state now (answered uid) ms = refl
  after_read-deleting false state now (no_answer cause) ms = refl
  after_read-deleting false state now (no_client c cause) ms = refl
  after_read-deleting true state now (no_answer cause) ms = refl
  after_read-deleting true state now (no_client c cause) ms =
      elim (Bool-cases (c && not (cluster_cache_connection_down state now))) [
        | inl e ↦ rw e refl
        | inr e ↦ rw e refl
      ]

  assume_unknown-deleting :
      (ever : Bool) (kcp : Kcp)
      → (assume_unknown u cause_text since_text ever kcp).deleting ≡ kcp.deleting
  unfolding assume_unknown set_kcp_condition
  assume_unknown-deleting true kcp = refl
  assume_unknown-deleting false kcp = refl

  pub compute_availability-deleting :
      (state : Option HealthState) (now : ℕ) (r : ReadOutcome) (ms : Memory × Scope)
      → (compute_availability u cause_text since_text state now r ms).1.kcp.deleting
        ≡ ms.1.kcp.deleting
  unfolding compute_availability
  compute_availability-deleting state now r ms =
      after_read-deleting _ state now r _ ∙ assume_unknown-deleting _ ms.1.kcp
