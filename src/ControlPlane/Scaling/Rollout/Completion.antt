-- ===== src/ControlPlane/Scaling/Rollout/Completion.antt =====
-- Rollouts end in the desired state.
use k0smotron.Prelude.{
  ℕ, zero, suc, ◌+◌, ◌≤◌, ◌<◌, ◌≡◌, ◌⊎◌, inl, inr, true, false, ltb, ltb→lt, Bool-cases, arith,
}
use k0smotron.ControlPlane.Scope.{Scope}
use k0smotron.ControlPlane.Scaling.{
  is_needed_scale_up, is_needed_scale_down, is_desired_state_reached,
}
use k0smotron.ControlPlane.Scaling.Rollout.{
  Fleet, length-names, view, Step, create, take_outdated, take_excess, gone, Steps, here, next,
  cost, IsDesired, Step-cost, rollout_terminates,
}

waiting :
    (s : Scope) (f : Fleet)
    → 1 ≤ s.kcp.spec.replicas
    → f.deleting ≡ 0
    → is_desired_state_reached (view s f) ≡ false
    → is_needed_scale_up (view s f) ≡ false
    → is_needed_scale_down (view s f) ≡ true
unfolding view is_needed_scale_up is_needed_scale_down is_desired_state_reached
waiting s f r d h u = ground (
  arith,
  length-names f.up_to_date,
  length-names f.outdated,
  length-names f.deleting,
  length-names (f.up_to_date + f.outdated),
)

Step-down :
    (s : Scope) (f : Fleet)
    → is_needed_scale_up (view s f) ≡ false
    → is_needed_scale_down (view s f) ≡ true
    → (g : Fleet) × Step s f g
Step-down s f u d = elim (Bool-cases (ltb 0 f.outdated)) [
  | inl o ↦ (_, take_outdated f u d (ltb→lt 0 f.outdated o))
  | inr o ↦ (_, take_excess f u d (ground arith))
]

-- A fleet that is not as desired can take a step, if at least one replica is asked for.
pub Step-or_IsDesired :
    (s : Scope) (f : Fleet) → 1 ≤ s.kcp.spec.replicas → IsDesired s f ⊎ ((g : Fleet) × Step s f g)
Step-or_IsDesired s f r = elim (Bool-cases (is_desired_state_reached (view s f))) [
  | inl d ↦ inl d
  | inr d ↦ elim (Bool-cases (ltb 0 f.deleting)) [
    | inl b ↦ inr (_, gone f (ltb→lt 0 f.deleting b))
    | inr b ↦ elim (Bool-cases (is_needed_scale_up (view s f))) [
      | inl u ↦ inr (_, create f u)
      | inr u ↦ inr (Step-down s f u (waiting s f r (ground arith) d u))
    ]
  ]
]

completes_within :
    (n : ℕ) (s : Scope) (f : Fleet)
    → 1 ≤ s.kcp.spec.replicas
    → cost s f < n
    → (m : ℕ) × (g : Fleet) × Steps s m f g × IsDesired s g
completes_within zero s f r c = elim c [ ]
completes_within (suc n) s f r c = elim (Step-or_IsDesired s f r) [
  | inl d ↦ (0, f, here, d)
  | inr (g, st) ↦
      let (m, h, rest, d) = completes_within n s g r (omega (arith, Step-cost st)) in
      (suc m, h, next st rest, d)
]

-- From any numbers of machines there is a rollout to the desired state, if at least one replica is
-- asked for, and it has at most as many steps as there is to do.
pub rollout_completes :
    (s : Scope) (f : Fleet)
    → 1 ≤ s.kcp.spec.replicas
    → (m : ℕ) × (g : Fleet) × Steps s m f g × IsDesired s g × (m ≤ cost s f)
rollout_completes s f r =
    let (m, g, steps, d) = completes_within (suc (cost s f)) s f r (omega arith) in
    (m, g, steps, d, omega (arith, rollout_terminates steps))
