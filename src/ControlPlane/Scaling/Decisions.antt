-- ===== src/ControlPlane/Scaling/Decisions.antt =====
-- What the scaling decisions of scale.go guarantee, one at a time.
use k0smotron.Prelude.{◌+◌, ◌-◌, ◌≤◌, ◌<◌, ◌≡◌, ◌⊎◌, true, false, length, arith}
use k0smotron.Kube.{update_recreate_delete_first}
use k0smotron.ControlPlane.Scope.{Scope}
use k0smotron.ControlPlane.Scaling.{
  is_needed_scale_up, is_needed_scale_down, is_desired_state_reached,
}

-- The active machines are split into those that are up to date and those that are not.
abbrev pub IsPartitioned : Scope → Type 0
IsPartitioned s =
    length s.active_machines ≡ length s.up_to_date_machines + length s.not_up_to_date_machines

-- If a scale up is needed, one more machine does not take the fleet past one over the replicas, and
-- with the RecreateDeleteFirst strategy and at least three replicas not past the replicas; there is
-- also an up to date machine missing.
pub scale_up_bounded :
    (s : Scope)
    → is_needed_scale_up s ≡ true
    → (length s.active_machines + length s.deleted_machines + 1 ≤ s.kcp.spec.replicas + 1)
      × (s.kcp.spec.update_strategy ≡ update_recreate_delete_first
          → 3 ≤ s.kcp.spec.replicas
          → length s.active_machines + length s.deleted_machines + 1 ≤ s.kcp.spec.replicas)
      × (length s.up_to_date_machines < s.kcp.spec.replicas)
unfolding is_needed_scale_up
scale_up_bounded s h = ground arith

-- A scale down that is needed leaves at least one active machine, and there is a machine to take: one that is
-- not up to date, or else one more than the replicas.
pub scale_down_bounded :
    (s : Scope)
    → is_needed_scale_down s ≡ true
    → (1 ≤ length s.active_machines - 1)
      × ((0 < length s.not_up_to_date_machines) ⊎ (s.kcp.spec.replicas < length s.active_machines))
unfolding is_needed_scale_down
scale_down_bounded s h = ground arith

-- If the active machines are split into up to date ones and others, at least one replica is asked
-- for and no machine is being deleted, a fleet that is not as desired is scaled up or down: the
-- controller never waits for nothing.
pub scaling_progress :
    (s : Scope)
    → IsPartitioned s
    → 1 ≤ s.kcp.spec.replicas
    → length s.deleted_machines ≡ 0
    → is_desired_state_reached s ≡ false
    → (is_needed_scale_up s ≡ true) ⊎ (is_needed_scale_down s ≡ true)
unfolding is_desired_state_reached is_needed_scale_up is_needed_scale_down
scaling_progress s p r d h = ground arith

-- If the active machines are split into up to date ones and others, neither a scale up nor a scale
-- down is asked for in the desired state.
pub desired_is_stable :
    (s : Scope)
    → IsPartitioned s
    → is_desired_state_reached s ≡ true
    → (is_needed_scale_up s ≡ false) × (is_needed_scale_down s ≡ false)
unfolding is_desired_state_reached is_needed_scale_up is_needed_scale_down
desired_is_stable s p h = ground arith
