-- ===== src/ControlPlane/Scaling.antt =====
-- The scaling decisions of internal/controller/controlplane/scale.go. Go's `Len() - 1` may be
-- -1 where the subtraction here stops at 0; both are below 1.
pub mod Decisions
pub mod Rollout
use k0smotron.Prelude.{
  ℕ, ◌+◌, ◌-◌, Bool, true, false, ◌&&◌, not, length, ltb, leb, nat_eq, if◌then◌else◌,
}
use k0smotron.Kube.{UpdateStrategy, update_in_place, update_recreate, update_recreate_delete_first}
use k0smotron.ControlPlane.Scope.{Scope}

abbrev is_delete_first : UpdateStrategy → Bool
is_delete_first update_recreate_delete_first = true
is_delete_first update_in_place = false
is_delete_first update_recreate = false

unfoldable pub calculate_max_surge : Scope → ℕ
calculate_max_surge s =
    if is_delete_first s.kcp.spec.update_strategy && leb 3 s.kcp.spec.replicas
    then s.kcp.spec.replicas
    else s.kcp.spec.replicas + 1

unfoldable pub is_needed_scale_up : Scope → Bool
unfolding calculate_max_surge
is_needed_scale_up s =
    if ltb (calculate_max_surge s) (length s.active_machines + length s.deleted_machines + 1)
    then false
    else ltb (length s.up_to_date_machines) s.kcp.spec.replicas

unfoldable pub is_needed_scale_down : Scope → Bool
is_needed_scale_down s =
    if ltb (length s.active_machines - 1) 1
    then false
    else if ltb s.kcp.spec.replicas (length s.active_machines)
    then true
    else ltb 0 (length s.not_up_to_date_machines)

unfoldable pub is_desired_state_reached : Scope → Bool
is_desired_state_reached s =
    if not (nat_eq (length s.up_to_date_machines) s.kcp.spec.replicas)
    then false
    else if ltb 0 (length s.not_up_to_date_machines)
    then false
    else nat_eq (length s.deleted_machines) 0
