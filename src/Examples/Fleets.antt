-- ===== src/Examples/Fleets.antt =====
-- Decisions and a rollout of three machines, the first outdated.
use k0smotron.Prelude.{ℕ, ◌+◌, ◌≤◌, ◌≡◌, refl, arith}
use k0smotron.ControlPlane.Scaling.{is_needed_scale_up, is_needed_scale_down}
use k0smotron.ControlPlane.Scaling.Rollout.{
  Fleet, Steps, here, next, create, take_outdated, gone, cost, total, view, IsDesired,
  rollout_terminates, rollout_bounded, rollout_alive,
}
use k0smotron.ControlPlane.Scaling.Rollout.Completion.{rollout_completes}
use k0smotron.Examples.Worlds.{rolling}

abbrev counts : ℕ → ℕ → ℕ → Fleet
counts u o d = record { up_to_date = u; outdated = o; deleting = d }

-- One more machine, then the outdated one is deleted, then it is gone.
abbrev rollout : Steps rolling 3 (counts 2 1 0) (counts 3 0 0)
unfolding is_needed_scale_up is_needed_scale_down view
rollout = next (create (counts 2 1 0) refl) (
    next (take_outdated (counts 3 1 0) refl refl (omega arith))
      (next (gone (counts 3 0 1) (omega arith)) here))

rollout_terminates_example : cost rolling (counts 2 1 0) ≡ 3 + cost rolling (counts 3 0 0)
rollout_terminates_example = rollout_terminates rollout

rollout_bounded_example : total (counts 3 0 0) ≤ 4
rollout_bounded_example = rollout_bounded 4 (omega arith) (omega arith) rollout

rollout_alive_example : 1 ≤ 3 + 0
rollout_alive_example = rollout_alive (omega arith) rollout

rollout_completes_example :
    (m : ℕ) × (g : Fleet) × Steps rolling m (counts 2 1 0) g
    × IsDesired rolling g
    × (m ≤ cost rolling (counts 2 1 0))
rollout_completes_example = rollout_completes rolling (counts 2 1 0) (omega arith)
