-- ===== src/Examples/Worlds/Conditions.antt =====
-- The availability of a control plane, and what the webhook says of it.
use k0smotron.Prelude.{length, ◌+◌, ℕ, ◌*◌, String, List, [], ◌∷◌, none, ◌≡◌, ◌≢◌, ◌↔◌, refl, any}
use k0smotron.Kube.{ok, zero_result, Error, plain, Kcp, minute, update_recreate}
use k0smotron.Bootstrap.Validation.{FieldError}
use k0smotron.ControlPlane.Admission.{validate_update}
use k0smotron.ControlPlane.Admission.Accepted.{IsSmallStep, IsAdmissible, validate_update_iff}
use k0smotron.ControlPlane.Availability.{Memory, no_answer}
use k0smotron.ControlPlane.Availability.Outage.{
  after_failures, is_reported_down, is_late, outage_window,
}
use k0smotron.ControlPlane.Report.{Reading, report}
use k0smotron.ControlPlane.Report.Alive.{report_alive}
use k0smotron.ControlPlane.Status.{compute_replicas}
use k0smotron.ControlPlane.Status.Counts.{HasCounts, compute_replicas-HasCounts}
use k0smotron.Examples.Libraries.{upstream, condition_laws, runtime_laws}
use k0smotron.Examples.Specs.{versions}
use k0smotron.Examples.Worlds.{rolling, world_of, settled, control_plane_of, available_condition}

abbrev no_failures : Memory
no_failures uid = none

abbrev cause : String → String
cause s = s

abbrev since : ℕ → String
since t = ""

abbrev kcp : Kcp
kcp = control_plane_of 3 update_recreate

abbrev combined : List FieldError → Error
combined es = plain []

abbrev failures : List (ℕ × String)
failures = (minute, "timeout") ∷ (5 * minute, "timeout") ∷ []

outage_window_example :
    is_reported_down upstream cause since
      (after_failures upstream cause since ((0, "timeout") ∷ failures) (no_failures, kcp)).1
    ≡ any (is_late upstream cause since condition_laws 0) failures
outage_window_example =
    outage_window upstream cause since condition_laws (no_failures, kcp) (0, "timeout") failures
      (refl, (available_condition, refl, refl))

-- The read of the workload cluster fails.
abbrev reading : Reading
reading = record { health = none; now = 100; outcome = no_answer "timeout" }

report_alive_example :
    (report upstream versions cause since reading
      (λ w. none)
      (λ w. none)
      (ok zero_result)
      (no_failures, world_of settled)).0
    ≢ ok zero_result
report_alive_example =
    report_alive upstream versions cause since reading runtime_laws (λ w. none) (λ w. none)
      (ok zero_result) no_failures (world_of settled) refl

validate_update_iff_example : ((validate_update versions combined kcp kcp).1 ≡ none) ↔ (
    IsSmallStep versions combined kcp.spec.version kcp.spec.version
    × IsAdmissible versions combined kcp)
validate_update_iff_example = validate_update_iff versions combined kcp kcp

compute_replicas-HasCounts_example :
    HasCounts
      (length rolling.active_machines + length rolling.deleted_machines)
      (compute_replicas upstream versions (world_of rolling)).1
compute_replicas-HasCounts_example = compute_replicas-HasCounts upstream versions (world_of rolling)
