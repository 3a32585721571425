-- ===== src/ControlPlane/Availability.antt =====
-- Whether the workload cluster can be read: availabilityCondition, setUnavailableAfterGracePeriod,
-- computeAvailability, clusterCacheConnectionDown and requeueResult in
-- internal/controller/controlplane/status.go. The clock is an argument; the memory is the sync.Map
-- of the controller.
pub mod Outage
pub mod Deleting
pub mod Requeue
use Prim.Native.String.{◌++◌}
use k0smotron.Prelude.{
  ℕ, ◌+◌, ◌-◌, ◌*◌, String, List, Bool, true, false, ◌&&◌, not, ◌==◌, Option, none, some, StringMap,
  insert, update, ltb, leb, if◌then◌else◌,
}
use k0smotron.Kube.{
  Upstream, Condition, ConditionStatus, condition_true, condition_false, condition_unknown, Kcp,
  CtrlResult, second, minute, zero_result, Error,
}
use k0smotron.ControlPlane.Scope.{Scope}

-- availabilityFailures
pub record AvailabilityFailures : Type 0 where
  pub since : ℕ
  pub seen : ℕ

-- The failures so far, by the UID of the control plane.
abbrev pub Memory : Type 0
Memory = String → Option AvailabilityFailures

abbrev pub availability_failure_threshold : ℕ
availability_failure_threshold = 2

abbrev pub availability_grace_period : ℕ
availability_grace_period = 2 * minute

abbrev pub availability_retry_interval : ℕ
availability_retry_interval = 20 * second

abbrev pub availability_poll_interval : ℕ
availability_poll_interval = minute

abbrev pub available : String
available = "Available"

abbrev pub connection_down : String
connection_down = "ConnectionDown"

-- existing != nil && existing.Status == metav1.ConditionFalse
abbrev pub is_down : Option Condition → Bool
is_down none = false
is_down (some c) = elim c.status [
  | condition_false ↦ true
  | condition_true ↦ false
  | condition_unknown ↦ false
]

abbrev is_unknown : ConditionStatus → Bool
is_unknown condition_unknown = true
is_unknown condition_false = false
is_unknown condition_true = false

abbrev message_of : Option Condition → String
message_of none = ""
message_of (some c) = c.message

-- GetHealthCheckingState of the cluster cache; `none` is the zero time.
pub record HealthState : Type 0 where
  pub consecutive_failures : ℕ
  pub last_probe_success : Option ℕ

stale : Option ℕ → ℕ → Bool
stale none now = false
stale (some t) now = ltb (75 * second) (now - t)

-- The first argument is `none` where there is no cluster cache.
pub cluster_cache_connection_down : Option HealthState → ℕ → Bool
unfolding stale
cluster_cache_connection_down none now = true
cluster_cache_connection_down (some state) now =
    if leb 5 state.consecutive_failures then true else stale state.last_probe_success now

-- How a read of the workload cluster went: no client, with whether the error is
-- ErrClusterCacheNotConnected; no answer to the read of kube-system; or its UID.
pub data ReadOutcome : Type 0 where
  no_client : Bool → String → ReadOutcome
  no_answer : String → ReadOutcome
  answered : String → ReadOutcome

-- `cause_text` and `since_text` are the messages that fmt and time write.
module _ (u : Upstream) (cause_text : String → String) (since_text : ℕ → String) where
  down_condition : String → Condition
  down_condition message = record {
    kind = available;
    status = condition_false;
    reason = "NotAvailable";
    message = message;
    last_transition = 0;
  }

  pub availability_condition : Option Condition → ℕ → ℕ → ℕ → ℕ → String → Condition
  unfolding down_condition
  availability_condition existing now failing_since grace_period failures cause =
      if is_down existing
      then down_condition (message_of existing)
      else if leb availability_failure_threshold failures && leb (failing_since + grace_period) now
      then down_condition (cause_text cause)
      else record {
        kind = available;
        status = condition_unknown;
        reason = connection_down;
        message = since_text failing_since;
        last_transition = 0;
      }

  -- The first failure that this process sees: a persisted window goes on, if it is younger than the
  -- object.
  first_failure : Option Condition → ℕ → ℕ → AvailabilityFailures
  first_failure none created now = record { since = now; seen = 1 }
  first_failure (some c) created now =
      if is_unknown c.status && (c.reason == connection_down && ltb created c.last_transition)
      then record { since = c.last_transition; seen = 1 }
      else record { since = now; seen = 1 }

  next_failures : Option AvailabilityFailures → Option Condition → ℕ → ℕ → AvailabilityFailures
  unfolding first_failure
  next_failures (some f) existing created now = record { since = f.since; seen = f.seen + 1 }
  next_failures none existing created now = first_failure existing created now

  set_kcp_condition : Condition → Kcp → Kcp
  set_kcp_condition c kcp =
      let status = kcp.status in
      record kcp { status = record status { conditions = u.set_condition status.conditions c } }

  pub set_unavailable_after_grace_period : ℕ → String → Memory × Kcp → Memory × Kcp
  unfolding next_failures set_kcp_condition
  set_unavailable_after_grace_period now cause (memory, kcp) =
      let existing = u.get_condition kcp.status.conditions available in
      let state = next_failures (memory kcp.uid) existing kcp.created now in
      (
        update memory kcp.uid (some state),
        set_kcp_condition
            (availability_condition existing now state.since availability_grace_period state.seen
              cause)
            kcp,
      )

  abbrev is_initialized : Kcp → Bool
  is_initialized kcp = elim kcp.status.initialized [ some b ↦ b | none ↦ false ]

  not_reached_condition : Condition
  not_reached_condition = record {
    kind = available;
    status = condition_unknown;
    reason = "AvailableUnknown";
    message = "the workload cluster API has not been reached yet";
    last_transition = 0;
  }

  assume_unknown : Bool → Kcp → Kcp
  unfolding not_reached_condition set_kcp_condition
  assume_unknown true kcp = kcp
  assume_unknown false kcp = set_kcp_condition not_reached_condition kcp

  unavailable : ℕ → String → Memory × Scope → Memory × Scope
  unfolding set_unavailable_after_grace_period
  unavailable now cause (memory, s) =
      let (memory', kcp') = set_unavailable_after_grace_period now cause (memory, s.kcp) in
      (memory', record s { kcp = kcp' })

  -- The latch and the annotation with the identity of the cluster.
  reached : String → Memory × Scope → Memory × Scope
  unfolding set_kcp_condition
  reached uid (memory, s) =
      let kcp =
        set_kcp_condition
          (record {
            kind = available;
            status = condition_true;
            reason = "Available";
            message = "";
            last_transition = 0;
          })
          s.kcp in
      let status = kcp.status in
      let cluster = s.cluster in
      (
        update memory kcp.uid none,
        record s {
          kcp = record kcp { status = record status { initialized = some true } };
          cluster = record cluster {
            annotations =
                insert "k0sproject.io/cluster-id" ("kube-system:" ++ uid) cluster.annotations;
          };
        },
      )

  -- By whether the control plane was ever reached, and how the read went.
  after_read : Bool → Option HealthState → ℕ → ReadOutcome → Memory × Scope → Memory × Scope
  unfolding unavailable reached cluster_cache_connection_down
  after_read ever state now (answered uid) ms = reached uid ms
  after_read false state now _ ms = ms
  after_read true state now (no_answer cause) ms = unavailable now cause ms
  after_read true state now (no_client not_connected cause) ms =
      if not_connected && not (cluster_cache_connection_down state now)
      then (ms.0, let s = ms.1 in record s { availability_undecided = true })
      else unavailable now cause ms

  pub compute_availability : Option HealthState → ℕ → ReadOutcome → Memory × Scope → Memory × Scope
  unfolding after_read assume_unknown
  compute_availability state now r (memory, s) =
      let ever = is_initialized s.kcp in
      after_read ever state now r (memory, record s { kcp = assume_unknown ever s.kcp })

  pub availability_requeue_after : Scope → ℕ
  availability_requeue_after s =
      if s.kcp.deleting
      then 0
      else if s.availability_undecided
      then availability_retry_interval
      else if not (u.is_true s.kcp.status.conditions available)
      then availability_retry_interval
      else availability_poll_interval

  pub requeue_result : Option Error → CtrlResult → Scope → CtrlResult
  unfolding availability_requeue_after
  requeue_result (some e) res s = zero_result
  requeue_result none res s =
      if not (u.is_zero res)
      then res
      else record { requeue = false; requeue_after = availability_requeue_after s }
