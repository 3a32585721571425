-- ===== src/RemoteMachine/Report.antt =====
-- The status of a RemoteMachine: updateStatus in
-- internal/controller/infrastructure/remote_machine_controller.go, and SetFailures.
use k0smotron.Prelude.{
  String, [], ◌∷◌, true, ◌&&◌, ◌==◌, Option, none, some, ◌≡◌, refl, ◌∙◌, arith, if◌then◌else◌,
}
use k0smotron.Kube.{Upstream, Error, Result, ok, err, Condition, condition_unknown}
use k0smotron.RemoteMachine.{RemoteMachine, RemoteMachineStatus, Failure}

abbrev pub bootstrap_exec_succeeded : String
bootstrap_exec_succeeded = "BootstrapExecSucceeded"

abbrev pub internal_error_reason : String
internal_error_reason = "InternalError"

pub set_failures : String → String → RemoteMachineStatus → RemoteMachineStatus
set_failures reason message s =
    if reason == "" && message == ""
    then s
    else record s { deprecated = some (record { reason = reason; message = message }) }

-- In place of a summary that cannot be computed.
summary_or_unknown : Result Error Condition → Condition
summary_or_unknown (ok c) = c
summary_or_unknown (err e) = record {
  kind = "Ready";
  status = condition_unknown;
  reason = internal_error_reason;
  message = "Check controller logs for errors";
  last_transition = 0;
}

module _ (u : Upstream) where
  with_failure : Option Error → RemoteMachineStatus → RemoteMachineStatus
  unfolding set_failures
  with_failure none s = s
  with_failure (some e) s = set_failures "ProvisionFailed" (u.error_text e) s

  with_addresses : String → RemoteMachineStatus → RemoteMachineStatus
  with_addresses address s =
      if u.is_true s.conditions bootstrap_exec_succeeded
      then record s {
        provisioned = some true;
        addresses = record { kind = "ExternalIP"; address = address } ∷ [];
      }
      else s

  -- `summary` is conditions.NewSummaryCondition over the condition above.
  pub update_status :
      (RemoteMachineStatus → Result Error Condition) → Option Error → RemoteMachine → RemoteMachine
  unfolding with_failure with_addresses summary_or_unknown
  update_status summary e rm =
      let before = rm.status in
      let reset = record before { deprecated = none } in
      let s = with_addresses rm.spec.machine.address (with_failure e reset) in
      record rm {
        status = record s {
          conditions = u.set_condition s.conditions (summary_or_unknown (summary s));
        };
      }

  -- What the status tells of an error.
  abbrev pub failure_of : Option Error → Option Failure
  failure_of none = none
  failure_of (some e) = some (record { reason = "ProvisionFailed"; message = u.error_text e })

  with_addresses-deprecated :
      (address : String) (s : RemoteMachineStatus)
      → (with_addresses address s).deprecated ≡ s.deprecated
  unfolding with_addresses
  with_addresses-deprecated address s = ground arith

  with_failure-deprecated :
      (e : Option Error) (s : RemoteMachineStatus)
      → s.deprecated ≡ none
      → (with_failure e s).deprecated ≡ failure_of e
  unfolding with_failure set_failures
  with_failure-deprecated none s h = h
  with_failure-deprecated (some e) s h = refl

  -- The failure in the status is that of the error.
  pub update_status-failure :
      (summary : RemoteMachineStatus → Result Error Condition) (e : Option Error)
      (rm : RemoteMachine)
      → (update_status summary e rm).status.deprecated ≡ failure_of e
  unfolding update_status
  update_status-failure summary e rm =
      let before = rm.status in
      let reset = record before { deprecated = none } in
      with_addresses-deprecated rm.spec.machine.address (with_failure e reset)
      ∙ with_failure-deprecated e reset refl
