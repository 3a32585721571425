-- ===== src/RemoteMachine/Reconcile.antt =====
-- One reconciliation of a RemoteMachine: Reconcile in
-- internal/controller/infrastructure/remote_machine_controller.go. What is read and run on the way
-- is a parameter: each is used once. The goroutine that cancels the provisioning of a machine that
-- is deleted only changes what the provisioning answers.
pub mod Finalizer
use Prim.Native.String.{◌++◌ as push_str}
use k0smotron.Prelude.{
  String, [], ◌∷◌, Bool, true, false, not, ◌&&◌, ◌||◌, ◌==◌, Option, none, some, is_some, has_key,
  StringMap, lookup, insert, List, if◌then◌else◌, unwrap_or,
}
use k0smotron.Kube.{
  Upstream, ApiError, not_found, refused, Error, api, wrap, Result, ok, err, error_of, Condition,
  ConditionStatus, condition_true, condition_false, CtrlResult, zero_result,
}
use k0smotron.RemoteMachine.{RemoteMachine, RemoteMachineStatus, PooledRemoteMachine}
use k0smotron.RemoteMachine.Pool.{PoolApi, reserve, return_machine_to_pool}
use k0smotron.RemoteMachine.Inputs.{
  RemoteMachineMode, mode_controller, mode_worker, mode_non_k0s, OwnerMachine, ClusterState, Inputs,
  State,
}
use k0smotron.RemoteMachine.Report.{
  bootstrap_exec_succeeded, internal_error_reason, set_failures, update_status,
}

abbrev pub Step : Type 0
Step = Result Error CtrlResult × State

-- ctrl.Result{Requeue: true}
abbrev pub requeue : CtrlResult
requeue = record { requeue = true; requeue_after = 0 }

pub mode_of : String → RemoteMachineMode
mode_of kind =
    if kind == "K0sWorkerConfig"
    then mode_worker
    else if kind == "K0sControllerConfig"
    then mode_controller
    else mode_non_k0s

-- Entries of the second map whose keys the first does not have.
add_missing : StringMap → StringMap → StringMap
add_missing dst [] = dst
add_missing dst ((k, v) ∷ src) = add_missing (if has_key k dst then dst else insert k v dst) src

abbrev pub set_remote : RemoteMachine → State → State
set_remote rm s = record s { remote = rm }

module _ (u : Upstream) (i : Inputs) where
  set_exec_condition : ConditionStatus → String → String → RemoteMachine → RemoteMachine
  set_exec_condition status reason message rm =
      let before = rm.status in
      record rm {
        status = record before {
          conditions = u.set_condition before.conditions (record {
            kind = bootstrap_exec_succeeded;
            status = status;
            reason = reason;
            message = message;
            last_transition = 0;
          });
        };
      }

  set_succeeded : RemoteMachine → RemoteMachine
  unfolding set_exec_condition
  set_succeeded rm = set_exec_condition condition_true bootstrap_exec_succeeded "" rm

  set_provider_id : RemoteMachine → RemoteMachine
  set_provider_id rm =
      let spec = rm.spec in
      record rm {
        spec = record spec {
          provider_id =
              push_str "remote-machine://"
                (push_str spec.machine.address (push_str ":" (i.decimal_port rm)));
        };
      }

  -- The Machine that is patched at the end.
  patched_owner : OwnerMachine → RemoteMachine → OwnerMachine
  unfolding add_missing
  patched_owner m rm = record m {
    labels = add_missing m.labels rm.labels;
    annotations = add_missing m.annotations rm.annotations;
  }

  after_provision : OwnerMachine → State → Option Error → Step
  unfolding set_exec_condition set_succeeded set_provider_id patched_owner
  after_provision m s (some e) = (
    err (wrap ("failed to provision RemoteMachine" ∷ []) e),
    set_remote
        (set_exec_condition condition_false internal_error_reason
          "Check the bootstrap logs for more details" s.remote)
        s,
  )
  after_provision m s none =
      let rm = set_provider_id (set_succeeded s.remote) in
      (
        elim (i.patch_machine_error (patched_owner m rm)) [
          | some a ↦ err (api a)
          | none ↦ ok zero_result
        ],
        set_remote rm s,
      )

  missing_fields : RemoteMachine → RemoteMachine
  missing_fields rm =
      let before = rm.status in
      record rm {
        status =
            set_failures "MissingFields"
              "If pool is empty, following fields are required: address, sshKeyRef" before;
      }

  -- For a RemoteMachine that is not being deleted.
  provision_if_needed : OwnerMachine → State → Step
  unfolding after_provision missing_fields
  provision_if_needed m s =
      let rm = s.remote in
      if unwrap_or rm.status.provisioned false
      then (ok zero_result, set_remote (set_succeeded rm) s)
      else if not (rm.spec.provider_id == "")
      then (ok zero_result, s)
      else if not rm.spec.has_provision_job
          && (rm.spec.machine.address == "" || rm.spec.machine.ssh_key_ref == "")
      then (ok requeue, set_remote (missing_fields rm) s)
      else after_provision m s (i.provision rm)

  -- After the machine was given back, or was not in a pool.
  finish_deletion : State → Result Error Unit × List PooledRemoteMachine → Step
  finish_deletion s (err e, pool) = (err e, record s { pool = pool })
  finish_deletion s (ok _, pool) = (ok zero_result, record s { pool = pool; finalizer = false })

  -- The cleanup runs whatever its own outcome is.
  delete_if_finalizer : OwnerMachine → State → Step
  unfolding finish_deletion
  delete_if_finalizer m s =
      let s' = record s { cleaned = some (mode_of m.config_kind) } in
      if not s.finalizer
      then (ok zero_result, s)
      else if not (s.remote.spec.pool == "")
      then finish_deletion s' (return_machine_to_pool i.pool_api s.remote s.pool)
      else finish_deletion s' (ok tt, s.pool)

  -- With the pooled machine's details.
  with_provisioner : OwnerMachine → State → Step
  unfolding delete_if_finalizer provision_if_needed
  with_provisioner m s =
      if not s.remote.spec.has_provision_job && is_some i.ssh_key_error
      then (ssh_error i.ssh_key_error, s)
      else if s.remote.deleting
      then delete_if_finalizer m s
      else provision_if_needed m s
    where
      ssh_error : Option ApiError → Result Error CtrlResult
      ssh_error none = ok requeue
      ssh_error (some a) = err (api a)

  after_reservation :
      OwnerMachine → State → Result Error RemoteMachine × List PooledRemoteMachine → Step
  unfolding with_provisioner
  after_reservation m s (err e, pool) = (err e, record s { pool = pool })
  after_reservation m s (ok rm, pool) = with_provisioner m (record s { pool = pool; remote = rm })

  with_pool : OwnerMachine → State → Step
  unfolding after_reservation
  with_pool m s =
      if not (s.remote.spec.pool == "") && not s.remote.deleting
      then after_reservation m s (reserve i.pool_api s.remote s.pool)
      else with_provisioner m s

  after_parsing : OwnerMachine → State → Option Error → Step
  unfolding with_pool
  after_parsing m s (some e) = (err (wrap ("failed to parse bootstrap data" ∷ []) e), s)
  after_parsing m s none = with_pool m s

  -- A secret that is gone does not matter to a Machine that is being deleted.
  with_data : OwnerMachine → State → Option ApiError → Step
  unfolding after_parsing
  with_data m s none = after_parsing m s i.parse_error
  with_data m s (some not_found) =
      if m.deleting then after_parsing m s i.parse_error else (err (api not_found), s)
  with_data m s (some (refused t)) = (err (api (refused t)), s)

  -- The deferred function.
  pub reported : (RemoteMachineStatus → Result Error Condition) → Step → Step
  reported summary (r, s) = (r, set_remote (update_status u summary (error_of r) s.remote) s)

  pub reconcile_ready : (RemoteMachineStatus → Result Error Condition) → OwnerMachine → State → Step
  unfolding reported with_data
  reconcile_ready summary m s = reported summary (with_data m s i.data_error)

  by_cluster :
      (RemoteMachineStatus → Result Error Condition)
      → OwnerMachine
      → State
      → Result Error (Option ClusterState)
      → Step
  by_cluster summary m s (err e) = (err e, s)
  by_cluster summary m s (ok none) = (ok requeue, s)
  by_cluster summary m s (ok (some c)) =
      if c.paused
      then (ok zero_result, s)
      else if not c.infrastructure_ready
      then (ok requeue, s)
      else if not m.has_data_secret
      then (ok requeue, s)
      else reconcile_ready summary m s

  by_owner :
      (RemoteMachineStatus → Result Error Condition)
      → State
      → Result Error (Option OwnerMachine)
      → Step
  unfolding by_cluster
  by_owner summary s (err e) = (err e, s)
  by_owner summary s (ok none) = (ok requeue, s)
  by_owner summary s (ok (some m)) = by_cluster summary m s i.cluster

  by_finalizer : (RemoteMachineStatus → Result Error Condition) → State → Result Error Bool → Step
  unfolding by_owner
  by_finalizer summary s (err e) = (err e, s)
  by_finalizer summary s (ok true) = (ok zero_result, record s { finalizer = true })
  by_finalizer summary s (ok false) = by_owner summary s i.owner

  by_get : (RemoteMachineStatus → Result Error Condition) → State → Option ApiError → Step
  unfolding by_finalizer
  by_get summary s (some not_found) = (ok zero_result, s)
  by_get summary s (some (refused t)) = (err (api (refused t)), s)
  by_get summary s none = by_finalizer summary s i.ensure_finalizer

  pub reconcile : (RemoteMachineStatus → Result Error Condition) → State → Step
  unfolding by_get
  reconcile summary s = by_get summary s i.get_error
