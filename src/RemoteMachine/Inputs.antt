-- ===== src/RemoteMachine/Inputs.antt =====
-- What one reconciliation of a RemoteMachine reads, each thing once, and what it changes
-- (internal/controller/infrastructure/remote_machine_controller.go).
use k0smotron.Prelude.{String, List, Bool, Option, StringMap}
use k0smotron.Kube.{ApiError, Error, Result}
use k0smotron.RemoteMachine.{RemoteMachine, PooledRemoteMachine}
use k0smotron.RemoteMachine.Pool.{PoolApi}

-- RemoteMachineMode
pub data RemoteMachineMode : Type 0 where
  mode_controller mode_worker mode_non_k0s : RemoteMachineMode

-- The Machine that owns the RemoteMachine.
pub record OwnerMachine : Type 0 where
  pub deleting : Bool
  pub has_data_secret : Bool
  pub config_kind : String
  pub labels : StringMap
  pub annotations : StringMap

-- Whether the cluster or the RemoteMachine is paused, and whether its infrastructure is ready.
pub record ClusterState : Type 0 where
  pub paused : Bool
  pub infrastructure_ready : Bool

pub record Inputs : Type 0 where
  pub get_error : Option ApiError
  pub ensure_finalizer : Result Error Bool
  pub owner : Result Error (Option OwnerMachine)
  pub cluster : Result Error (Option ClusterState)
  pub data_error : Option ApiError
  pub parse_error : Option Error
  pub ssh_key_error : Option ApiError
  pub provision : RemoteMachine → Option Error
  pub patch_machine_error : OwnerMachine → Option ApiError
  pub decimal_port : RemoteMachine → String
  pub pool_api : PoolApi

-- The object, its finalizer, the pool, and the mode in which it was cleaned up.
pub record State : Type 0 where
  pub remote : RemoteMachine
  pub finalizer : Bool
  pub pool : List PooledRemoteMachine
  pub cleaned : Option RemoteMachineMode
