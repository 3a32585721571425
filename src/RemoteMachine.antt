-- ===== src/RemoteMachine.antt =====
-- Machines that are reached over SSH: api/infrastructure/v1beta2/remote_machine_types.go and the
-- pool of internal/controller/infrastructure/remote_machine_controller.go.
pub mod Pool
pub mod Report
pub mod Inputs
pub mod Reconcile
use k0smotron.Prelude.{ℕ, String, List, Bool, Option, StringMap}
use k0smotron.Kube.{Condition}

-- PooledMachineSpec; the key of the SSH secret is its name.
pub record PooledMachineSpec : Type 0 where
  pub address : String
  pub port : ℕ
  pub user : String
  pub use_sudo : Bool
  pub commands_as_script : Bool
  pub working_dir : String
  pub clean_up_commands : List String
  pub ssh_key_ref : String

-- RemoteMachineRef
pub record RemoteMachineRef : Type 0 where
  pub name : String
  pub namespace : String

-- PooledRemoteMachine
pub record PooledRemoteMachine : Type 0 where
  pub name : String
  pub namespace : String
  pub labels : StringMap
  pub annotations : StringMap
  pub pool : String
  pub machine : PooledMachineSpec
  pub reserved : Bool
  pub machine_ref : RemoteMachineRef

-- RemoteMachineSpec: what a pooled machine fills in, and the rest.
pub record RemoteMachineSpec : Type 0 where
  pub pool : String
  pub provider_id : String
  pub machine : PooledMachineSpec
  pub has_provision_job : Bool

pub record MachineAddress : Type 0 where
  pub kind : String
  pub address : String

-- RemoteMachineStatusV1beta1Deprecated
pub record Failure : Type 0 where
  pub reason : String
  pub message : String

-- RemoteMachineStatus; both pointers of the deprecated part are one option.
pub record RemoteMachineStatus : Type 0 where
  pub provisioned : Option Bool
  pub addresses : List MachineAddress
  pub conditions : List Condition
  pub deprecated : Option Failure

pub record RemoteMachine : Type 0 where
  pub name : String
  pub namespace : String
  pub deleting : Bool
  pub labels : StringMap
  pub annotations : StringMap
  pub spec : RemoteMachineSpec
  pub status : RemoteMachineStatus
