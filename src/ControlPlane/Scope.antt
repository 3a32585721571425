-- ===== src/ControlPlane/Scope.antt =====
-- What a reconciliation works on: `controlplane` in
-- internal/controller/controlplane/k0s_controlplane_controller.go. Machine objects are shared by
-- pointer between the collections of the struct, so a collection is a list of names and one table
-- holds the objects.
use k0smotron.Prelude.{String, List, Bool, Option, update}
use k0smotron.Kube.{Cluster, Kcp, Machine, ControllerConfig, InfraMachine, Call}

pub record Scope : Type 0 where
  pub cluster : Cluster
  pub kcp : Kcp
  pub active_machines : List String
  pub deleted_machines : List String
  pub up_to_date_machines : List String
  pub not_up_to_date_machines : List String
  pub controller_configs : String → Option ControllerConfig
  pub infra_machines : String → Option InfraMachine
  pub has_machines_with_only_version_outdated : Bool
  pub availability_undecided : Bool

-- The struct, the table of Machine objects, the write requests so far, the oldest first, and
-- whether a loop of updateMachineVersions is running for the control plane.
pub record World : Type 0 where
  pub scope : Scope
  pub machines : String → Machine
  pub calls : List Call
  pub updating_versions : Bool

-- Changes one shared Machine object.
abbrev pub set_machine : String → Machine → World → World
set_machine m o w = record w { machines = update w.machines m o }

abbrev pub set_scope : Scope → World → World
set_scope s w = record w { scope = s }
