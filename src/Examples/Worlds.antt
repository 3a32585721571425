-- ===== src/Examples/Worlds.antt =====
-- Control planes in the middle of their work.
mod Requests
mod Conditions
mod Updates
mod Reconciliations
use k0smotron.Prelude.{
  ℕ, String, List, [], ◌∷◌, Bool, true, false, Option, none, some, ◌==◌, if◌then◌else◌,
}
use k0smotron.Kube.{
  Api, ApiError, not_found, refused, Call, ObjectRef, Result, ok, err, Error, Json, object, field,
  Machine, InfraMachine, no_fields, Condition, condition_true, condition_false, UpdateStrategy,
  update_recreate, update_recreate_delete_first, Kcp, KcpSpec, KcpStatus, K0sConfigSpec, Cluster,
  FailureDomain,
}
use k0smotron.ControlPlane.Scope.{Scope, World}
use k0smotron.Examples.Specs.{control_plane_config}

-- A template with an empty spec.
abbrev template : Json
template = object (field "spec" (object (field "template" (object no_fields) no_fields)) no_fields)

-- Every request succeeds; there is no infrastructure machine yet.
abbrev pub servers : Api
servers = record {
  reply = λ calls c. none;
  list_machines = λ calls. ok [];
  get_infra_cached = λ calls r. err not_found;
  get_infra_live = λ calls r. err not_found;
  get_config_cached = λ calls r. err not_found;
  get_config_live = λ calls r. err not_found;
  get_template = λ calls name. ok template;
  get_extension = λ calls. err not_found;
  workload_clientset = λ calls. ok true;
  get_control_node = λ calls name. err not_found;
  get_etcd_member = λ calls name. err not_found;
  get_plan = λ calls. err not_found;
  now = λ calls. 0;
  generate_name = λ calls name. "cp-new";
  poll_attempts = 3;
}

abbrev no_ref : ObjectRef
no_ref = record { kind = ""; name = ""; api_group = "" }

abbrev unhealthy : Condition
unhealthy = record {
  kind = "OwnerRemediated";
  status = condition_false;
  reason = "WaitingForRemediation";
  message = "";
  last_transition = 0;
}

-- cp-1 is unhealthy, and all have a node.
abbrev pub machine_of : String → Machine
machine_of name = record {
  name = name;
  version = "v1.34.1+k0s.0";
  deleting = false;
  created = if name == "cp-1" then 10 else 20;
  labels = [];
  annotations = [];
  conditions = if name == "cp-1" then unhealthy ∷ [] else [];
  node_ref_name = name;
  infrastructure_ref = no_ref;
  config_ref = no_ref;
  failure_domain = "";
}

abbrev pub available_condition : Condition
available_condition = record {
  kind = "Available";
  status = condition_true;
  reason = "Available";
  message = "";
  last_transition = 0;
}

abbrev pub control_plane_of : ℕ → UpdateStrategy → Kcp
control_plane_of replicas strategy = record {
  name = "cp";
  uid = "uid-1";
  deleting = false;
  created = 1;
  annotations = [];
  finalizer = true;
  spec = record {
    version = "v1.34.2+k0s.0";
    replicas = replicas;
    update_strategy = strategy;
    k0s_config_spec = control_plane_config;
    template_labels = ("cluster.x-k8s.io/control-plane", "false") ∷ [];
    template_annotations = [];
    infrastructure_ref = record {
      name = "cp-template";
      api_version = "";
      kind = "";
      group_kind = "";
    };
  };
  status = record {
    initialized = some true;
    external_managed = none;
    replicas = none;
    ready_replicas = none;
    available_replicas = none;
    up_to_date_replicas = none;
    version = "";
    conditions = available_condition ∷ [];
  };
}

abbrev pub cluster : Cluster
cluster = record {
  name = "demo";
  annotations = [];
  failure_domains = record { name = "a"; control_plane = some true } ∷ [];
  endpoint_host = "10.0.0.1";
}

abbrev no_infra : String → Option InfraMachine
no_infra name = none

abbrev pub scope_of : ℕ → List String → List String → Scope
scope_of replicas up_to_date outdated = record {
  cluster = cluster;
  kcp = control_plane_of replicas update_recreate;
  active_machines = "cp-1" ∷ "cp-2" ∷ "cp-3" ∷ [];
  deleted_machines = [];
  up_to_date_machines = up_to_date;
  not_up_to_date_machines = outdated;
  controller_configs = λ name. none;
  infra_machines = no_infra;
  has_machines_with_only_version_outdated = false;
  availability_undecided = false;
}

-- Three machines, the first of them outdated.
abbrev pub rolling : Scope
rolling = scope_of 3 ("cp-2" ∷ "cp-3" ∷ []) ("cp-1" ∷ [])

abbrev pub settled : Scope
settled = scope_of 3 ("cp-1" ∷ "cp-2" ∷ "cp-3" ∷ []) []

abbrev pub world_of : Scope → World
world_of s = record { scope = s; machines = machine_of; calls = []; updating_versions = false }
