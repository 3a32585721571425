-- ===== src/Examples/Worlds/Reconciliations.antt =====
-- What a reconciliation reads, and what it does with it.
use k0smotron.Prelude.{◌+◌, ◌≤◌, List, [], ◌∷◌, true, none, some, map, lookup, ◌≡◌, ◌↔◌, ◌⊎◌, refl}
use k0smotron.Kube.{Api, Machine, ControllerConfig, Kcp, fault, ok, err, update_recreate}
use k0smotron.ControlPlane.Scope.{World}
use k0smotron.ControlPlane.Action.Returns.{OnOk}
use k0smotron.ControlPlane.Machines.Effects.{creates}
use k0smotron.ControlPlane.Template.{
  k0s_config_annotation, get_machine_k0s_config, config_by_annotation, config_by_keys,
}
use k0smotron.ControlPlane.Drift.{with_v1beta2_defaults, is_bootstrap_config_up_to_date}
use k0smotron.ControlPlane.Drift.Defaults.{k0s_of, default_only_difference, comparison_panics_iff}
use k0smotron.ControlPlane.Retrieval.{table_of}
use k0smotron.ControlPlane.Reconcile.{reconcile_machines, reconcile_delete}
use k0smotron.ControlPlane.Reconcile.Settled.{IsSettled, stops_when_desired}
use k0smotron.ControlPlane.Reconcile.OneMachine.{at_most_one_created}
use k0smotron.ControlPlane.Reconcile.Deletion.{IsOrderly, reconcile_delete-IsOrderly}
use k0smotron.Examples.Libraries.{upstream, runtime_laws, diff_laws}
use k0smotron.Examples.Specs.{versions, control_plane_config}
use k0smotron.Examples.Worlds.{servers, rolling, settled, machine_of, control_plane_of, world_of}
use k0smotron.Examples.Worlds.Requests.{codec}

-- The server lists two machines of the cluster, one of them without a version; their
-- infrastructure and configurations are gone.
abbrev listed : List Machine
listed =
    let first = machine_of "cp-1" in
    let second = machine_of "cp-2" in
    record first { version = "v1.34.2+k0s.0" } ∷ record second { version = "" } ∷ []

abbrev listing : Api
listing = record servers { list_machines = λ calls. ok listed }

abbrev world : World
world = world_of rolling

abbrev config : ControllerConfig
config = record {
  name = "cp-1";
  labels = [];
  annotations = [];
  version = "v1.34.1+k0s.0";
  spec = some control_plane_config;
}

-- A control plane as the API server shows it.
abbrev defaulted : Kcp
defaulted =
    let kcp = control_plane_of 3 update_recreate in
    let spec = kcp.spec in
    record kcp {
      spec = record spec { k0s_config_spec = with_v1beta2_defaults control_plane_config };
    }

abbrev annotated : Machine
annotated =
    let o = machine_of "cp-1" in
    record o { annotations = (k0s_config_annotation, "{\"provisioner\":{}}") ∷ [] }

default_only_difference_example :
    is_bootstrap_config_up_to_date upstream codec (some config) defaulted annotated ≡ ok true
unfolding get_machine_k0s_config config_by_annotation config_by_keys lookup
default_only_difference_example =
    default_only_difference upstream diff_laws codec config defaulted annotated control_plane_config
      control_plane_config.k0s refl refl

comparison_panics_iff_example :
    (is_bootstrap_config_up_to_date upstream codec (some config) rolling.kcp (machine_of "cp-1")
      ≡ err fault)
    ↔ ((rolling.kcp.spec.k0s_config_spec.k0s ≡ none) ⊎ (k0s_of config.spec ≡ none))
unfolding lookup
comparison_panics_iff_example =
    comparison_panics_iff upstream codec config rolling.kcp (machine_of "cp-1") refl

stops_when_desired_example :
    let (r, w') =
      reconcile_machines upstream versions codec servers true "UpdateMachine" (world_of settled) in
    OnOk IsSettled r w'
stops_when_desired_example =
    stops_when_desired upstream runtime_laws versions codec servers true "UpdateMachine"
      (world_of settled)

at_most_one_created_example :
    creates (reconcile_machines upstream versions codec servers true "UpdateMachine" world).1
    ≤ creates world + 1
at_most_one_created_example =
    at_most_one_created upstream versions codec servers true "UpdateMachine" world

reconcile_delete-IsOrderly_example :
    let t = table_of listed world.machines in
    let names = map (λ o. o.name) listed in
    let mine =
      upstream.filter (λ m. upstream.control_plane_machine world.scope.cluster.name (t m)) names in
    let (r, w') = reconcile_delete upstream listing world in
    IsOrderly names mine world.calls world.scope.kcp.finalizer r w'
reconcile_delete-IsOrderly_example = reconcile_delete-IsOrderly upstream listing world listed refl
