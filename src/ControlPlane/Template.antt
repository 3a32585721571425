-- ===== src/ControlPlane/Template.antt =====
-- The objects of a new control plane machine: helper.go and util.go of
-- internal/controller/controlplane, and createBootstrapConfig.
pub mod Labels
pub mod Effects
use k0smotron.Prelude.{
  ℕ, String, List, [], ◌∷◌, Bool, true, false, ◌||◌, not, ◌==◌, Option, none, some, has,
  if◌then◌else◌, StringMap, lookup, insert, unwrap_or, copy_into, trim_suffix,
}
use k0smotron.Kube.{
  Upstream, VersionLib, Api, ApiError, not_found, refused, Error, api, plain, wrap, fault, and_then,
  map_err, Result, ok, err, ObjectRef, Machine, K0sConfigSpec, ControllerConfig, InfraMachine, Kcp,
  Cluster, Json, Fields, no_fields, object, patch_template, apply_infra, merge_infra, apply_config,
}
use k0smotron.Bootstrap.Args.{worker_enabled}
use k0smotron.Bootstrap.Conversion.{LegacyConfigSpec, convert_config_to_v1beta2}
use k0smotron.ControlPlane.Scope.{World}
use k0smotron.ControlPlane.Action.{
  M, pure, fail, gets, send, ◌>>=◌, ◌>>◌, if_failed, with_context, map_error,
}
use k0smotron.ControlPlane.Machines.{pre_terminate_hook}

abbrev pub cluster_name_label : String
cluster_name_label = "cluster.x-k8s.io/cluster-name"

abbrev pub control_plane_label : String
control_plane_label = "cluster.x-k8s.io/control-plane"

abbrev pub control_plane_name_label : String
control_plane_name_label = "cluster.x-k8s.io/control-plane-name"

abbrev pub k0s_config_annotation : String
k0s_config_annotation = "k0s.controlplane.cluster.x-k8s.io/k0s-config"

abbrev pub cloned_from_name : String
cloned_from_name = "cluster.x-k8s.io/cloned-from-name"

abbrev pub cloned_from_group_kind : String
cloned_from_group_kind = "cluster.x-k8s.io/cloned-from-groupkind"

abbrev etcd_args : List String
etcd_args = "spec" ∷ "storage" ∷ "etcd" ∷ "extraArgs" ∷ []

-- encoding/json at the types of the machine annotation. `probe` reads the keys of an object.
pub record Codec : Type 0 where
  pub marshal : K0sConfigSpec → Result Error String
  pub probe : String → Result Error (List String)
  pub unmarshal : String → Result Error K0sConfigSpec
  pub unmarshal_legacy : String → Result Error LegacyConfigSpec

-- An error for every error of a result.
unfoldable pub lift_result : {A : Type 0} → (Error → Error) → Result Error A → M A
lift_result f r w = (map_error f r, w)

module _ (u : Upstream) where
  pub control_plane_common_labels : Kcp → String → StringMap
  control_plane_common_labels kcp cluster_name =
      insert control_plane_name_label (u.format_value kcp.name) (
        insert control_plane_label "true"
          (insert cluster_name_label cluster_name (copy_into [] kcp.spec.template_labels)))

  -- The machine's name becomes the etcd member's.
  set_etcd_name : String → Json → Result Error Json
  set_etcd_name name k0s =
      and_then
        (map_err (wrap ("error ensuring intermediate maps spec.storage.etcd.extraArgs" ∷ []))
          (u.set_nested_map k0s no_fields etcd_args))
        (λ j.
          map_err (wrap ("error setting storage.etcd.extraArgs.name" ∷ []))
            (u.set_nested_field j name ("spec" ∷ "storage" ∷ "etcd" ∷ "extraArgs" ∷ "name" ∷ [])))

  -- If it is not explicitly indicated to use Kine storage.
  unless_kine : String → Json → Result Error (Option String) → Result Error Json
  unfolding set_etcd_name
  unless_kine name k0s (err e) = err (wrap ("error retrieving storage.kine.datasource" ∷ []) e)
  unless_kine name k0s (ok none) = set_etcd_name name k0s
  unless_kine name k0s (ok (some source)) = if source == "" then set_etcd_name name k0s else ok k0s

  -- The k0s configuration of one machine.
  with_etcd_name : String → Option Json → Result Error Json
  unfolding unless_kine
  with_etcd_name name k0s? =
      let k0s = unwrap_or k0s? (object no_fields) in
      unless_kine name k0s (u.nested_string k0s ("spec" ∷ "storage" ∷ "kine" ∷ "dataSource" ∷ []))

-- The end of generateK0sConfigAnnotationValueForMachine.
marshalled : Codec → K0sConfigSpec → Result Error String
marshalled c s = map_err (wrap ("failed to marshal K0sConfigSpec" ∷ [])) (c.marshal s)

module _ (u : Upstream) (v : VersionLib) (c : Codec) where
  -- The two versions parsed: of the control plane, and of minVersionForETCDName, which panics when
  -- the program starts if it does not parse.
  annotation_for_version : Kcp → String → Option v.Version → Option v.Version → Result Error String
  unfolding with_etcd_name marshalled
  annotation_for_version kcp name current none = err fault
  annotation_for_version kcp name none (some min) = err (plain ("error parsing k0s version" ∷ []))
  annotation_for_version kcp name (some current) (some min) =
      let spec = kcp.spec.k0s_config_spec in
      if v.greater_than_or_equal current min
      then and_then (with_etcd_name u name spec.k0s)
          (λ j. marshalled c (record spec { k0s = some j }))
      else marshalled c spec

  pub generate_k0s_config_annotation_value : Kcp → String → Result Error String
  unfolding annotation_for_version
  generate_k0s_config_annotation_value kcp name =
      annotation_for_version kcp name (v.new_version kcp.spec.version) (v.new_version "v1.31.1")

  machine_labels : Kcp → String → StringMap
  unfolding control_plane_common_labels
  machine_labels kcp cluster_name =
      let labels = control_plane_common_labels u kcp cluster_name in
      if worker_enabled (some kcp.spec.k0s_config_spec)
      then insert "k0smotron.io/control-plane-worker-enabled" "true" labels
      else labels

  machine_annotations : Kcp → String → StringMap
  machine_annotations kcp config =
      insert k0s_config_annotation config
        (copy_into (insert pre_terminate_hook "" []) kcp.spec.template_annotations)

  -- The object has no deletion timestamp and no creation timestamp of its own yet.
  machine_object : String → Cluster → Kcp → ObjectRef → String → String → Machine
  unfolding machine_labels machine_annotations
  machine_object name cluster kcp infra_ref failure_domain config = record {
    name = name;
    version = kcp.spec.version;
    deleting = false;
    created = 0;
    labels = machine_labels kcp cluster.name;
    annotations = machine_annotations kcp config;
    conditions = [];
    node_ref_name = "";
    infrastructure_ref = infra_ref;
    config_ref = record {
      kind = "K0sControllerConfig";
      name = name;
      api_group = "bootstrap.cluster.x-k8s.io";
    };
    failure_domain = failure_domain;
  }

  pub generate_machine : String → Cluster → Kcp → ObjectRef → String → Result Error Machine
  unfolding machine_object
  generate_machine name cluster kcp infra_ref failure_domain =
      and_then (generate_k0s_config_annotation_value kcp name)
        (λ config. ok (machine_object name cluster kcp infra_ref failure_domain config))

-- The annotation of a machine, by the keys of its JSON object.
unfoldable pub config_by_keys : Codec → String → List String → Result Error K0sConfigSpec
config_by_keys c text keys =
    if has "provisioner" keys
    then map_err (wrap ("failed to unmarshal K0sConfigSpec" ∷ [])) (c.unmarshal text)
    else and_then
        (map_err (wrap ("failed to unmarshal legacy K0sConfigSpec" ∷ [])) (c.unmarshal_legacy text))
        (λ s. ok (convert_config_to_v1beta2 s))

abbrev pub no_annotation : Error
no_annotation = plain ("k0s config annotation not found on machine" ∷ [])

unfoldable pub config_by_annotation : Codec → Option String → Result Error K0sConfigSpec
unfolding config_by_keys
config_by_annotation c none = err no_annotation
config_by_annotation c (some text) =
    and_then (map_err (wrap ("failed to unmarshal K0sConfigSpec" ∷ [])) (c.probe text))
      (config_by_keys c text)

unfoldable pub get_machine_k0s_config : Codec → Machine → Result Error K0sConfigSpec
unfolding config_by_annotation
get_machine_k0s_config c o = config_by_annotation c (lookup k0s_config_annotation o.annotations)

module _ (u : Upstream) (k : Api) where
  infra_annotations : Kcp → StringMap
  infra_annotations kcp = insert cloned_from_group_kind kcp.spec.infrastructure_ref.group_kind (
      insert cloned_from_name kcp.spec.infrastructure_ref.name
        (copy_into (copy_into [] kcp.annotations) kcp.spec.template_annotations))

  -- `found` is looked at before the error.
  machine_of_template :
      String → Cluster → Kcp → Json → Result Error (Option Fields) → M InfraMachine
  unfolding infra_annotations control_plane_common_labels
  machine_of_template name cluster kcp template (ok (some content)) = pure (record {
    api_version = u.get_api_version template;
    kind = trim_suffix (u.get_kind template) "Template";
    name = name;
    labels = control_plane_common_labels u kcp cluster.name;
    annotations = infra_annotations kcp;
    content = content;
  })
  machine_of_template name cluster kcp template _ = fail (plain ("missing spec.template" ∷ []))

  generate_machine_from_template : String → Cluster → Kcp → M InfraMachine
  unfolding machine_of_template
  generate_machine_from_template name cluster kcp = do
    r ← gets (λ w. k.get_template w.calls kcp.spec.infrastructure_ref.name)
    template ← lift_result (λ e. e) (map_err api r)
    e ← send k (patch_template kcp.spec.infrastructure_ref.name)
    if_failed e api
    machine_of_template name cluster kcp template (u.nested_map template ("spec" ∷ "template" ∷ []))

  -- By what is there under the name. The path of the last request comes from discovery.
  create_or_merge : InfraMachine → Result ApiError InfraMachine → M InfraMachine
  create_or_merge infra (err not_found) = do
    e ← send k (apply_infra infra)
    if_failed e (λ a. wrap ("error apply patching" ∷ []) (api a))
    pure infra
  create_or_merge infra (err (refused t)) =
      fail (wrap ("error getting machine implementation" ∷ []) (api (refused t)))
  create_or_merge infra (ok existing) = do
    merged ← lift_result (λ e. e) (u.merge_infra_machine existing infra)
    e ← send k (merge_infra merged)
    if_failed e (λ a. wrap ("error patching" ∷ []) (api a))
    pure infra

  pub create_machine_from_template : String → Cluster → Kcp → M InfraMachine
  unfolding generate_machine_from_template create_or_merge
  create_machine_from_template name cluster kcp = do
    infra ← generate_machine_from_template name cluster kcp
    r ← gets (λ w.
        k.get_infra_cached w.calls
          (record { kind = infra.kind; name = infra.name; api_group = infra.api_version }))
    create_or_merge infra r

  pub create_bootstrap_config : String → K0sConfigSpec → Kcp → String → M Unit
  unfolding control_plane_common_labels
  create_bootstrap_config name spec kcp cluster_name = do
    e ← send k (
        apply_config (record {
          name = name;
          labels = control_plane_common_labels u kcp cluster_name;
          annotations = kcp.spec.template_annotations;
          version = kcp.spec.version;
          spec = some spec;
        }))
    if_failed e (λ a. wrap ("error patching K0sControllerConfig" ∷ []) (api a))
