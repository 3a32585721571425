-- ===== src/ControlPlane/Drift.antt =====
-- Whether the objects of a machine are those that the control plane asks for:
-- isBootstrapConfigUpToDate, isInfraMachineUpToDate, withV1Beta2Defaults and
-- deprecatedIsK0sConfigChanged in internal/controller/controlplane/helper.go.
pub mod Defaults
use k0smotron.Prelude.{
  ℕ, String, List, [], ◌∷◌, Bool, true, false, not, ◌&&◌, ◌||◌, ◌==◌, Option, none, some, nat_eq,
  has, if◌then◌else◌, unwrap_or, keep, lookup,
}
use k0smotron.Kube.{
  Upstream, Error, api, plain, wrap, fault, Result, ok, err, Machine, K0sConfigSpec,
  ControllerConfig, InfraMachine, Kcp, Json, Fields, no_fields, object,
}
use k0smotron.ControlPlane.Template.{
  Codec, get_machine_k0s_config, no_annotation, cloned_from_name, cloned_from_group_kind,
}

abbrev pub default_download_url : String
default_download_url = "https://get.k0s.sh"

abbrev or_default : String → String → String
or_default s d = if s == "" then d else s

abbrev or_port : ℕ → ℕ → ℕ
or_port p d = if nat_eq p 0 then d else p

unfoldable pub with_v1beta2_defaults : K0sConfigSpec → K0sConfigSpec
with_v1beta2_defaults spec =
    let p = spec.provisioner in
    let t = spec.tunneling in
    record spec {
      k0s_install_dir = or_default spec.k0s_install_dir "/usr/local/bin";
      download_url = or_default spec.download_url default_download_url;
      provisioner = record p {
        format = or_default p.format "cloud-config";
        platform = or_default p.platform "linux";
      };
      tunneling = record t {
        server_node_port = or_port t.server_node_port 31700;
        tunneling_node_port = or_port t.tunneling_node_port 31443;
        mode = or_default t.mode "tunnel";
      };
    }

-- The first of each of the arguments; `seen` are those before.
unique_from : List String → List String → List String
unique_from seen [] = []
unique_from seen (a ∷ as') =
    let known = has a seen in
    let rest = unique_from (if known then seen else a ∷ seen) as' in
    if known then rest else a ∷ rest

pub unique_args : List String → List String
unfolding unique_from
unique_args args = unique_from [] args

pub is_infra_machine_up_to_date : Option InfraMachine → Kcp → Bool
is_infra_machine_up_to_date none kcp = false
is_infra_machine_up_to_date (some i) kcp =
    unwrap_or (lookup cloned_from_name i.annotations) "" == kcp.spec.infrastructure_ref.name
    && unwrap_or (lookup cloned_from_group_kind i.annotations) ""
      == kcp.spec.infrastructure_ref.group_kind

-- errors.Is(err, errMachineWithoutK0sConfigAnnotation)
is_no_annotation : Error → Bool
is_no_annotation (plain (t ∷ [])) = t == "k0s config annotation not found on machine"
is_no_annotation (plain _) = false
is_no_annotation (wrap t e) = is_no_annotation e
is_no_annotation (api a) = false
is_no_annotation fault = false

module _ (u : Upstream) where
  get_k0s_config_path : K0sConfigSpec → String
  get_k0s_config_path spec =
      if spec.working_dir == "" then "/etc/k0s.yaml" else u.join_path spec.working_dir "k0s.yaml"

  remove_args_generated_in_controller_config_reconcile : K0sConfigSpec → K0sConfigSpec
  unfolding get_k0s_config_path
  remove_args_generated_in_controller_config_reconcile spec = record spec {
    args = keep (λ a. not (a == "--config") && not (a == get_k0s_config_path spec)) spec.args;
  }

  -- A map at a path, as a value that may be nil. Errors are thrown away.
  map_or_nil : Result Error (Option Fields) → Option Json
  map_or_nil (ok (some fs)) = some (object fs)
  map_or_nil _ = none

  nested_map_or_nil : Json → String → Option Json
  unfolding map_or_nil
  nested_map_or_nil k0s part = map_or_nil (u.nested_map k0s ("spec" ∷ part ∷ []))

  after_set : Json → Result Error Json → Json
  after_set before (ok j) = j
  after_set before (err e) = before

  -- Behind the two k0s configurations, which are there.
  is_changed : K0sConfigSpec → K0sConfigSpec → String → Json → Json → Bool
  unfolding nested_map_or_nil after_set
  is_changed kcp_spec config_spec name kcp_k0s config_k0s =
      let config_api = nested_map_or_nil config_k0s "api" in
      let kcp_api = nested_map_or_nil kcp_k0s "api" in
      let config_storage = unwrap_or (nested_map_or_nil config_k0s "storage") (object no_fields) in
      let kcp_storage = unwrap_or (nested_map_or_nil kcp_k0s "storage") (object no_fields) in
      let path = "etcd" ∷ "extraArgs" ∷ "name" ∷ [] in
      let named = after_set kcp_storage (u.set_nested_field kcp_storage name path) in
      let same = record config_spec { k0s = kcp_spec.k0s; tunneling = kcp_spec.tunneling } in
      not (u.deep_equal_spec kcp_spec same)
      || (not (u.deep_equal_map kcp_api config_api)
          || (not (u.deep_equal_map (some kcp_storage) (some config_storage))
              && not (u.deep_equal_map (some named) (some config_storage))))

  -- `.Object` of a nil configuration panics.
  changed_if_there :
      K0sConfigSpec → K0sConfigSpec → String → Option Json → Option Json → Result Error Bool
  unfolding is_changed
  changed_if_there kcp_spec config_spec name (some a) (some b) =
      ok (is_changed kcp_spec config_spec name a b)
  changed_if_there kcp_spec config_spec name _ _ = err fault

  -- The spec of a configuration is an embedded pointer.
  changed_from : K0sConfigSpec → String → Option K0sConfigSpec → Result Error Bool
  unfolding changed_if_there remove_args_generated_in_controller_config_reconcile
  changed_from kcp_spec name none = err fault
  changed_from kcp_spec name (some spec) =
      changed_if_there kcp_spec (remove_args_generated_in_controller_config_reconcile spec) name
        kcp_spec.k0s spec.k0s

  unfoldable pub deprecated_is_k0s_config_changed :
      ControllerConfig → Kcp → Machine → Result Error Bool
  unfolding changed_from
  deprecated_is_k0s_config_changed config kcp o =
      let spec = kcp.spec.k0s_config_spec in
      changed_from (record spec { args = unique_args spec.args }) o.name config.spec

  -- The values that the API server would show, without the k0s configuration.
  abbrev pub normalized : K0sConfigSpec → K0sConfigSpec
  normalized spec = with_v1beta2_defaults (record spec { k0s = none })

  negated : Result Error Bool → Result Error Bool
  negated (ok b) = ok (not b)
  negated (err e) = err e

  up_to_date_by : ControllerConfig → Kcp → Machine → Result Error K0sConfigSpec → Result Error Bool
  unfolding negated deprecated_is_k0s_config_changed is_no_annotation
  up_to_date_by config kcp o (ok spec) =
      ok (u.no_diff (normalized kcp.spec.k0s_config_spec) (normalized spec))
  up_to_date_by config kcp o (err e) =
      if is_no_annotation e
      then negated (deprecated_is_k0s_config_changed config kcp o)
      else ok false

  -- An error is a panic.
  unfoldable pub is_bootstrap_config_up_to_date :
      Codec → Option ControllerConfig → Kcp → Machine → Result Error Bool
  unfolding up_to_date_by
  is_bootstrap_config_up_to_date c none kcp o = ok true
  is_bootstrap_config_up_to_date c (some config) kcp o =
      up_to_date_by config kcp o (get_machine_k0s_config c o)
