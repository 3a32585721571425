-- ===== src/ControlPlane/Retrieval.antt =====
-- The state of a control plane, read from the API server: retrieveControlPlaneState,
-- getReferencedObject and calculateMachineState in
-- internal/controller/controlplane/k0s_controlplane_controller.go.
pub mod Partition
pub mod Effects
use k0smotron.Prelude.{
  String, List, [], ◌∷◌, Bool, true, false, not, ◌&&◌, ◌||◌, ◌==◌, Option, none, some, map, update,
  if◌then◌else◌,
}
use k0smotron.Kube.{
  Upstream, VersionLib, Api, ApiError, not_found, refused, Error, api, plain, wrap, fault, Result,
  ok, err, and_then, map_err, Call, Json, Machine, ControllerConfig, InfraMachine, Kcp, Cluster,
}
use k0smotron.ControlPlane.Scope.{Scope, World}
use k0smotron.ControlPlane.Action.{M, map_error}
use k0smotron.ControlPlane.Template.{Codec}
use k0smotron.ControlPlane.Drift.{is_infra_machine_up_to_date, is_bootstrap_config_up_to_date}
use k0smotron.ControlPlane.Status.{version_matches}

pub record MachineState : Type 0 where
  pub is_version_up_to_date : Bool
  pub is_infra_up_to_date : Bool
  pub is_bootstrap_up_to_date : Bool
  pub controller_config : Option ControllerConfig
  pub infra_machine : Option InfraMachine

-- The answer of the cache, and that of the API server, which is asked if the cache has nothing.
unfoldable pub get_referenced_object :
    {A : Type 0} → Result ApiError A → Result ApiError A → Result ApiError A
get_referenced_object (err not_found) live = live
get_referenced_object (err (refused t)) live = err (refused t)
get_referenced_object (ok a) live = ok a

-- A missing object is nil.
unfoldable pub found_or_nil :
    {A : Type 0} → List String → Result ApiError A → Result Error (Option A)
found_or_nil text (ok a) = ok (some a)
found_or_nil text (err not_found) = ok none
found_or_nil text (err (refused t)) = err (wrap text (api (refused t)))

-- The variables of the loop over the active machines.
pub record Found : Type 0 where
  pub up_to_date : List String
  pub configs : String → Option ControllerConfig
  pub infras : String → Option InfraMachine
  pub only_version_outdated : Bool

abbrev pub is_up_to_date : MachineState → Bool
is_up_to_date s = s.is_version_up_to_date && (s.is_infra_up_to_date && s.is_bootstrap_up_to_date)

abbrev pub is_only_version_outdated : MachineState → Bool
is_only_version_outdated s =
    not s.is_version_up_to_date && (s.is_infra_up_to_date && s.is_bootstrap_up_to_date)

nothing_found : Found
nothing_found = record {
  up_to_date = [];
  configs = λ m. none;
  infras = λ m. none;
  only_version_outdated = false;
}

-- m[k] = v, if v is not nil
set_if_there : {A : Type 0} → String → Option A → (String → Option A) → String → Option A
set_if_there m none f = f
set_if_there m (some a) f = update f m (some a)

add_state : String → MachineState → Found → Found
unfolding set_if_there
add_state m s f = record {
  up_to_date = if is_up_to_date s then m ∷ f.up_to_date else f.up_to_date;
  configs = set_if_there m s.controller_config f.configs;
  infras = set_if_there m s.infra_machine f.infras;
  only_version_outdated = is_only_version_outdated s || f.only_version_outdated;
}

-- The objects of a list, by name.
unfoldable pub table_of : List Machine → (String → Machine) → String → Machine
table_of [] old n = old n
table_of (o ∷ os) old n = let rest = table_of os old n in if o.name == n then o else rest

module _ (u : Upstream) (v : VersionLib) (c : Codec) (k : Api) where
  unfoldable pub convert_config : String → Option Json → Result Error (Option ControllerConfig)
  convert_config m none = ok none
  convert_config m (some j) =
      and_then
        (map_error (wrap ("failed to convert bootstrap config for machine object" ∷ m ∷ []))
          (u.from_unstructured j))
        (λ config. ok (some config))

  -- The end of calculateMachineState; a version that does not parse panics.
  unfoldable pub state_of :
      Kcp
      → Option ControllerConfig
      → Option InfraMachine
      → Option Bool
      → Result Error Bool
      → Result Error MachineState
  state_of kcp config infra none bootstrap = err fault
  state_of kcp config infra (some version) (err e) = err e
  state_of kcp config infra (some version) (ok bootstrap) = ok (record {
    is_version_up_to_date = version;
    is_infra_up_to_date = is_infra_machine_up_to_date infra kcp;
    is_bootstrap_up_to_date = bootstrap;
    controller_config = config;
    infra_machine = infra;
  })

  unfoldable pub calculate_machine_state : Kcp → List Call → Machine → Result Error MachineState
  unfolding get_referenced_object found_or_nil convert_config state_of
  calculate_machine_state kcp calls o =
      let infra_ref = o.infrastructure_ref in
      let config_ref = o.config_ref in
      let infra_text = "failed to retrieve infra machine for machine object" ∷ o.name ∷ [] in
      let config_text = "failed to retrieve controller config for machine object" ∷ o.name ∷ [] in
      and_then
        (found_or_nil infra_text (
          get_referenced_object (k.get_infra_cached calls infra_ref)
            (k.get_infra_live calls infra_ref)))
        λ infra.
          and_then
            (found_or_nil config_text (
              get_referenced_object (k.get_config_cached calls config_ref)
                (k.get_config_live calls config_ref)))
            λ j. and_then (convert_config o.name j) λ config.
              state_of kcp config infra (version_matches v o.version kcp.spec.version)
                (is_bootstrap_config_up_to_date u c config kcp o)

  -- The loop over the active machines.
  unfoldable pub states_from :
      Kcp → List Call → (String → Machine) → List String → Result Error Found
  unfolding add_state nothing_found
  states_from kcp calls t [] = ok nothing_found
  states_from kcp calls t (m ∷ ms) =
      let rest = states_from kcp calls t ms in
      and_then
        (map_error (wrap ("error calculating machine state for machine" ∷ m ∷ []))
          (calculate_machine_state kcp calls (t m)))
        (λ s. and_then rest (λ f. ok (add_state m s f)))

  scope_of : Cluster → Kcp → (String → Machine) → List String → Found → Scope
  scope_of cluster kcp t names f =
      let active = u.filter (λ m. u.active_machine (t m)) names in
      record {
        cluster = cluster;
        kcp = kcp;
        active_machines = active;
        deleted_machines = u.filter (λ m. u.has_deletion_timestamp (t m)) names;
        up_to_date_machines = f.up_to_date;
        not_up_to_date_machines = u.difference active f.up_to_date;
        controller_configs = f.configs;
        infra_machines = f.infras;
        has_machines_with_only_version_outdated = f.only_version_outdated;
        availability_undecided = false;
      }

  unfoldable pub finish :
      World → (String → Machine) → List String → Result Error Found → Result Error Unit × World
  unfolding scope_of
  finish w t names (err e) = (err e, w)
  finish w t names (ok f) =
      (ok tt, record w { scope = scope_of w.scope.cluster w.scope.kcp t names f; machines = t })

  unfoldable pub from_listed : Result ApiError (List Machine) → M Unit
  unfolding states_from finish table_of
  from_listed (err a) w =
      (err (wrap ("failed to filter machines for control plane" ∷ []) (api a)), w)
  from_listed (ok os) w =
      let t = table_of os w.machines in
      let names =
        u.filter (λ m. u.control_plane_machine w.scope.cluster.name (t m)) (map (λ o. o.name) os) in
      let active = u.filter (λ m. u.active_machine (t m)) names in
      finish w t names (states_from w.scope.kcp w.calls t active)

  -- Reads the struct and the objects anew, for the cluster and the control plane that are there.
  unfoldable pub retrieve_control_plane_state : M Unit
  unfolding from_listed
  retrieve_control_plane_state w = from_listed (k.list_machines w.calls) w
