-- ===== src/ControlPlane/Admission.antt =====
-- The validating webhook of K0sControlPlane: k0s_controlplane_webhook.go in
-- api/controlplane/v1beta2. Segments()[1] is the minor version.
pub mod Accepted
use Prim.Native.Nat.{◌-◌}
use k0smotron.Prelude.{
  ℕ, String, List, [], ◌∷◌, ◌++◌, Bool, true, false, ◌&&◌, ◌||◌, not, ◌==◌, Option, none, some, has,
  contains, ltb, if◌then◌else◌,
}
use k0smotron.Kube.{
  Error, plain, VersionLib, Kcp, ProvisionerSpec, UpdateStrategy, update_in_place, update_recreate,
  update_recreate_delete_first,
}
use k0smotron.Bootstrap.Validation.{FieldError, validate_file_owners}

abbrev k0s_suffix : String
k0s_suffix = "+k0s."

-- A warning names the version that it is about.
pub validate_version_suffix : String → List String
validate_version_suffix version =
    if not (version == "") && not (contains version k0s_suffix) then version ∷ [] else []

pub deny_incompatible_provisioners : ProvisionerSpec → Option Error
deny_incompatible_provisioners p =
    if p.platform == "windows" || (p.format == "powershell-xml" || p.format == "powershell")
    then some (
        plain (
          "K0sControlPlane does not support powershell and powershell-xml provisioning formats"
          ∷ []))
    else none

abbrev is_recreate : UpdateStrategy → Bool
is_recreate update_recreate = true
is_recreate _ = false

pub deny_recreate_on_single_clusters : Kcp → Option Error
deny_recreate_on_single_clusters kcp =
    if is_recreate kcp.spec.update_strategy && has "--single" kcp.spec.k0s_config_spec.args
    then some (
        plain (
          "UpdateStrategy Recreate strategy is not allowed when the cluster is running in single mode"
          ∷ []))
    else none

-- `if err := a; err != nil { return err }` before what follows.
abbrev pub or_error : Option Error → Option Error → Option Error
or_error none rest = rest
or_error (some e) rest = some e

module _ (v : VersionLib) (to_aggregate : List FieldError → Error) where
  deny_core_version : String → Option v.Version → Option Error
  deny_core_version version none = some (plain ("failed to parse version" ∷ []))
  deny_core_version version (some ver) =
      if v.core_string ver == "1.31.1"
      then some (
          plain ("version" ∷ version ∷ "is not compatible with K0sControlPlane, use v1.31.2+" ∷ []))
      else none

  pub deny_incompatible_k0s_versions : Kcp → Option Error
  unfolding deny_core_version
  deny_incompatible_k0s_versions kcp =
      deny_core_version kcp.spec.version (v.new_version kcp.spec.version)

  -- `if len(errs) > 0 { return errs.ToAggregate() }`
  file_owner_error : List FieldError → Option Error
  file_owner_error [] = none
  file_owner_error (e ∷ es) = some (to_aggregate (e ∷ es))

  pub validate_k0s_control_plane : Kcp → Option Error
  unfolding file_owner_error
  validate_k0s_control_plane kcp = or_error (deny_incompatible_k0s_versions kcp) (
      or_error (deny_incompatible_provisioners kcp.spec.k0s_config_spec.provisioner) (
        or_error (deny_recreate_on_single_clusters kcp) (
          file_owner_error (
            validate_file_owners kcp.spec.k0s_config_spec.provisioner
              kcp.spec.k0s_config_spec.files))))

  -- The step between two versions: the old one is parsed first.
  skew_error : Option v.Version → Option v.Version → Option Error
  skew_error none new = some (plain ("failed to parse old version" ∷ []))
  skew_error (some old) none = some (plain ("failed to parse new version" ∷ []))
  skew_error (some old) (some new) =
      if ltb 1 (v.minor new - v.minor old)
      then some (
          plain (
            "upgrading more than one minor version at a time is not allowed by the Kubernetes skew policy"
            ∷ []))
      else none

  version_step : String → String → Option Error
  unfolding skew_error
  version_step old new =
      if old == new then none else skew_error (v.new_version old) (v.new_version new)

  pub validate_create : Kcp → List String × Option Error
  validate_create kcp = (validate_version_suffix kcp.spec.version, validate_k0s_control_plane kcp)

  pub validate_update : Kcp → Kcp → List String × Option Error
  unfolding version_step
  validate_update old_kcp new_kcp = (
    validate_version_suffix new_kcp.spec.version,
    or_error (version_step old_kcp.spec.version new_kcp.spec.version)
        (validate_k0s_control_plane new_kcp),
  )
