-- ===== src/ControlPlane/Admission/Accepted.antt =====
-- Which control planes the webhook lets in, and which updates.
use k0smotron.Prelude.{
  ◌+◌, ◌≤◌, String, List, [], ◌∷◌, true, false, eq_iff, Option, none, some, ◌≡◌, ◌≢◌, ◌↔◌, ◌⊎◌,
  refl, All, has, arith,
}
use k0smotron.Kube.{
  Error, VersionLib, Kcp, ProvisionerSpec, UpdateStrategy, update_in_place, update_recreate,
  update_recreate_delete_first,
}
use k0smotron.Bootstrap.Validation.{FieldError, validate_file_owners}
use k0smotron.Bootstrap.Validation.Files.{HasGoodOwner, validate_file_owners-eq-nil}
use k0smotron.ControlPlane.Admission.{
  or_error, deny_incompatible_provisioners, deny_recreate_on_single_clusters, deny_core_version,
  deny_incompatible_k0s_versions, file_owner_error, validate_k0s_control_plane, skew_error,
  version_step, validate_update, is_recreate,
}

or_error-eq-none : (a b : Option Error) → (or_error a b ≡ none) ↔ ((a ≡ none) × (b ≡ none))
or_error-eq-none none b = ((λ h. (refl, h)), (λ h. h.1))
or_error-eq-none (some e) b = ((λ h. cc), (λ h. cc))

-- A provisioner that does not run powershell.
abbrev pub IsUnix : ProvisionerSpec → Type 0
IsUnix p = (p.platform ≢ "windows") × (p.format ≢ "powershell") × (p.format ≢ "powershell-xml")

provisioners-eq-none : (p : ProvisionerSpec) → (deny_incompatible_provisioners p ≡ none) ↔ IsUnix p
unfolding deny_incompatible_provisioners
provisioners-eq-none p = (
  (λ h. ground (
    arith,
    eq_iff p.platform "windows",
    eq_iff p.format "powershell",
    eq_iff p.format "powershell-xml",
  )),
  (λ h. ground (
    arith,
    eq_iff p.platform "windows",
    eq_iff p.format "powershell",
    eq_iff p.format "powershell-xml",
  )),
)

-- Recreate is not asked for, or the nodes are not single ones.
abbrev pub CanRecreate : Kcp → Type 0
CanRecreate kcp =
    (kcp.spec.update_strategy ≢ update_recreate)
    ⊎ (has "--single" kcp.spec.k0s_config_spec.args ≡ false)

is_recreate_iff : (s : UpdateStrategy) → (is_recreate s ≡ true) ↔ (s ≡ update_recreate)
is_recreate_iff update_in_place = ((λ h. cc), (λ h. cc))
is_recreate_iff update_recreate = ((λ h. refl), (λ h. refl))
is_recreate_iff update_recreate_delete_first = ((λ h. cc), (λ h. cc))

recreate-eq-none : (kcp : Kcp) → (deny_recreate_on_single_clusters kcp ≡ none) ↔ CanRecreate kcp
unfolding deny_recreate_on_single_clusters
recreate-eq-none kcp =
    let s = kcp.spec.update_strategy in
    ((λ h. ground (arith, is_recreate_iff s)), (λ h. ground (arith, is_recreate_iff s)))

module _ (v : VersionLib) (to_aggregate : List FieldError → Error) where
  abbrev pub IsSupported : Option v.Version → Type 0
  IsSupported o = (ver : v.Version) × (o ≡ some ver) × (v.core_string ver ≢ "1.31.1")

  core-eq-none :
      (s : String) (o : Option v.Version)
      → (deny_core_version v to_aggregate s o ≡ none) ↔ IsSupported o
  unfolding deny_core_version
  core-eq-none s none = ((λ h. cc), (λ h. ground arith))
  core-eq-none s (some ver) = (
    (λ h. (ver, refl, ground (arith, eq_iff (v.core_string ver) "1.31.1"))),
    (λ h. ground (arith, eq_iff (v.core_string ver) "1.31.1")),
  )

  owners-eq-none : (es : List FieldError) → (file_owner_error v to_aggregate es ≡ none) ↔ (es ≡ [])
  unfolding file_owner_error
  owners-eq-none [] = ((λ h. refl), (λ h. refl))
  owners-eq-none (e ∷ es) = ((λ h. cc), (λ h. cc))

  -- What a control plane has to be to be let in.
  abbrev pub IsAdmissible : Kcp → Type 0
  IsAdmissible kcp =
      IsSupported (v.new_version kcp.spec.version)
      × IsUnix kcp.spec.k0s_config_spec.provisioner
      × CanRecreate kcp
      × All (HasGoodOwner kcp.spec.k0s_config_spec.provisioner) kcp.spec.k0s_config_spec.files

  validate-eq-none :
      (kcp : Kcp) → (validate_k0s_control_plane v to_aggregate kcp ≡ none) ↔ IsAdmissible kcp
  unfolding validate_k0s_control_plane deny_incompatible_k0s_versions
  validate-eq-none kcp =
      let p = kcp.spec.k0s_config_spec.provisioner in
      let fs = kcp.spec.k0s_config_spec.files in
      let version = core-eq-none kcp.spec.version (v.new_version kcp.spec.version) in
      let unix = provisioners-eq-none p in
      let recreate = recreate-eq-none kcp in
      let owner = validate_file_owners-eq-nil p fs in
      let error = owners-eq-none (validate_file_owners p fs) in
      let first =
        or_error-eq-none
          (deny_core_version v to_aggregate kcp.spec.version (v.new_version kcp.spec.version)) _ in
      let second = or_error-eq-none (deny_incompatible_provisioners p) _ in
      let third =
        or_error-eq-none (deny_recreate_on_single_clusters kcp)
          (file_owner_error v to_aggregate (validate_file_owners p fs)) in
      (
        (λ h.
            let a = first.0 h in
            let b = second.0 a.1 in
            let c = third.0 b.1 in
            (version.0 a.0, unix.0 b.0, recreate.0 c.0, owner.0 (error.0 c.1))),
        (λ h. first.1 (
          version.1 h.0,
          second.1 (unix.1 h.1, third.1 (recreate.1 h.2, error.1 (owner.1 h.3))),
        )),
      )

  -- The same version, or two that parse, the new one at most one minor version above the old one.
  abbrev pub IsSmallStep : String → String → Type 0
  IsSmallStep old new =
      (old ≡ new)
      ⊎ ((a : v.Version) × (b : v.Version) × (v.new_version old ≡ some a)
          × (v.new_version new ≡ some b)
          × (v.minor b ≤ v.minor a + 1))

  IsSkewed : Option v.Version → Option v.Version → Type 0
  IsSkewed o n =
      (a : v.Version) × (b : v.Version) × (o ≡ some a) × (n ≡ some b) × (v.minor b ≤ v.minor a + 1)

  skew-eq-none : (o n : Option v.Version) → (skew_error v to_aggregate o n ≡ none) ↔ IsSkewed o n
  unfolding skew_error IsSkewed
  skew-eq-none none n = ((λ h. cc), (λ h. ground arith))
  skew-eq-none (some a) none = ((λ h. cc), (λ h. ground arith))
  skew-eq-none (some a) (some b) = ((λ h. (a, b, refl, refl, ground arith)), (λ h. ground arith))

  step-eq-none :
      (old new : String) → (version_step v to_aggregate old new ≡ none) ↔ IsSmallStep old new
  unfolding version_step IsSkewed
  step-eq-none old new =
      let skew = skew-eq-none (v.new_version old) (v.new_version new) in
      ((λ h. ground (arith, eq_iff old new, skew.0)), (λ h. ground (arith, eq_iff old new, skew.1)))

  -- An update is let in exactly when the new control plane is admissible and its version is the old
  -- one, or both parse and the minor version goes up by at most one.
  pub validate_update_iff :
      (old new : Kcp)
      → ((validate_update v to_aggregate old new).1 ≡ none)
        ↔ (IsSmallStep old.spec.version new.spec.version × IsAdmissible new)
  unfolding validate_update
  validate_update_iff old new =
      let both =
        or_error-eq-none (version_step v to_aggregate old.spec.version new.spec.version)
          (validate_k0s_control_plane v to_aggregate new) in
      let step = step-eq-none old.spec.version new.spec.version in
      let new' = validate-eq-none new in
      ((λ h. (step.0 (both.0 h).0, new'.0 (both.0 h).1)), (λ h. both.1 (step.1 h.0, new'.1 h.1)))
