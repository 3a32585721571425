-- ===== src/Bootstrap/Validation/Spec.antt =====
-- Which worker configurations pass.
use k0smotron.Prelude.{
  [], ◌++◌, false, ◌==◌, eq_iff, Option, none, some, ◌≡◌, ◌↔◌, refl, All, arith, contains,
  Bool-cases, inl, inr, sym, ◌∙◌,
}
use mathlib.Core.Bool.{false≢true}
use k0smotron.Kube.{K0sWorkerConfigSpec, VersionLib}
use k0smotron.Bootstrap.Validation.{
  validate, validate_version, validate_files, validate_windows, windows_version_errors, windows,
}
use k0smotron.Bootstrap.Validation.Files.{
  append-eq-nil, report-eq-nil, HasOneSource, HasGoodOwner, IsDistinct, paths, validate_files_iff,
}

module _ (v : VersionLib) where
  -- On windows the version parses and is not below the least one supported.
  abbrev pub IsGoodVersion : v.Version → K0sWorkerConfigSpec → Type 0
  IsGoodVersion min s =
      s.provisioner.platform ≡ "windows"
      → (ver : v.Version) × (v.new_version s.version ≡ some ver) × (v.less_than ver min ≡ false)

  abbrev HasVersion : v.Version → Option v.Version → Type 0
  HasVersion min o = (ver : v.Version) × (o ≡ some ver) × (v.less_than ver min ≡ false)

  version_errors-eq-nil :
      (min : v.Version) (o : Option v.Version)
      → (windows_version_errors v (some min) o ≡ []) ↔ HasVersion min o
  unfolding windows_version_errors
  version_errors-eq-nil min none = ((λ h. cc), (λ h. ground arith))
  version_errors-eq-nil min (some ver) =
      let r = report-eq-nil (v.less_than ver min) _ in
      ((λ h. (ver, refl, r.0 h)), (λ h. ground arith))

  windows-eq-nil :
      (min : v.Version) (s : K0sWorkerConfigSpec)
      → v.new_version "v1.34.2+k0s.0" ≡ some min
      → (validate_windows v s ≡ []) ↔ IsGoodVersion min s
  unfolding validate_windows
  windows-eq-nil min s e = elim (Bool-cases (s.provisioner.platform == windows)) [
    | inl on ↦
        rw (on, e)
          (
            (λ h _. (version_errors-eq-nil min (v.new_version s.version)).0 h),
            (λ h.
                (version_errors-eq-nil min (v.new_version s.version)).1
                  (h ((eq_iff s.provisioner.platform windows).0 on))),
          )
    | inr off ↦ rw off (
      (λ h on. absurd (false≢true (sym off ∙ (eq_iff s.provisioner.platform windows).1 on))),
      (λ h. refl),
    )
  ]

  -- A worker configuration passes exactly when its version has no "-k0s." in it, its files pass, and
  -- on windows its version parses and is at least v1.34.2+k0s.0, where that parses.
  pub validate_iff :
      (min : v.Version) (s : K0sWorkerConfigSpec)
      → v.new_version "v1.34.2+k0s.0" ≡ some min
      → (validate v s ≡ []) ↔ (
          (contains s.version "-k0s." ≡ false)
          × (All HasOneSource s.files
              × IsDistinct (paths s.files)
              × All (HasGoodOwner s.provisioner) s.files)
          × IsGoodVersion min s)
  unfolding validate validate_version
  validate_iff min s e =
      let ver = report-eq-nil (contains s.version "-k0s.") _ in
      let files = validate_files_iff s in
      let win = windows-eq-nil min s e in
      let rest = append-eq-nil (validate_files s) (validate_windows v s) in
      let all = append-eq-nil (validate_version s) (validate_files s ++ validate_windows v s) in
      (
        (λ h. let r = rest.0 (all.0 h).1 in (ver.0 (all.0 h).0, files.0 r.0, win.0 r.1)),
        (λ h. all.1 (ver.1 h.0, rest.1 (files.1 h.1, win.1 h.2))),
      )
