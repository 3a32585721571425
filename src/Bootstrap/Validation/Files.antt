-- ===== src/Bootstrap/Validation/Files.antt =====
-- Which files pass: validateFiles and ValidateFileOwners against a description of good files.
use k0smotron.Prelude.{
  ℕ, ◌+◌, String, List, [], ◌∷◌, ◌++◌, Bool, true, false, not, ◌==◌, eq_iff, Option, none, some,
  ◌≡◌, ◌≢◌, ◌↔◌, ◌⊎◌, refl, All, has, arith, inl, inr,
}
use k0smotron.Kube.{File, ContentSource, ContentSourceRef, ProvisionerSpec, K0sWorkerConfigSpec}
use k0smotron.Bootstrap.Validation.{
  FieldError, report, applies_owner, owner_matches, owner_errors, validate_file_owners_from,
  validate_file_owners, unnamed, ref_errors, content_errors, file_errors, files_errors_from,
  validate_files,
}

pub report-eq-nil : (b : Bool) (e : FieldError) → (report b e ≡ []) ↔ (b ≡ false)
report-eq-nil true e = ((λ h. cc), (λ h. cc))
report-eq-nil false e = ((λ h. refl), (λ h. refl))

pub append-eq-nil {ℓ} : {A : Type ℓ} (xs ys : List A) → (xs ++ ys ≡ []) ↔ ((xs ≡ []) × (ys ≡ []))
append-eq-nil [] ys = ((λ h. (refl, h)), (λ h. h.1))
append-eq-nil (x ∷ xs) ys = ((λ h. cc), (λ h. cc))

-- A reference that is there has a name.
abbrev IsNamed : Option ContentSourceRef → Type 0
IsNamed none = Unit
IsNamed (some r) = r.name ≢ ""

abbrev pub IsGoodSource : ContentSource → Type 0
IsGoodSource s =
    ((s.secret_ref ≡ none) ⊎ (s.config_map_ref ≡ none))
    × IsNamed s.secret_ref
    × IsNamed s.config_map_ref

-- One source: content of its own, or a reference to content.
abbrev pub IsGoodContent : String → Option ContentSource → Type 0
IsGoodContent c none = c ≢ ""
IsGoodContent c (some s) = (c ≡ "") × IsGoodSource s

abbrev pub HasOneSource : File → Type 0
HasOneSource f = IsGoodContent f.content f.content_from

-- No owner, or one that the provisioner applies and that is well formed.
abbrev pub HasGoodOwner : ProvisionerSpec → File → Type 0
HasGoodOwner p f = (f.owner ≡ "") ⊎ ((applies_owner p ≡ true) × (owner_matches f.owner ≡ true))

abbrev pub paths : List File → List String
paths [] = []
paths (f ∷ fs) = f.path ∷ paths fs

-- No text stands twice in the list.
abbrev pub IsDistinct : List String → Type 0
IsDistinct [] = Unit
IsDistinct (x ∷ xs) = (has x xs ≡ false) × IsDistinct xs

owner_errors-eq-nil :
    (p : ProvisionerSpec) (i : ℕ) (f : File) → (owner_errors p i f ≡ []) ↔ HasGoodOwner p f
unfolding owner_errors
owner_errors-eq-nil p i f =
    (λ h. ground (arith, eq_iff f.owner ""), λ h. ground (arith, eq_iff f.owner ""))

owners-eq-nil :
    (i : ℕ) (p : ProvisionerSpec) (fs : List File)
    → (validate_file_owners_from i p fs ≡ []) ↔ All (HasGoodOwner p) fs
unfolding validate_file_owners_from
owners-eq-nil i p [] = ((λ h. tt), (λ h. refl))
owners-eq-nil i p (f ∷ fs) =
    let here = owner_errors-eq-nil p i f in
    let there = owners-eq-nil (i + 1) p fs in
    let both = append-eq-nil (owner_errors p i f) (validate_file_owners_from (i + 1) p fs) in
    ((λ h. (here.0 (both.0 h).0, there.0 (both.0 h).1)), (λ h. both.1 (here.1 h.0, there.1 h.1)))

pub validate_file_owners-eq-nil :
    (p : ProvisionerSpec) (fs : List File)
    → (validate_file_owners p fs ≡ []) ↔ All (HasGoodOwner p) fs
unfolding validate_file_owners
validate_file_owners-eq-nil p fs = owners-eq-nil 0 p fs

unnamed-eq-false : (r : Option ContentSourceRef) → (unnamed r ≡ false) ↔ IsNamed r
unnamed-eq-false none = ((λ h. tt), (λ h. refl))
unnamed-eq-false (some r) =
    ((λ h. ground (arith, eq_iff r.name "")), (λ h. ground (arith, eq_iff r.name "")))

abbrev IsGoodRefs : Option ContentSourceRef → Option ContentSourceRef → Type 0
IsGoodRefs a b = ((a ≡ none) ⊎ (b ≡ none)) × IsNamed a × IsNamed b

ref_errors-eq-nil :
    (i : ℕ) (a b : Option ContentSourceRef) → (ref_errors i a b ≡ []) ↔ IsGoodRefs a b
unfolding ref_errors
ref_errors-eq-nil i none none = ((λ h. (inl refl, tt, tt)), (λ h. refl))
ref_errors-eq-nil i none (some b) = (
  (λ h. (inl refl, tt, ground (arith, eq_iff b.name ""))),
  (λ h. ground (arith, eq_iff b.name "")),
)
ref_errors-eq-nil i (some a) none = (
  (λ h. (inr refl, ground (arith, eq_iff a.name ""), tt)),
  (λ h. ground (arith, eq_iff a.name "")),
)
ref_errors-eq-nil i (some a) (some b) = ((λ h. cc), (λ h. ground arith))

content_errors-eq-nil :
    (i : ℕ) (c : String) (o : Option ContentSource)
    → (content_errors i c o ≡ []) ↔ IsGoodContent c o
unfolding content_errors
content_errors-eq-nil i c none =
    ((λ h. ground (arith, eq_iff c "")), (λ h. ground (arith, eq_iff c "")))
content_errors-eq-nil i c (some s) =
    let refs = ref_errors-eq-nil i s.secret_ref s.config_map_ref in
    let full = report-eq-nil (not (c == "")) _ in
    let both =
      append-eq-nil (report (not (c == "")) _) (ref_errors i s.secret_ref s.config_map_ref) in
    (
      (λ h. (ground (arith, full.0 (both.0 h).0, eq_iff c ""), refs.0 (both.0 h).1)),
      (λ h. both.1 (full.1 (ground (arith, eq_iff c "")), refs.1 h.1)),
    )

file_errors-eq-nil :
    (i : ℕ) (known : List String) (f : File)
    → (file_errors i known f ≡ []) ↔ (HasOneSource f × (has f.path known ≡ false))
unfolding file_errors
file_errors-eq-nil i known f =
    let content = content_errors-eq-nil i f.content f.content_from in
    let path = report-eq-nil (has f.path known) _ in
    let both =
      append-eq-nil (content_errors i f.content f.content_from) (report (has f.path known) _) in
    (
      (λ h. (content.0 (both.0 h).0, path.0 (both.0 h).1)),
      (λ h. both.1 (content.1 h.0, path.1 h.1)),
    )

-- None of the texts stands in the list.
abbrev IsFresh : List String → List String → Type 0
IsFresh known [] = Unit
IsFresh known (x ∷ xs) = (has x known ≡ false) × IsFresh known xs

IsFresh-cons :
    (a : String) (known xs : List String)
    → IsFresh (a ∷ known) xs ↔ ((has a xs ≡ false) × IsFresh known xs)
IsFresh-cons a known [] = ((λ h. (refl, tt)), (λ h. tt))
IsFresh-cons a known (x ∷ xs) = (
  (λ h. ground (arith, (IsFresh-cons a known xs).0 h.1, eq_iff a x, eq_iff x a)),
  (λ h. ground (arith, eq_iff a x, eq_iff x a, (IsFresh-cons a known xs).1)),
)

files_errors-eq-nil :
    (i : ℕ) (known : List String) (fs : List File)
    → (files_errors_from i known fs ≡ [])
      ↔ (All HasOneSource fs × IsFresh known (paths fs) × IsDistinct (paths fs))
unfolding files_errors_from
files_errors-eq-nil i known [] = ((λ h. (tt, tt, tt)), (λ h. refl))
files_errors-eq-nil i known (f ∷ fs) =
    let here = file_errors-eq-nil i known f in
    let there = files_errors-eq-nil (i + 1) (f.path ∷ known) fs in
    let fresh = IsFresh-cons f.path known (paths fs) in
    let both =
      append-eq-nil (file_errors i known f) (files_errors_from (i + 1) (f.path ∷ known) fs) in
    (
      (λ h.
          let a = here.0 (both.0 h).0 in
          let b = there.0 (both.0 h).1 in
          let c = fresh.0 b.1 in ((a.0, b.0), (a.1, c.1), (c.0, b.2))),
      (λ h. both.1 (here.1 (h.0.0, h.1.0), there.1 (h.0.1, fresh.1 (h.2.0, h.1.1), h.2.1))),
    )

IsFresh-nil : (xs : List String) → IsFresh [] xs
IsFresh-nil [] = tt
IsFresh-nil (x ∷ xs) = (refl, IsFresh-nil xs)

pub validate_files_iff :
    (s : K0sWorkerConfigSpec)
    → (validate_files s ≡ []) ↔ (
        All HasOneSource s.files
        × IsDistinct (paths s.files)
        × All (HasGoodOwner s.provisioner) s.files)
unfolding validate_files validate_file_owners
validate_files_iff s =
    let files = files_errors-eq-nil 0 [] s.files in
    let owners = owners-eq-nil 0 s.provisioner s.files in
    let both =
      append-eq-nil (files_errors_from 0 [] s.files) (validate_file_owners s.provisioner s.files) in
    (
      (λ h. let f = files.0 (both.0 h).0 in (f.0, f.2, owners.0 (both.0 h).1)),
      (λ h. both.1 (files.1 (h.0, IsFresh-nil (paths s.files), h.1), owners.1 h.2)),
    )
