-- ===== src/Bootstrap/Validation.antt =====
-- The validation of worker configurations: Validate and ValidateFileOwners in
-- api/bootstrap/v1beta2/k0s_types.go, and the webhook in worker_bootstrap_webhook.go.
pub mod Files
pub mod Spec
use Prim.Native.Char.{code}
use Prim.Native.Nat.{◌+◌}
use k0smotron.Prelude.{
  ℕ, String, List, [], ◌∷◌, ◌++◌, Bool, true, false, ◌&&◌, ◌||◌, not, ◌==◌, Option, none, some,
  is_some, if◌then◌else◌, cut, contains, has, leb, nat_eq,
}
use k0smotron.Kube.{
  File, ContentSource, ContentSourceRef, ProvisionerSpec, K0sWorkerConfigSpec, VersionLib,
}

-- Where a field error points: below the path that Validate is given.
pub data Place : Type 0 where
  at_file : ℕ → List String → Place
  at_field : String → Place

-- field.Invalid and field.Required
pub data FieldError : Type 0 where
  invalid : Place → String → FieldError
  required : Place → String → FieldError

abbrev windows : String
windows = "windows"

abbrev powershell : String
powershell = "powershell"

abbrev powershell_xml : String
powershell_xml = "powershell-xml"

-- `if b { allErrs = append(allErrs, e) }`
abbrev pub report : Bool → FieldError → List FieldError
report true e = e ∷ []
report false e = []

pub applies_owner : ProvisionerSpec → Bool
applies_owner p =
    if p.platform == windows
    then false
    else not (p.format == powershell) && not (p.format == powershell_xml)

-- [a-zA-Z0-9._-]
owner_char : ℕ → Bool
owner_char c =
    (leb b'a' c && leb c b'z')
    || (leb b'A' c && leb c b'Z')
    || (leb b'0' c && leb c b'9')
    || nat_eq c b'.'
    || nat_eq c b'_'
    || nat_eq c b'-'

owner_chars : String → Bool
owner_chars String.[] = true
owner_chars (String.◌∷◌ c s) = owner_char (code c) && owner_chars s

owner_name : String → Bool
owner_name s = not (s == "") && owner_chars s

owner_parts : String × Bool × String → Bool
owner_parts (user, has_group, group) = owner_name user && (not has_group || owner_name group)

-- ownerRegex.MatchString: ^[a-zA-Z0-9._-]+(:[a-zA-Z0-9._-]+)?$
pub owner_matches : String → Bool
unfolding owner_parts owner_name owner_chars owner_char
owner_matches s = owner_parts (cut b':' s)

abbrev owner_format_msg : String
owner_format_msg =
    "owner must be of the form user[:group], using only alphanumerics, '.', '_' or '-'"

abbrev owner_on_powershell_msg : String
owner_on_powershell_msg =
    "owner is not supported by the powershell provisioner formats or on the windows platform"

-- One round of the loop of ValidateFileOwners.
owner_errors : ProvisionerSpec → ℕ → File → List FieldError
owner_errors p i f =
    if f.owner == ""
    then []
    else if applies_owner p
    then report (not (owner_matches f.owner)) (invalid (at_file i ("owner" ∷ [])) owner_format_msg)
    else invalid (at_file i ("owner" ∷ [])) owner_on_powershell_msg ∷ []

validate_file_owners_from : ℕ → ProvisionerSpec → List File → List FieldError
unfolding owner_errors
validate_file_owners_from i p [] = []
validate_file_owners_from i p (f ∷ fs) =
    owner_errors p i f ++ validate_file_owners_from (i + 1) p fs

pub validate_file_owners : ProvisionerSpec → List File → List FieldError
unfolding validate_file_owners_from
validate_file_owners p fs = validate_file_owners_from 0 p fs

abbrev unnamed : Option ContentSourceRef → Bool
unnamed none = false
unnamed (some r) = r.name == ""

-- The tests of one file on its ContentFrom.
ref_errors : ℕ → Option ContentSourceRef → Option ContentSourceRef → List FieldError
ref_errors i secret config_map =
    report (is_some secret && is_some config_map) (
      invalid (at_file i ("contentFrom" ∷ []))
        "only one of contentFrom.secretKeyRef or contentFrom.configMapKeyRef may be specified for a single file")
    ++ (report (unnamed secret)
          (required (at_file i ("contentFrom" ∷ "secretRef" ∷ "name" ∷ [])) "name is required")
        ++ report (unnamed config_map) (
            required (at_file i ("contentFrom" ∷ "configMapRef" ∷ "name" ∷ [])) "name is required"))

-- The tests of one file on its content and its ContentFrom.
content_errors : ℕ → String → Option ContentSource → List FieldError
content_errors i content none =
    report (content == "")
      (invalid (at_file i []) "either content or contentFrom must be specified for a file")
content_errors i content (some s) =
    report (not (content == "")) (
      invalid (at_file i [])
        "only one of content or contentFrom may be specified for a single file")
    ++ ref_errors i s.secret_ref s.config_map_ref

-- One round of the loop of validateFiles; `known` are the paths so far.
file_errors : ℕ → List String → File → List FieldError
unfolding content_errors ref_errors
file_errors i known f =
    content_errors i f.content f.content_from
    ++ report (has f.path known)
        (invalid (at_file i ("path" ∷ [])) "path property must be unique among all files")

files_errors_from : ℕ → List String → List File → List FieldError
unfolding file_errors
files_errors_from i known [] = []
files_errors_from i known (f ∷ fs) =
    file_errors i known f ++ files_errors_from (i + 1) (f.path ∷ known) fs

pub validate_files : K0sWorkerConfigSpec → List FieldError
unfolding files_errors_from
validate_files s = files_errors_from 0 [] s.files ++ validate_file_owners s.provisioner s.files

pub validate_version : K0sWorkerConfigSpec → List FieldError
validate_version s =
    report (contains s.version "-k0s.") (
      invalid (at_field "version")
        "k0s specific versions must be specified using the '+k0s' suffix")

module _ (v : VersionLib) where
  windows_version_errors : Option v.Version → Option v.Version → List FieldError
  windows_version_errors min none = invalid (at_field "version") "invalid version format" ∷ []
  windows_version_errors none (some ver) = []
  windows_version_errors (some min) (some ver) = report (v.less_than ver min) (
      invalid (at_field "version")
        "windows worker nodes require k0s version v1.34.2+k0s.0 or higher")

  -- `minWindowsVersion` is parsed when the program starts, which panics if that fails.
  pub validate_windows : K0sWorkerConfigSpec → List FieldError
  unfolding windows_version_errors
  validate_windows s =
      if not (s.provisioner.platform == windows)
      then []
      else windows_version_errors (v.new_version "v1.34.2+k0s.0") (v.new_version s.version)

  pub validate : K0sWorkerConfigSpec → List FieldError
  validate s = validate_version s ++ (validate_files s ++ validate_windows s)
