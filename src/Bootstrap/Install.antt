-- ===== src/Bootstrap/Install.antt =====
-- The commands that install k0s on a machine, and the files that come with them:
-- internal/controller/bootstrap/common.go, the command builders of
-- controlplane_bootstrap_controller.go and worker_bootstrap_controller.go beside it, and
-- internal/controller/util/download.go.
pub mod Arguments
pub mod Files
pub mod Commands
use Prim.Native.Char.{Char, char, code}
use Prim.Native.String.{String as Text, ◌++◌ as push_str}
use k0smotron.Prelude.{
  String, List, [], ◌∷◌, ◌++◌, Bool, true, false, not, ◌&&◌, ◌||◌, ◌==◌, Option, none, some, nat_eq,
  if◌then◌else◌, StringMap, lookup, has_prefix, cut, join,
}
use k0smotron.Kube.{
  ApiError, Error, api, plain, wrap, Result, ok, err, and_then, map_err, File, ContentSource,
  ContentSourceRef, K0sConfigSpec, K0sWorkerConfigSpec,
}

-- fmt.Sprintf, by its pieces
abbrev pub text_of : List String → String
text_of [] = ""
text_of (s ∷ ss) = push_str s (text_of ss)

abbrev pub space : Char
space = char b' ' tt

-- strings.Trim(s, "\"'")
is_quote : Char → Bool
is_quote c = nat_eq (code c) 34 || nat_eq (code c) 39

trim_front : String → String
unfolding is_quote
trim_front String.[] = String.[]
trim_front (String.◌∷◌ c s) = let rest = trim_front s in if is_quote c then rest else String.◌∷◌ c s

trim_back : String → String
unfolding is_quote
trim_back String.[] = String.[]
trim_back (String.◌∷◌ c s) =
    let rest = trim_back s in if is_quote c && rest == "" then String.[] else String.◌∷◌ c rest

pub trim_quotes : String → String
unfolding trim_front trim_back
trim_quotes s = trim_back (trim_front s)

abbrev pub is_kubelet_argument : String → Bool
is_kubelet_argument arg = has_prefix "--kubelet-extra-args" arg

-- What such an argument has behind "=", or else behind a space.
pub kubelet_value : String → String
unfolding trim_quotes
kubelet_value arg =
    let by_equals = cut b'=' arg in
    let by_space = cut b' ' arg in
    if by_equals.1
    then trim_quotes by_equals.2
    else if by_space.1
    then trim_quotes by_space.2
    else arg

-- The loop over the arguments; both lists grow at their ends.
pub merge_from : List String → List String → List String → List String × List String
merge_from args kubelet [] = (args, kubelet)
merge_from args kubelet (a ∷ as') =
    let as_kubelet = merge_from args (kubelet ++ kubelet_value a ∷ []) as' in
    let as_argument = merge_from (args ++ a ∷ []) kubelet as' in
    if is_kubelet_argument a then as_kubelet else as_argument

pub with_kubelet : List String × List String → List String
with_kubelet (args, []) = args
with_kubelet (args, v ∷ vs) =
    args ++ text_of ("--kubelet-extra-args=\"" ∷ join space (v ∷ vs) ∷ "\"" ∷ []) ∷ []

abbrev pub node_labels : String → Bool → List String
node_labels owner is_worker =
    if is_worker
    then text_of ("--labels=" ∷ "k0smotron.io/machine-name" ∷ "=" ∷ owner ∷ []) ∷ []
    else []

abbrev pub host_name : String → Bool → Bool → List String
host_name owner is_worker use_system_hostname =
    if is_worker && not use_system_hostname
    then text_of ("--hostname-override=" ∷ owner ∷ []) ∷ []
    else []

-- `owner` is the name of the owner of the configuration.
unfoldable pub merge_extra_args : List String → String → Bool → Bool → List String
unfolding merge_from with_kubelet
merge_extra_args config_args owner is_worker use_system_hostname = with_kubelet (
    merge_from (node_labels owner is_worker) (host_name owner is_worker use_system_hostname)
      config_args)

-- Where the secrets and the config maps of the namespace are read.
module _ (get_secret get_config_map : String → Result ApiError StringMap) where
  extracting_failed : List String → Error
  extracting_failed reason = wrap reason (plain ("failed to get file content from source" ∷ []))

  unfoldable pub content_of :
      ContentSourceRef → String → Result ApiError StringMap → Result Error String
  unfolding extracting_failed
  content_of ref kind (err a) = err (extracting_failed [])
  content_of ref kind (ok data') = elim (lookup ref.key data') [
    | some content ↦ ok content
    | none ↦ err (extracting_failed ("key not found in" ∷ kind ∷ []))
  ]

  unfoldable pub resolve_source :
      Option ContentSourceRef → Option ContentSourceRef → Result Error String
  unfolding content_of
  resolve_source (some ref) config_map = content_of ref "secret" (get_secret ref.name)
  resolve_source none (some ref) = content_of ref "configmap" (get_config_map ref.name)
  resolve_source none none = err (extracting_failed ("no source specified" ∷ []))

  unfoldable pub resolve_content_from_file : ContentSource → Result Error String
  unfolding resolve_source
  resolve_content_from_file source = resolve_source source.secret_ref source.config_map_ref

  unfoldable pub resolve_file : File → Option ContentSource → Result Error File
  unfolding resolve_content_from_file
  resolve_file f none = ok f
  resolve_file f (some source) =
      and_then
        (map_err (wrap ("failed to resolve file content" ∷ [])) (resolve_content_from_file source))
        (λ content. ok (record f { content = content; content_from = none }))

  unfoldable pub resolve_files : List File → Result Error (List File)
  unfolding resolve_file
  resolve_files [] = ok []
  resolve_files (f ∷ fs) =
      let rest = resolve_files fs in
      and_then (resolve_file f f.content_from) (λ g. and_then rest (λ gs. ok (g ∷ gs)))

-- What url.Parse reads of an address.
pub record Url : Type 0 where
  pub scheme : String
  pub host : String
  pub path : String

-- `parse_url` is url.Parse, and `join_path` filepath.Join of two parts.
module _ (parse_url : String → Option Url) (join_path : String → String → String) where
  by_scheme : String → String → Url → Result Error (List String)
  by_scheme download_url bin url =
      if url.scheme == "https" || url.scheme == "http"
      then ok (
          text_of ("curl -sSfL --retry 5 " ∷ download_url ∷ " -o " ∷ bin ∷ [])
          ∷ text_of ("chmod +x " ∷ bin ∷ [])
          ∷ [])
      else if url.scheme == "oci"
      then ok (
          "export HOME=/root"
          ∷ text_of ("oras blob fetch --output " ∷ bin ∷ " " ∷ url.host ∷ url.path ∷ [])
          ∷ text_of ("chmod +x " ∷ bin ∷ [])
          ∷ [])
      else err (plain ("unsupported URL scheme" ∷ url.scheme ∷ []))

  from_url : String → String → Option Url → Result Error (List String)
  unfolding by_scheme
  from_url download_url bin none =
      ok (text_of ("echo 'Invalid download URL: " ∷ download_url ∷ "'" ∷ []) ∷ [])
  from_url download_url bin (some url) = by_scheme download_url bin url

  pub download_commands : Bool → String → String → String → Result Error (List String)
  unfolding from_url
  download_commands pre_installed download_url version install_path =
      let path = if install_path == "" then "/usr/local/bin" else install_path in
      let url = if download_url == "" then "https://get.k0s.sh" else download_url in
      let versions = if version == "" then [] else text_of ("K0S_VERSION=" ∷ version ∷ []) ∷ [] in
      let vars = text_of ("K0S_INSTALL_PATH=" ∷ path ∷ []) ∷ versions in
      if pre_installed
      then ok []
      else if not (url == "https://get.k0s.sh")
      then from_url url (text_of (path ∷ "/k0s" ∷ [])) (parse_url url)
      else ok (
          text_of ("curl -sSfL --retry 5 https://get.k0s.sh | " ∷ join space vars ∷ " sh" ∷ [])
          ∷ [])

  join_token_path : String → String
  join_token_path working_dir =
      if working_dir == "" then "/etc/k0s.token" else join_path working_dir "k0s.token"

  -- Behind the path of the binary, for a configuration, its owner and the arguments collected.
  controller_command : K0sConfigSpec → String → String → Bool → List String → List String
  unfolding merge_extra_args
  controller_command spec name owner worker_enabled install_args =
      (text_of (join_path spec.k0s_install_dir "k0s" ∷ " install controller" ∷ [])
        ∷ "--force"
        ∷ "--enable-dynamic-config"
        ∷ text_of ("--env AUTOPILOT_HOSTNAME=" ∷ name ∷ [])
        ∷ [])
      ++ merge_extra_args install_args owner worker_enabled spec.use_system_hostname

  pub create_cp_install_cmd : K0sConfigSpec → String → String → Bool → List String → String
  unfolding controller_command
  create_cp_install_cmd spec name owner worker_enabled install_args =
      join space (controller_command spec name owner worker_enabled install_args)

  pub create_cp_install_cmd_with_join_token :
      K0sConfigSpec → String → String → Bool → List String → String → String
  unfolding controller_command
  create_cp_install_cmd_with_join_token spec name owner worker_enabled install_args token_path =
      join space (
        controller_command spec name owner worker_enabled install_args
        ++ "--token-file" ∷ token_path ∷ [])

  pub create_install_cmd : K0sWorkerConfigSpec → String → String
  unfolding join_token_path merge_extra_args
  create_install_cmd spec owner = join space (
      text_of (
        join_path spec.k0s_install_dir "k0s"
        ∷ " install worker --token-file "
        ∷ join_token_path spec.working_dir
        ∷ [])
      ∷ merge_extra_args spec.args owner true spec.use_system_hostname)
