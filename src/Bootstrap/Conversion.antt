-- ===== src/Bootstrap/Conversion.antt =====
-- The conversions between the v1beta1 and the v1beta2 bootstrap API:
-- api/bootstrap/v1beta1/k0s_controller_config_conversion.go and k0s_worker_config_conversion.go.
-- The v1beta1 specs stand here; the v1beta2 specs are those of `Kube`.
pub mod RoundTrip
use k0smotron.Prelude.{String, List, Bool, ◌==◌, Option, none, some, if◌then◌else◌}
use k0smotron.Kube.{
  Json, File, IgnitionSpec, ContentSource, TunnelingSpec, SecretMetadata, ProvisionerSpec,
  K0sConfigSpec, K0sWorkerConfigSpec,
}

abbrev pub cloud_init : String
cloud_init = "cloud-config"

abbrev pub ignition_format : String
ignition_format = "ignition"

abbrev pub linux : String
linux = "linux"

-- bootstrapv1.K0sConfigSpec
pub record LegacyConfigSpec : Type 0 where
  pub ignition : Option IgnitionSpec
  pub k0s_install_dir : String
  pub k0s : Option Json
  pub files : List File
  pub use_system_hostname : Bool
  pub args : List String
  pub pre_start_commands : List String
  pub post_start_commands : List String
  pub pre_installed_k0s : Bool
  pub download_url : String
  pub tunneling : TunnelingSpec
  pub custom_user_data_ref : Option ContentSource
  pub working_dir : String

-- bootstrapv1.K0sWorkerConfigSpec
pub record LegacyWorkerSpec : Type 0 where
  pub ignition : Option IgnitionSpec
  pub k0s_install_dir : String
  pub version : String
  pub use_system_hostname : Bool
  pub files : List File
  pub args : List String
  pub pre_start_commands : List String
  pub post_start_commands : List String
  pub pre_installed_k0s : Bool
  pub download_url : String
  pub custom_user_data_ref : Option ContentSource
  pub secret_metadata : Option SecretMetadata
  pub working_dir : String

-- `if x != nil { p.CustomUserDataRef = x }`
with_user_data : Option ContentSource → ProvisionerSpec → ProvisionerSpec
with_user_data none p = p
with_user_data (some r) p = record p { custom_user_data_ref = some r }

-- The provisioner of a converted spec, on the platform given.
provisioner_of : String → Option IgnitionSpec → ProvisionerSpec
provisioner_of platform none = record {
  format = cloud_init;
  platform = platform;
  ignition = none;
  custom_user_data_ref = none;
}
provisioner_of platform (some i) = record {
  format = ignition_format;
  platform = platform;
  ignition = some i;
  custom_user_data_ref = none;
}

unfoldable pub convert_config_to_v1beta2 : LegacyConfigSpec → K0sConfigSpec
unfolding with_user_data provisioner_of
convert_config_to_v1beta2 s = record {
  provisioner = with_user_data s.custom_user_data_ref (provisioner_of linux s.ignition);
  k0s_install_dir = s.k0s_install_dir;
  k0s = s.k0s;
  files = s.files;
  use_system_hostname = s.use_system_hostname;
  args = s.args;
  pre_k0s_commands = s.pre_start_commands;
  post_k0s_commands = s.post_start_commands;
  pre_installed_k0s = s.pre_installed_k0s;
  download_url = s.download_url;
  tunneling = s.tunneling;
  secret_metadata = none;
  working_dir = s.working_dir;
}

-- `if spec.Provisioner.Type == Ignition { res.Ignition = ... }`
ignition_of : ProvisionerSpec → Option IgnitionSpec
ignition_of p = if p.format == ignition_format then p.ignition else none

unfoldable pub convert_config_to_v1beta1 : K0sConfigSpec → LegacyConfigSpec
unfolding ignition_of
convert_config_to_v1beta1 s = record {
  ignition = ignition_of s.provisioner;
  k0s_install_dir = s.k0s_install_dir;
  k0s = s.k0s;
  files = s.files;
  use_system_hostname = s.use_system_hostname;
  args = s.args;
  pre_start_commands = s.pre_k0s_commands;
  post_start_commands = s.post_k0s_commands;
  pre_installed_k0s = s.pre_installed_k0s;
  download_url = s.download_url;
  tunneling = s.tunneling;
  custom_user_data_ref = s.provisioner.custom_user_data_ref;
  working_dir = s.working_dir;
}

-- The worker's conversion leaves the platform empty.
unfoldable pub convert_worker_to_v1beta2 : LegacyWorkerSpec → K0sWorkerConfigSpec
unfolding with_user_data provisioner_of
convert_worker_to_v1beta2 s = record {
  provisioner = with_user_data s.custom_user_data_ref (provisioner_of "" s.ignition);
  k0s_install_dir = s.k0s_install_dir;
  version = s.version;
  use_system_hostname = s.use_system_hostname;
  files = s.files;
  args = s.args;
  pre_k0s_commands = s.pre_start_commands;
  post_k0s_commands = s.post_start_commands;
  pre_installed_k0s = s.pre_installed_k0s;
  download_url = s.download_url;
  secret_metadata = s.secret_metadata;
  working_dir = s.working_dir;
}

unfoldable pub convert_worker_to_v1beta1 : K0sWorkerConfigSpec → LegacyWorkerSpec
unfolding ignition_of
convert_worker_to_v1beta1 s = record {
  ignition = ignition_of s.provisioner;
  k0s_install_dir = s.k0s_install_dir;
  version = s.version;
  use_system_hostname = s.use_system_hostname;
  files = s.files;
  args = s.args;
  pre_start_commands = s.pre_k0s_commands;
  post_start_commands = s.post_k0s_commands;
  pre_installed_k0s = s.pre_installed_k0s;
  download_url = s.download_url;
  custom_user_data_ref = none;
  secret_metadata = s.secret_metadata;
  working_dir = s.working_dir;
}
