-- ===== src/Examples/Specs.antt =====
-- Configurations, and the webhooks and conversions on them.
use k0smotron.Prelude.{
  ℕ, String, [], ◌∷◌, true, false, not, Option, none, some, ◌≡◌, ◌↔◌, refl, ◌==◌, if◌then◌else◌,
  All, contains, leb,
}
use k0smotron.Kube.{
  File, ContentSource, ProvisionerSpec, IgnitionSpec, TunnelingSpec, K0sConfigSpec,
  K0sWorkerConfigSpec, VersionLib,
}
use k0smotron.Bootstrap.Conversion.{
  LegacyConfigSpec, LegacyWorkerSpec, convert_config_to_v1beta1, convert_config_to_v1beta2,
  convert_worker_to_v1beta1, convert_worker_to_v1beta2,
}
use k0smotron.Bootstrap.Conversion.RoundTrip.{
  config_round_trip, worker_round_trip_iff, hub_round_trip_iff, IsLegacy,
}
use k0smotron.Bootstrap.Validation.{validate}
use k0smotron.Bootstrap.Validation.Files.{HasOneSource, HasGoodOwner, IsDistinct, paths}
use k0smotron.Bootstrap.Validation.Spec.{IsGoodVersion, validate_iff}

-- A version is its minor number here.
abbrev minor_of : String → Option ℕ
minor_of s =
    if s == "v1.34.2+k0s.0"
    then some 34
    else if s == "v1.33.0+k0s.0"
    then some 33
    else if s == "v1.31.1+k0s.0"
    then some 31
    else none

abbrev pub versions : VersionLib
versions = record {
  Version = ℕ;
  new_version = minor_of;
  equal = λ a b. leb a b;
  less_than = λ a b. not (leb b a);
  greater_than_or_equal = λ a b. leb b a;
  to_string = λ v. "";
  core_string = λ v. if leb v 31 then "1.31.1" else "1.34.2";
  minor = λ v. v;
  lowest = λ v vs. v;
}

abbrev pub file : File
file = record {
  path = "/etc/motd";
  content = "hello";
  permissions = "0644";
  owner = "root:root";
  encoding = "";
  append = false;
  content_from = none;
}

abbrev linux_provisioner : ProvisionerSpec
linux_provisioner = record {
  format = "cloud-config";
  platform = "linux";
  ignition = none;
  custom_user_data_ref = none;
}

abbrev tunneling : TunnelingSpec
tunneling = record {
  enabled = false;
  server_address = "";
  server_node_port = 31700;
  tunneling_node_port = 31443;
  mode = "tunnel";
}

abbrev pub control_plane_config : K0sConfigSpec
control_plane_config = record {
  provisioner = linux_provisioner;
  k0s_install_dir = "/usr/local/bin";
  k0s = none;
  files = file ∷ [];
  use_system_hostname = false;
  args = "--enable-worker" ∷ [];
  pre_k0s_commands = [];
  post_k0s_commands = [];
  pre_installed_k0s = false;
  download_url = "";
  tunneling = tunneling;
  secret_metadata = none;
  working_dir = "";
}

abbrev worker_config : K0sWorkerConfigSpec
worker_config = record {
  provisioner = linux_provisioner;
  k0s_install_dir = "/usr/local/bin";
  version = "v1.34.2+k0s.0";
  use_system_hostname = false;
  files = file ∷ [];
  args = [];
  pre_k0s_commands = [];
  post_k0s_commands = [];
  pre_installed_k0s = false;
  download_url = "";
  secret_metadata = none;
  working_dir = "";
}

abbrev user_data : Option ContentSource
user_data = some (record {
  secret_ref = some (record { name = "user-data"; key = "value" });
  config_map_ref = none;
})

abbrev ignition : Option IgnitionSpec
ignition = some (record { variant = "fcos"; version = "1.0.0"; additional_config = "" })

abbrev legacy_config : LegacyConfigSpec
legacy_config = record {
  ignition = ignition;
  k0s_install_dir = "/opt";
  k0s = none;
  files = file ∷ [];
  use_system_hostname = true;
  args = [];
  pre_start_commands = "true" ∷ [];
  post_start_commands = [];
  pre_installed_k0s = false;
  download_url = "";
  tunneling = tunneling;
  custom_user_data_ref = user_data;
  working_dir = "";
}

abbrev legacy_worker : LegacyWorkerSpec
legacy_worker = record {
  ignition = ignition;
  k0s_install_dir = "/opt";
  version = "v1.34.2+k0s.0";
  use_system_hostname = true;
  files = [];
  args = [];
  pre_start_commands = [];
  post_start_commands = [];
  pre_installed_k0s = false;
  download_url = "";
  custom_user_data_ref = user_data;
  secret_metadata = none;
  working_dir = "";
}

config_round_trip_example :
    convert_config_to_v1beta1 (convert_config_to_v1beta2 legacy_config) ≡ legacy_config
config_round_trip_example = config_round_trip legacy_config

worker_round_trip_iff_example :
    (convert_worker_to_v1beta1 (convert_worker_to_v1beta2 legacy_worker) ≡ legacy_worker)
    ↔ (legacy_worker.custom_user_data_ref ≡ none)
worker_round_trip_iff_example = worker_round_trip_iff legacy_worker

hub_round_trip_iff_example :
    (convert_config_to_v1beta2 (convert_config_to_v1beta1 control_plane_config)
      ≡ control_plane_config)
    ↔ ((control_plane_config.secret_metadata ≡ none) × IsLegacy control_plane_config.provisioner)
hub_round_trip_iff_example = hub_round_trip_iff control_plane_config

validate_iff_example : (validate versions worker_config ≡ []) ↔ (
    (contains worker_config.version "-k0s." ≡ false)
    × (All HasOneSource worker_config.files
        × IsDistinct (paths worker_config.files)
        × All (HasGoodOwner worker_config.provisioner) worker_config.files)
    × IsGoodVersion versions 34 worker_config)
validate_iff_example = validate_iff versions 34 worker_config refl
