-- ===== src/Kube/Specs.antt =====
-- The bootstrap specs of api/bootstrap/v1beta2 that the objects carry.
use k0smotron.Prelude.{ℕ, String, List, Bool, Option, StringMap}
use k0smotron.Kube.Unstructured.{Json}

-- A reference to one key of a secret or a config map.
pub record ContentSourceRef : Type 0 where
  pub name : String
  pub key : String

pub record ContentSource : Type 0 where
  pub secret_ref : Option ContentSourceRef
  pub config_map_ref : Option ContentSourceRef

-- bootstrapv2.File, with the embedded provisioner.File
pub record File : Type 0 where
  pub path : String
  pub content : String
  pub permissions : String
  pub owner : String
  pub encoding : String
  pub append : Bool
  pub content_from : Option ContentSource

pub record IgnitionSpec : Type 0 where
  pub variant : String
  pub version : String
  pub additional_config : String

-- Go's strings for the provisioning format and the platform
pub record ProvisionerSpec : Type 0 where
  pub format : String
  pub platform : String
  pub ignition : Option IgnitionSpec
  pub custom_user_data_ref : Option ContentSource

pub record TunnelingSpec : Type 0 where
  pub enabled : Bool
  pub server_address : String
  pub server_node_port : ℕ
  pub tunneling_node_port : ℕ
  pub mode : String

pub record SecretMetadata : Type 0 where
  pub labels : StringMap
  pub annotations : StringMap

pub record K0sConfigSpec : Type 0 where
  pub provisioner : ProvisionerSpec
  pub k0s_install_dir : String
  pub k0s : Option Json
  pub files : List File
  pub use_system_hostname : Bool
  pub args : List String
  pub pre_k0s_commands : List String
  pub post_k0s_commands : List String
  pub pre_installed_k0s : Bool
  pub download_url : String
  pub tunneling : TunnelingSpec
  pub secret_metadata : Option SecretMetadata
  pub working_dir : String

pub record K0sWorkerConfigSpec : Type 0 where
  pub provisioner : ProvisionerSpec
  pub k0s_install_dir : String
  pub version : String
  pub use_system_hostname : Bool
  pub files : List File
  pub args : List String
  pub pre_k0s_commands : List String
  pub post_k0s_commands : List String
  pub pre_installed_k0s : Bool
  pub download_url : String
  pub secret_metadata : Option SecretMetadata
  pub working_dir : String
