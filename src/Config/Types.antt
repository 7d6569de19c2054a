-- ===== src/Config/Types.antt =====
-- The types of internal/config/config.go and internal/config/node_extensions.go.
use docker_swarm_cluster_con.Prelude.{String, Bool, List, Option, ℤ}

pub record MicroCephProviderConfig : Type 0 where
  pub snap_channel : String
  pub enable_updates : Bool
  pub mount_path : String
  pub allow_loop_devices : Bool
  pub loop_device_directory : String
  pub loop_device_size_gb : ℤ
  pub loop_device_thin_provision : Bool
  pub enable_rados_gateway : Bool
  pub rados_gateway_port : ℤ
  pub rados_gateway_multisite : Bool
  pub s3_bucket_name : String
  pub s3_credentials_file : String

pub record EligibleDisks : Type 0 where
  pub inclusion_expression : List String
  pub exclusion_expression : List String

-- `StorageProviders`, which has the one field, is its field `microceph` here.
pub record DistributedStorage : Type 0 where
  pub enabled : Bool
  pub provider : String
  pub force_recreation : Bool
  pub pool_name : String
  pub eligible_disks : EligibleDisks
  pub microceph : MicroCephProviderConfig

pub record ScriptCondition : Type 0 where
  pub property : String
  pub operator : String
  pub value : String
  pub negate : Bool

pub record ScriptConfig : Type 0 where
  pub enabled : Bool
  pub continue_on_error : Bool
  pub name : String
  pub source : String
  pub parameters : String
  pub conditions : List ScriptCondition

pub record Decommissioning : Type 0 where
  pub enabled : Bool
  pub disconnect_overlays : Bool
  pub remove_storage : Option Bool
  pub remove_docker_swarm : Option Bool

pub record KeepalivedConfig : Type 0 where
  pub enabled : Bool
  pub vip : String
  pub interface : String
  pub router_id : String
  pub auth_pass : String
  pub vip_scan_timeout : ℤ

pub record GlobalSettings : Type 0 where
  pub cluster_name : String
  pub overlay_provider : String
  pub overlay_config : String
  pub set_root_password : String
  pub ssh_key_type : String
  pub service_definition_directory : String
  pub distributed_storage : DistributedStorage
  pub keepalived : KeepalivedConfig
  pub pre_scripts : List ScriptConfig
  pub post_scripts : List ScriptConfig
  pub remove_ssh_public_key_on_completion : Bool
  pub decommissioning : Decommissioning

pub record NodeKeepalivedConfig : Type 0 where
  pub enabled : Bool
  pub priority : String
  pub state : String

pub record ManagementPanelConfig : Type 0 where
  pub enabled : Bool
  pub type : String

-- An element of `RangeList`, which is an `interface{}`: a JSON number, of which only the integer
-- part is used, a text, or any other JSON value.
pub data RangeItem : Type 0 where
  number : ℤ → RangeItem
  text : String → RangeItem
  other : RangeItem

pub record FirewallPortRule : Type 0 where
  pub enabled : Bool
  pub protocol : List String
  pub range_list : List RangeItem
  pub sources : List String
  pub action : String
  pub comment : String

pub record FirewallProfile : Type 0 where
  pub enabled : Bool
  pub name : String

pub record FirewallConfig : Type 0 where
  pub configuration_enabled : Bool
  pub profiles : List FirewallProfile
  pub ports : List FirewallPortRule

pub record NodeConfig : Type 0 where
  pub enabled : Option Bool
  pub ssh_fqdn_or_ip : String
  pub username : String
  pub password : String
  pub private_key_path : String
  pub private_key_password : String
  pub use_ssh_automatic_key_pair : Bool
  pub ssh_port : ℤ
  pub role : String
  pub new_hostname : String
  pub reboot_on_completion : Bool
  pub storage_enabled : Bool
  pub scripts_enabled : Bool
  pub keepalived : NodeKeepalivedConfig
  pub management_panel : ManagementPanelConfig
  pub firewall : FirewallConfig
  pub labels : List (String × String)

-- `config_path` is set after loading and is not read by the modelled code.
pub record Config : Type 0 where
  pub global_settings : GlobalSettings
  pub nodes : List NodeConfig
