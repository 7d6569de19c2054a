-- ===== src/Config/Samples.antt =====
-- A configuration as a user may write it, with most values left to the defaults.
use docker_swarm_cluster_con.Prelude.{true, false, [], ◌∷◌, none, pos}
use docker_swarm_cluster_con.Config.Types.{
  Config, NodeConfig, GlobalSettings, MicroCephProviderConfig, FirewallConfig,
}

abbrev pub no_firewall : FirewallConfig
no_firewall = record { configuration_enabled = false; profiles = []; ports = [] }

abbrev pub m1 : NodeConfig
m1 = record {
  enabled = none;
  ssh_fqdn_or_ip = "m1";
  username = "";
  password = "secret";
  private_key_path = "";
  private_key_password = "";
  use_ssh_automatic_key_pair = false;
  ssh_port = pos 0;
  role = "manager";
  new_hostname = "";
  reboot_on_completion = false;
  storage_enabled = true;
  scripts_enabled = true;
  keepalived = record { enabled = false; priority = ""; state = "" };
  management_panel = record { enabled = false; type = "" };
  firewall = no_firewall;
  labels = ("Zone", "a") ∷ [];
}

abbrev pub w1 : NodeConfig
w1 = record m1 { ssh_fqdn_or_ip = "w1"; role = "worker" }

abbrev pub microceph : MicroCephProviderConfig
microceph = record {
  snap_channel = "";
  enable_updates = false;
  mount_path = "";
  allow_loop_devices = false;
  loop_device_directory = "";
  loop_device_size_gb = pos 0;
  loop_device_thin_provision = false;
  enable_rados_gateway = false;
  rados_gateway_port = pos 0;
  rados_gateway_multisite = false;
  s3_bucket_name = "";
  s3_credentials_file = "";
}

abbrev pub settings : GlobalSettings
settings = record {
  cluster_name = "c";
  overlay_provider = "";
  overlay_config = "";
  set_root_password = "";
  ssh_key_type = "";
  service_definition_directory = "";
  distributed_storage = record {
    enabled = true;
    provider = "";
    force_recreation = false;
    pool_name = "";
    eligible_disks = record { inclusion_expression = []; exclusion_expression = [] };
    microceph = microceph;
  };
  keepalived = record {
    enabled = false;
    vip = "";
    interface = "";
    router_id = "";
    auth_pass = "";
    vip_scan_timeout = pos 0;
  };
  pre_scripts = [];
  post_scripts = [];
  remove_ssh_public_key_on_completion = false;
  decommissioning = record {
    enabled = false;
    disconnect_overlays = false;
    remove_storage = none;
    remove_docker_swarm = none;
  };
}

abbrev pub cluster : Config
cluster = record { global_settings = settings; nodes = m1 ∷ w1 ∷ [] }
