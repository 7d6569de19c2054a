-- ===== src/Defaults.antt =====
-- internal/defaults/defaults.go: the constants that the modelled code uses, and the networks.
use docker_swarm_cluster_con.Prelude.{ℕ, String, Bool, true, false, List, [], ◌∷◌, ℤ, pos}

abbrev pub external_network_name : String
external_network_name = "DOCKER-SWARM-SERVICES-EXTERNAL"

abbrev pub internal_network_name : String
internal_network_name = "DOCKER-SWARM-SERVICES-INTERNAL"

pub record NetworkConfig : Type 0 where
  pub name : String
  pub subnet : String
  pub gateway : String
  pub internal : Bool

unfoldable pub external_network : NetworkConfig
external_network = record {
  name = external_network_name;
  subnet = "10.20.0.0/20";
  gateway = "10.20.0.1";
  internal = false;
}

unfoldable pub internal_network : NetworkConfig
internal_network = record {
  name = internal_network_name;
  subnet = "10.10.0.0/20";
  gateway = "10.10.0.1";
  internal = true;
}

unfoldable pub all_networks : List NetworkConfig
unfolding external_network internal_network
all_networks = external_network ∷ internal_network ∷ []

-- MicroCeph and CephFS
abbrev pub micro_ceph_snap_channel : String
micro_ceph_snap_channel = "reef/stable"

abbrev pub ceph_fs_mount_path : String
ceph_fs_mount_path = "/mnt/MicroCephFS/docker-swarm-0001"

abbrev pub ceph_loop_device_directory : String
ceph_loop_device_directory = "/var/snap/microceph/common"

abbrev pub ceph_loop_device_size_gb : ℤ
ceph_loop_device_size_gb = pos 4

abbrev pub ceph_pool_name : String
ceph_pool_name = "docker-swarm"

abbrev pub rados_gateway_port : ℤ
rados_gateway_port = pos 7480

-- SSH
abbrev pub ssh_port : ℤ
ssh_port = pos 22

abbrev pub ssh_username : String
ssh_username = "root"

abbrev pub overlay_provider_none : String
overlay_provider_none = "none"

-- Keepalived
abbrev pub keepalived_base_priority : ℕ
keepalived_base_priority = 100

abbrev pub keepalived_vip_scan_timeout : ℤ
keepalived_vip_scan_timeout = pos 60

abbrev pub s3_admin_user : String
s3_admin_user = "dscotctl-s3-admin"

abbrev pub s3_admin_display_name : String
s3_admin_display_name = "DSCOTCTL S3 Admin"
