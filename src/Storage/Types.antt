-- ===== src/Storage/Types.antt =====
-- The types of internal/storage/provider.go. The interface `Provider` is a record of its methods, each
-- an action on the world `W` with errors in `E`; the SSH pool that every method takes is part of the
-- world. `Name`, which only log lines use, and the methods that no modelled code calls are left out.
use docker_swarm_cluster_con.Prelude.{String, Bool, List, Option, ℤ, ℕ}
use docker_swarm_cluster_con.Prelude.Action.{Action}

pub record RadosGatewayInfo : Type 0 where
  pub endpoints : List String
  pub access_key : String
  pub secret_key : String
  pub user_id : String
  pub bucket_name : String

pub record ClusterCredentials : Type 0 where
  pub admin_key : String
  pub mon_addrs : String
  pub fsid : String
  pub fs_name : String
  pub mon_addr_opt : String

pub record NodeStatus : Type 0 where
  pub name : String
  pub healthy : Bool
  pub role : String

pub record ClusterStatus : Type 0 where
  pub healthy : Bool
  pub node_count : ℤ
  pub storage_used : ℤ
  pub storage_total : ℤ
  pub nodes : List NodeStatus

pub record NodeInfo : Type 0 where
  pub ssh_fqdn_or_ip : String
  pub new_hostname : String
  pub role : String

pub record S3Credentials : Type 0 where
  pub endpoints : List String
  pub access_key : String
  pub secret_key : String
  pub user_id : String
  pub bucket_name : String

-- The pointer that `EnableRadosGateway` returns can be nil.
pub record Provider (E W : Type 0) : Type 0 where
  pub mount_path : String
  pub install : (node : String) → Action W E (Unit {0})
  pub bootstrap : (primary : String) → Action W E (Unit {0})
  pub generate_join_token : (primary joining : String) → Action W E String
  pub join : (node token : String) → Action W E (Unit {0})
  pub add_storage : (node : String) → Action W E (Unit {0})
  pub verify_osds_up_for_host : (mon osd_host osd_hostname : String) → Action W E (Unit {0})
  pub wait_for_cluster_health : (mon : String) (expected_osds : ℕ) → Action W E (Unit {0})
  pub verify_cluster_health_for_mount : (mon : String) → Action W E (Unit {0})
  pub create_pool : (primary pool : String) → Action W E (Unit {0})
  pub get_cluster_credentials :
      (primary : String) (mons : List String) (overlay : String) → Action W E ClusterCredentials
  pub mount_with_credentials : (node pool : String) → ClusterCredentials → Action W E (Unit {0})
  pub status : (node : String) → Action W E ClusterStatus
  pub enable_rados_gateway :
      (osds : List String) (port : ℤ) (overlay : String) → Action W E (Option RadosGatewayInfo)
  pub create_s3_bucket : (primary_osd bucket : String) (port : ℤ) → Action W E (Unit {0})
