-- ===== src/Controller/Types.antt =====
-- The messages and the state of internal/controller/controller.go and internal/controller/store.go.
-- Times are numbers; CPU and memory are the client's numbers, which the controller only stores.
use docker_swarm_cluster_con.Prelude.{ℕ, String, Bool, false, List, [], ℤ}

pub record ServeOptions : Type 0 where
  pub listen_addr : String
  pub state_dir : String
  pub advertise_addr : String
  pub min_managers : ℕ
  pub min_workers : ℕ
  pub wait_for_minimum : Bool
  pub ssh_user : String
  pub keep_ssh_keys : Bool

pub record MasterInitOptions : Type 0 where
  pub state_dir : String
  pub enable_storage : Bool
  pub storage_type : String

pub record MasterResetOptions : Type 0 where
  pub state_dir : String
  pub cleanup_state_dir : Bool

pub record NodeRegistration : Type 0 where
  pub hostname : String
  pub role : String
  pub ip : String
  pub os : String
  pub cpu : ℤ
  pub memory_mb : ℤ
  pub docker_version : String
  pub gluster_capable : Bool
  pub storage_enabled : Bool
  pub deploy_portainer : Bool
  pub timestamp : ℕ
  pub action : String

-- A `NodeResponseStatus` is a text; a client may read any other from the wire.
pub data NodeResponseStatus : Type 0 where
  ready waiting : NodeResponseStatus
  other : String → NodeResponseStatus

pub record NodeResponse : Type 0 where
  pub status : NodeResponseStatus
  pub swarm_role : String
  pub swarm_join_token : String
  pub swarm_manager_addr : String
  pub overlay_type : String
  pub overlay_payload : String
  pub storage_enabled : Bool
  pub storage_type : String
  pub storage_ready : Bool
  pub storage_nodes : List String
  pub deploy_portainer : Bool
  pub ssh_public_key : String

pub record ClusterState : Type 0 where
  pub nodes : List NodeRegistration
  pub storage_enabled : Bool
  pub storage_type : String
  pub storage_orchestrated : Bool
  pub storage_ready : Bool
  pub swarm_orchestrated : Bool
  pub portainer_deployer_hostname : String

-- `clusterState{}`
abbrev pub zero_state : ClusterState
zero_state = record {
  nodes = [];
  storage_enabled = false;
  storage_type = "";
  storage_orchestrated = false;
  storage_ready = false;
  swarm_orchestrated = false;
  portainer_deployer_hostname = "";
}
