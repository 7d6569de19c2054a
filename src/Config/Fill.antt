-- ===== src/Config/Fill.antt =====
-- `Validate`'s sequel in `Load` of internal/config/config.go: `ApplyDefaults`, and the two together.
pub mod Filled
use docker_swarm_cluster_con.Prelude.{
  ℕ, String, ◌≡◌, ◌≢◌, refl, Bool, true, false, List, [], ◌∷◌, arith, Option, none, some, Result,
  ok, err, ◌==◌, if◌then◌else◌, eq_iff, map, All, ◌>>=◌, ◌>>◌, ap, ◌∙◌, ℤ, pos, is_zero, ◌⊎◌, inl,
  inr, Bool-cases, Option-cases,
}
use docker_swarm_cluster_con.Defaults.{
  micro_ceph_snap_channel, ceph_fs_mount_path, ceph_loop_device_directory, ceph_loop_device_size_gb,
  ceph_pool_name, rados_gateway_port, ssh_port, ssh_username, overlay_provider_none,
}
use docker_swarm_cluster_con.Config.Types.{
  Config, NodeConfig, GlobalSettings, DistributedStorage, MicroCephProviderConfig,
}
use docker_swarm_cluster_con.Config.Validate.{ConfigError, validate}

-- `if x == "" { x = d }`, and the same for a number and for a pointer to a Boolean
abbrev or_text : String → String → String
or_text x d = if x == "" then d else x

abbrev or_number : ℤ → ℤ → ℤ
or_number x d = if is_zero x then d else x

abbrev or_true : Option Bool → Option Bool
or_true none = some true
or_true (some b) = some b

default_microceph : MicroCephProviderConfig → MicroCephProviderConfig
default_microceph mc = record mc {
  snap_channel = or_text mc.snap_channel micro_ceph_snap_channel;
  mount_path = or_text mc.mount_path ceph_fs_mount_path;
  loop_device_directory = or_text mc.loop_device_directory ceph_loop_device_directory;
  loop_device_size_gb = or_number mc.loop_device_size_gb ceph_loop_device_size_gb;
  rados_gateway_port = or_number mc.rados_gateway_port rados_gateway_port;
}

default_storage : DistributedStorage → DistributedStorage
unfolding default_microceph
default_storage ds = record ds {
  provider = or_text ds.provider "microceph";
  pool_name = or_text ds.pool_name ceph_pool_name;
  microceph = default_microceph ds.microceph;
}

default_node : NodeConfig → NodeConfig
default_node n = record n {
  enabled = or_true n.enabled;
  username = or_text n.username ssh_username;
  ssh_port = or_number n.ssh_port ssh_port;
}

unfoldable pub apply_defaults : Config → Config
unfolding default_storage default_node
apply_defaults c = record {
  global_settings = record c.global_settings {
    overlay_provider = or_text c.global_settings.overlay_provider overlay_provider_none;
    distributed_storage = default_storage c.global_settings.distributed_storage;
  };
  nodes = map default_node c.nodes;
}

pub data LoadError : Type 0 where
  read_failed : LoadError
  parse_failed : LoadError
  invalid : ConfigError → LoadError

checked : Result ConfigError (Unit {0}) → Config → Result LoadError Config
checked (ok _) c = ok (apply_defaults c)
checked (err e) c = err (invalid e)

-- `Load` on a file's content, where `decode` is what `json.Unmarshal` makes of it.
unfoldable pub load :
    {File : Type 0} → (File → Option Config) → Option File → Result LoadError Config
unfolding checked
load decode none = err read_failed
load decode (some file) = elim (decode file) [
  | none ↦ err parse_failed
  | some c ↦ checked (validate c) c
]
