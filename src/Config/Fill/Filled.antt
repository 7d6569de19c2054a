-- ===== src/Config/Fill/Filled.antt =====
-- What `Load` and `ApplyDefaults` of internal/config/config.go guarantee.
use docker_swarm_cluster_con.Prelude.{
  String, ◌≡◌, ◌≢◌, refl, Bool, false, List, [], ◌∷◌, arith, Option, none, some, ◌==◌, eq_iff, map,
  ℤ, pos, true, ◌⊎◌,
}
use docker_swarm_cluster_con.Defaults.{
  micro_ceph_snap_channel, ceph_fs_mount_path, ceph_loop_device_directory, ceph_loop_device_size_gb,
  ceph_pool_name, rados_gateway_port, ssh_port, ssh_username,
}
use docker_swarm_cluster_con.Config.Types.{Config, NodeConfig, DistributedStorage}
use docker_swarm_cluster_con.Config.Fill.{
  or_text, or_number, or_true, default_storage, default_node, apply_defaults,
}

-- A field after the defaults: the default where it was empty, and what it was otherwise.
abbrev pub IsText : (default old new : String) → Type 0
IsText default old new = ((old ≡ "") × (new ≡ default)) ⊎ ((old ≢ "") × (new ≡ old))

abbrev pub IsNumber : (default old new : ℤ) → Type 0
IsNumber default old new = ((old ≡ pos 0) × (new ≡ default)) ⊎ ((old ≢ pos 0) × (new ≡ old))

abbrev pub IsEnabled : (old new : Option Bool) → Type 0
IsEnabled old new = ((old ≡ none) × (new ≡ some true)) ⊎ ((old ≢ none) × (new ≡ old))

-- The fields that `ApplyDefaults` fills, with the values that the code fills in; the other fields are
-- as they were.
pub record IsFilledNode (old new : NodeConfig) : Type 0 where
  pub enabled : IsEnabled old.enabled new.enabled
  pub username : IsText "root" old.username new.username
  pub ssh_port : IsNumber (pos 22) old.ssh_port new.ssh_port
  pub rest :
      record new { enabled = old.enabled; username = old.username; ssh_port = old.ssh_port } ≡ old

abbrev pub AreFilled : (old new : List NodeConfig) → Type 0
AreFilled [] [] = Unit
AreFilled (o ∷ os) (n ∷ ns) = IsFilledNode o n × AreFilled os ns
AreFilled _ _ = ⊥

pub record IsFilledStorage (old new : DistributedStorage) : Type 0 where
  pub provider : IsText "microceph" old.provider new.provider
  pub pool_name : IsText "docker-swarm" old.pool_name new.pool_name
  pub snap_channel : IsText "reef/stable" old.microceph.snap_channel new.microceph.snap_channel
  pub mount_path :
      IsText "/mnt/MicroCephFS/docker-swarm-0001" old.microceph.mount_path new.microceph.mount_path
  pub loop_device_directory :
      IsText "/var/snap/microceph/common" old.microceph.loop_device_directory
        new.microceph.loop_device_directory
  pub loop_device_size_gb :
      IsNumber (pos 4) old.microceph.loop_device_size_gb new.microceph.loop_device_size_gb
  pub rados_gateway_port :
      IsNumber (pos 7480) old.microceph.rados_gateway_port new.microceph.rados_gateway_port
  pub rest :
      record new {
        provider = old.provider;
        pool_name = old.pool_name;
        microceph = record new.microceph {
          snap_channel = old.microceph.snap_channel;
          mount_path = old.microceph.mount_path;
          loop_device_directory = old.microceph.loop_device_directory;
          loop_device_size_gb = old.microceph.loop_device_size_gb;
          rados_gateway_port = old.microceph.rados_gateway_port;
        };
      }
      ≡ old

pub record IsFilled (old new : Config) : Type 0 where
  pub overlay_provider :
      IsText "none" old.global_settings.overlay_provider new.global_settings.overlay_provider
  pub storage :
      IsFilledStorage old.global_settings.distributed_storage
        new.global_settings.distributed_storage
  pub rest :
      record new.global_settings {
        overlay_provider = old.global_settings.overlay_provider;
        distributed_storage = old.global_settings.distributed_storage;
      }
      ≡ old.global_settings
  pub nodes : AreFilled old.nodes new.nodes

or_text_idem : (x d : String) → or_text (or_text x d) d ≡ or_text x d
or_text_idem x d = ground (arith, eq_iff x "", eq_iff d "")

or_number_idem : (x d : ℤ) → or_number (or_number x d) d ≡ or_number x d
or_number_idem x d = ground arith

literal-ne : (d : String) → (d == "") ≡ false → d ≢ ""
literal-ne d h = ground (arith, eq_iff d "")

default_node_idem : (n : NodeConfig) → default_node (default_node n) ≡ default_node n
unfolding default_node
default_node_idem n = cc (
  or_text_idem n.username ssh_username,
  or_number_idem n.ssh_port ssh_port,
  or_true-idem n.enabled,
)
  where
    or_true-idem : (b : Option Bool) → or_true (or_true b) ≡ or_true b
    or_true-idem none = refl
    or_true-idem (some b) = refl

default_nodes_idem :
    (ns : List NodeConfig) → map default_node (map default_node ns) ≡ map default_node ns
default_nodes_idem [] = refl
default_nodes_idem (n ∷ ns) = cc (default_node_idem n, default_nodes_idem ns)

default_storage_idem :
    (ds : DistributedStorage) → default_storage (default_storage ds) ≡ default_storage ds
unfolding default_storage
default_storage_idem ds = cc (
  or_text_idem ds.provider "microceph",
  or_text_idem ds.pool_name ceph_pool_name,
  or_text_idem ds.microceph.snap_channel micro_ceph_snap_channel,
  or_text_idem ds.microceph.mount_path ceph_fs_mount_path,
  or_text_idem ds.microceph.loop_device_directory ceph_loop_device_directory,
  or_number_idem ds.microceph.loop_device_size_gb ceph_loop_device_size_gb,
  or_number_idem ds.microceph.rados_gateway_port rados_gateway_port,
)

-- Filling in the defaults a second time changes nothing.
pub apply_defaults_idem : (c : Config) → apply_defaults (apply_defaults c) ≡ apply_defaults c
unfolding apply_defaults
apply_defaults_idem c = cc (
  or_text_idem c.global_settings.overlay_provider "none",
  default_storage_idem c.global_settings.distributed_storage,
  default_nodes_idem c.nodes,
)
