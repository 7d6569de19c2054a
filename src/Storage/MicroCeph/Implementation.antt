-- ===== src/Storage/MicroCeph/Implementation.antt =====
-- MicroCeph as a provider: the methods of `MicroCephProvider` in internal/storage/microceph.go fill the
-- interface `Provider` of internal/storage/provider.go; and `Mount`.
use docker_swarm_cluster_con.Prelude.{ℕ, String, Bool, List, [], ◌∷◌, Option, ℤ}
use docker_swarm_cluster_con.Prelude.Action.{Action, ◌>>=◌, wrap}
use docker_swarm_cluster_con.Config.{Config}
use docker_swarm_cluster_con.Ssh.{RunResult}
use docker_swarm_cluster_con.IpDetect.Networks.{Decoders}
use docker_swarm_cluster_con.Storage.Types.{Provider}
use docker_swarm_cluster_con.Storage.MicroCeph.{CephError}
use docker_swarm_cluster_con.Storage.MicroCeph.Polling.{PollError}
use docker_swarm_cluster_con.Storage.MicroCeph.Members
use docker_swarm_cluster_con.Storage.MicroCeph.Disks
use docker_swarm_cluster_con.Storage.MicroCeph.Health
use docker_swarm_cluster_con.Storage.MicroCeph.Pools
use docker_swarm_cluster_con.Storage.MicroCeph.Mounts
use docker_swarm_cluster_con.Storage.MicroCeph.Gateway
use docker_swarm_cluster_con.Storage.MicroCeph.Gateway.Buckets
use docker_swarm_cluster_con.Storage.MicroCeph.Status

pub data MicroCephError : Type 0 where
  of_members : CephError → MicroCephError
  of_disks : Disks.DiskError → MicroCephError
  of_poll : PollError → MicroCephError
  of_health : Health.HealthError → MicroCephError
  of_pools : Pools.CephPoolError → MicroCephError
  of_mounts : Mounts.MountError → MicroCephError
  of_gateway : Gateway.GatewayError → MicroCephError

-- What stands outside of the code: decoders, regular expressions, the hosts, the clock and the context.
pub record Environment (W : Type 0) : Type 0 where
  pub decoders : Decoders
  pub keys : Pools.KeyDecoders
  pub matches : String → String → Option Bool
  pub disks : String → Option (List Disks.ConfiguredDisk)
  pub tree : String → Option (List Health.OsdTreeNode)
  pub ceph_status : String → Option Health.CephStatus
  pub user_keys : String → Option (List (String × String))
  pub scan_number : String → ℤ → ℤ
  pub run : String → String → W → RunResult × W
  pub now : W → ℕ
  pub cancelled : W → Bool
  pub sleep : ℕ → W → W

module _ {W : Type 0} (e : Environment W) (c : Config) where
  abbrev pub micro_ceph : Provider MicroCephError W
  micro_ceph = record {
    mount_path = c.global_settings.distributed_storage.microceph.mount_path;
    install = λ n. wrap of_members (Members.install e.decoders e.run e.sleep c n);
    bootstrap = λ n. wrap of_members (Members.bootstrap e.decoders e.run e.sleep c n);
    generate_join_token =
        λ p n. wrap of_members (Members.generate_join_token e.decoders e.run e.sleep c p n);
    join = λ n t. wrap of_members (Members.join e.decoders e.run e.sleep c n t);
    add_storage = λ n. wrap of_disks (Disks.add_storage e.matches e.run e.sleep e.disks c n);
    verify_osds_up_for_host = λ m n h.
        wrap of_poll (Health.verify_osds_up_for_host e.run e.now e.cancelled e.sleep e.tree m h);
    wait_for_cluster_health = λ m k.
        wrap of_poll
          (Health.wait_for_cluster_health e.run e.now e.cancelled e.sleep e.ceph_status m k);
    verify_cluster_health_for_mount =
        λ m. wrap of_health (Health.verify_cluster_health_for_mount e.run e.ceph_status m);
    create_pool = λ p pool.
        wrap of_pools (Pools.create_pool e.decoders e.keys e.run e.now e.cancelled e.sleep p pool);
    get_cluster_credentials = λ p ms o.
        wrap of_pools
          (Pools.get_cluster_credentials e.decoders e.keys e.run e.now e.cancelled e.sleep p ms o);
    mount_with_credentials = λ n pool creds. wrap of_mounts (
        Mounts.mount_with_credentials e.run
          c.global_settings.distributed_storage.microceph.mount_path n pool creds);
    status = λ n. wrap of_members (Status.status e.scan_number e.run e.ceph_status n);
    enable_rados_gateway = λ ns port o.
        wrap of_gateway
          (Gateway.enable_rados_gateway e.decoders e.user_keys e.run e.sleep ns port o);
    create_s3_bucket =
        λ n b port. wrap of_gateway (Buckets.create_s3_bucket e.user_keys e.run e.sleep n b port);
  }

  -- The node is asked for the credentials itself, as its own monitor.
  unfoldable pub mount : (node pool : String) → Action W MicroCephError (Unit {0})
  unfolding Pools.get_cluster_credentials Mounts.mount_with_credentials
  mount node pool = do
    creds ← wrap of_pools (
        Pools.get_cluster_credentials e.decoders e.keys e.run e.now e.cancelled e.sleep node
          (node ∷ []) "")
    wrap of_mounts (
        Mounts.mount_with_credentials e.run
          c.global_settings.distributed_storage.microceph.mount_path node pool creds)
