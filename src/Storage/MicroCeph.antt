-- ===== src/Storage/MicroCeph.antt =====
-- internal/storage/microceph.go: the provider on MicroCeph. Its operations on the members of the
-- cluster (Members), on disks (Disks) and on the cluster's health (Health), which all act through
-- the SSH pool's `Run`, the parameter `run`; `sleep` is `time.Sleep`. Log lines are left out, and
-- the parts of the code that only feed them.
pub mod Members
pub mod Polling
pub mod Health
pub mod Disks
pub mod Mounts
pub mod Pools
pub mod Gateway
pub mod Status
pub mod Implementation
use docker_swarm_cluster_con.Prelude.{ok, String}
use docker_swarm_cluster_con.Prelude.Action.{Action}
use docker_swarm_cluster_con.Ssh.{RunResult}

pub data CephError : Type 0 where
  install_failed bootstrap_failed status_failed no_address add_failed no_token join_failed :
      CephError

abbrev pub status_cmd : String
status_cmd = "microceph status"

module _ {W : Type 0} (run : String → String → W → RunResult × W) where
  -- `sshPool.Run`, the error being part of what it gives.
  unfoldable pub exec : {E : Type 0} → (host cmd : String) → Action W E RunResult
  exec host cmd w = let (r, w₁) = run host cmd w in (ok r, w₁)
