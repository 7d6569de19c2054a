-- ===== src/Controller/Store/Commit.antt =====
-- How every mutator of internal/controller/store.go ends.
use docker_swarm_cluster_con.Prelude.{◌≡◌, arith, ok}
use docker_swarm_cluster_con.Controller.Types.{ClusterState}
use docker_swarm_cluster_con.Controller.Store.{
  FileStore, Faults, load_state, save_locked, saved, commit,
}

-- A change that is reported as made is in memory and on disk.
pub commit-ok :
    (f : Faults) (change : ClusterState → ClusterState) (s : FileStore) (c : ClusterState)
    → (commit f change s).0 ≡ ok c
    → ((commit f change s).1.state ≡ change s.state)
      × (load_state (commit f change s).1.file ≡ ok (change s.state))
unfolding commit save_locked saved load_state
commit-ok f change s c h = (ground arith, ground arith)
