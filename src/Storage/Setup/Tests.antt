-- ===== src/Storage/Setup/Tests.antt =====
-- Runs of the set-up of internal/storage/provider.go: one manager, a node of both roles and a worker.
use docker_swarm_cluster_con.Prelude.{
  ◌≡◌, refl, String, true, false, List, [], ◌∷◌, Option, none, ok, err, ◌&&◌, ◌||◌, ◌^^◌,
}
use docker_swarm_cluster_con.Prelude.Action.{Action, fail, ◌>>=◌, wrap, each, best_effort, return}
use docker_swarm_cluster_con.Config.{Config}
use docker_swarm_cluster_con.Config.Samples.{cluster, settings, microceph}
use docker_swarm_cluster_con.Config.Nodes.{contains_text}
use docker_swarm_cluster_con.Config.Nodes.Partition.{Distinct}
use docker_swarm_cluster_con.Ssh.{RunResult}
use docker_swarm_cluster_con.Storage.Types.{Provider, NodeInfo, ClusterCredentials, S3Credentials}
use docker_swarm_cluster_con.Storage.Setup.Nodes.{storage_nodes_unique}
use docker_swarm_cluster_con.Storage.Setup.{
  setup_cluster, storage_nodes, should_add_storage, no_managers,
}
use docker_swarm_cluster_con.Storage.Setup.Planned.{
  Calls, Answers, noting, commanded, planned, note, setup_cluster-planned,
}

-- A provider whose calls all succeed and change nothing.
abbrev idle : Action (Unit {0}) String (Unit {0})
idle w = (ok tt, w)

abbrev creds : ClusterCredentials
creds = record {
  admin_key = "k";
  mon_addrs = "10.0.0.1";
  fsid = "f";
  fs_name = "fs";
  mon_addr_opt = "10.0.0.1:6789";
}

abbrev willing : Provider String (Unit {0})
willing = record {
  mount_path = "/mnt/cephfs";
  install = λ n. idle;
  bootstrap = λ n. idle;
  generate_join_token = λ p n w. (ok "token", w);
  join = λ n t. idle;
  add_storage = λ n. idle;
  verify_osds_up_for_host = λ m n h. idle;
  wait_for_cluster_health = λ m k. idle;
  verify_cluster_health_for_mount = λ m. idle;
  create_pool = λ p pool. idle;
  get_cluster_credentials = λ p ms o w. (ok creds, w);
  mount_with_credentials = λ n pool creds. idle;
  status = λ n w. (err "unknown", w);
  enable_rados_gateway = λ ns port o w. (ok none, w);
  create_s3_bucket = λ n b port. idle;
}

abbrev silent : RunResult
silent = record { stdout = ""; stderr = ""; failed = false }

abbrev run : String → String → Unit {0} → RunResult × Unit {0}
run host cmd w = (silent, w)

abbrev marshal : S3Credentials → Option String
marshal info = none

abbrev same_dir : String → String
same_dir path = path

abbrev info : String → String → NodeInfo
info host role = record { ssh_fqdn_or_ip = host; new_hostname = ""; role = role }

abbrev infos : List (String × NodeInfo)
infos =
    ("m1", info "m1" "manager") ∷ (("b1", info "b1" " Both ") ∷ (("w1", info "w1" "worker") ∷ []))

abbrev managers : List String
managers = "m1" ∷ ("b1" ∷ [])

abbrev workers : List String
workers = "b1" ∷ ("w1" ∷ [])

only_storage : storage_nodes infos managers workers ≡ workers
unfolding storage_nodes
only_storage = refl

no_managers_run :
    (setup_cluster run willing marshal same_dir infos cluster [] workers tt).0 ≡ err no_managers
unfolding setup_cluster fail
no_managers_run = refl

storage_nodes_unique_example :
    Distinct (storage_nodes infos managers workers)
    × ((h : String)
        → contains_text h (storage_nodes infos managers workers)
          ≡ ((contains_text h managers || contains_text h workers) && should_add_storage infos h))
storage_nodes_unique_example = storage_nodes_unique infos managers workers

-- The same cluster, with a gateway, on a provider that notes its calls.
abbrev with_gateway : Config
with_gateway = record cluster {
  global_settings = record settings {
    distributed_storage = record cluster.global_settings.distributed_storage {
      microceph = record microceph { enable_rados_gateway = true; s3_bucket_name = "b" };
    };
  };
}

abbrev answers : Answers String
answers = record {
  error = λ call calls. none;
  token = λ n calls. n ^^ "-token";
  credentials = λ calls. creds;
  gateway = λ calls. none;
  optional = λ calls. err "slow";
  status = λ calls. err "unknown";
  command = λ host cmd calls. record silent { failed = true };
}

abbrev calls : Calls
calls =
    (setup_cluster (commanded answers) (noting answers "/mnt") marshal same_dir infos with_gateway
      managers workers []).1

noting_run :
    setup_cluster
      (commanded answers)
      (noting answers "/mnt")
      marshal
      same_dir
      infos
      with_gateway
      managers
      workers
      []
    ≡ (ok tt, calls)
unfolding setup_cluster ◌>>=◌ wrap each best_effort return note
noting_run = refl

setup_cluster-planned_example :
    calls ≡ planned answers infos with_gateway "m1" ("b1" ∷ []) workers []
setup_cluster-planned_example =
    setup_cluster-planned answers "/mnt" marshal same_dir infos with_gateway "m1" ("b1" ∷ [])
      workers [] calls noting_run
