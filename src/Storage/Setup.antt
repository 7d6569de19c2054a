-- ===== src/Storage/Setup.antt =====
-- `SetupCluster` of internal/storage/provider.go, phase by phase, over any provider. `run` is the SSH
-- pool's `Run`; `infos` is `nodeInfoMap`, empty where the source has nil. Log lines are left out, and
-- the errors that are only logged with them.
pub mod Nodes
pub mod Planned
pub mod Tests
use docker_swarm_cluster_con.Prelude.{
  String, Bool, true, false, ◌&&◌, ◌||◌, not, List, [], ◌∷◌, ◌++◌, Option, none, some, ok, err,
  ◌==◌, if◌then◌else◌, length, filter, to_lower, trim_space,
}
use docker_swarm_cluster_con.Prelude.Action.{
  Action, ◌>>=◌, ◌>>◌, return, fail, wrap, best_effort, each,
}
use docker_swarm_cluster_con.Config.{Config, DistributedStorage, MicroCephProviderConfig}
use docker_swarm_cluster_con.Config.Nodes.{contains_text}
use docker_swarm_cluster_con.Ssh.{RunResult, of_host}
use docker_swarm_cluster_con.Storage.Types.{
  Provider, NodeInfo, ClusterCredentials, RadosGatewayInfo, S3Credentials,
}
use docker_swarm_cluster_con.Storage.Files.{
  FileError, write_s3_credentials_file, create_mount_helper_script,
}

pub data SetupError (E : Type 0) : Type 0 where
  no_nodes no_managers : SetupError E
  install_failed token_failed join_failed storage_failed mount_failed :
      (node : String) → E → SetupError E
  bootstrap_failed pool_failed credentials_failed unhealthy gateway_failed : E → SetupError E

-- The nodes that are not seen yet, each once: the loop that builds `allNodes`.
unfoldable pub unseen : List String → List String → List String
unfolding contains_text
unseen seen [] = []
unseen seen (n ∷ ns) = elim (contains_text n seen) [
  | true ↦ unseen seen ns
  | false ↦ n ∷ unseen (n ∷ seen) ns
]

-- The two loops, one after the other.
unfoldable pub all_nodes : (managers workers : List String) → List String
unfolding unseen
all_nodes managers workers = unseen [] (managers ++ workers)

unfoldable pub role_takes_storage : String → Bool
unfolding to_lower trim_space
role_takes_storage text =
    let role = to_lower (trim_space text) in
    role == "worker" || (role == "both" || (role == "all" || role == ""))

unfoldable pub should_add_storage : List (String × NodeInfo) → String → Bool
unfolding of_host role_takes_storage
should_add_storage infos node = elim (of_host node infos) [
  | none ↦ false
  | some info ↦ role_takes_storage info.role
]

unfoldable pub storage_nodes :
    List (String × NodeInfo) → (managers workers : List String) → List String
unfolding all_nodes should_add_storage
storage_nodes infos managers workers =
    filter (should_add_storage infos) (all_nodes managers workers)

abbrev hostname_cmd : String
hostname_cmd = "hostname -f 2>/dev/null || hostname"

module _ {E W : Type 0} (run : String → String → W → RunResult × W) (provider : Provider E W) where
  -- Phase 1.
  unfoldable pub start_primary : (primary : String) → Action W (SetupError E) (Unit {0})
  start_primary primary = do
    wrap (install_failed primary) (provider.install primary)
    wrap bootstrap_failed (provider.bootstrap primary)

  -- A turn of phases 2 and 3.
  unfoldable pub install_and_join : (primary node : String) → Action W (SetupError E) (Unit {0})
  install_and_join primary node = do
    wrap (install_failed node) (provider.install node)
    token ← wrap (token_failed node) (provider.generate_join_token primary node)
    wrap (join_failed node) (provider.join node token)

  unfoldable pub osd_hostname : (node : String) → Action W (SetupError E) String
  unfolding trim_space
  osd_hostname node w =
      let (r, w₁) = run node hostname_cmd w in
      let name = trim_space r.stdout in (ok (if name == "" then node else name), w₁)

  -- A turn of phase 4.
  unfoldable pub add_osd : (primary node : String) → Action W (SetupError E) (Unit {0})
  unfolding osd_hostname
  add_osd primary node = do
    wrap (storage_failed node) (provider.add_storage node)
    name ← osd_hostname node
    best_effort (provider.verify_osds_up_for_host primary node name)

  unfoldable pub add_osds : (primary : String) → List String → Action W (SetupError E) (Unit {0})
  unfolding add_osd
  add_osds primary [] = return tt
  add_osds primary (n ∷ ns) = do
    each (add_osd primary) (n ∷ ns)
    best_effort (provider.wait_for_cluster_health primary (length (n ∷ ns)))

  -- The helper script goes to the first worker.
  unfoldable pub write_helper :
      (workers : List String) → ClusterCredentials → Action W (SetupError E) (Unit {0})
  unfolding create_mount_helper_script
  write_helper [] creds = return tt
  write_helper (n ∷ ns) creds =
      best_effort (create_mount_helper_script run n provider.mount_path creds)

  -- Phases 5 and 6.
  unfoldable pub pool_and_mounts :
      Config
      → (primary : String) → (managers workers : List String) → Action W (SetupError E) (Unit {0})
  unfolding write_helper to_lower trim_space
  pool_and_mounts c primary managers workers = do
    let pool = c.global_settings.distributed_storage.pool_name
    wrap pool_failed (provider.create_pool primary pool)
    creds ← wrap credentials_failed (
        provider.get_cluster_credentials primary managers
          (to_lower (trim_space c.global_settings.overlay_provider)))
    wrap unhealthy (provider.verify_cluster_health_for_mount primary)
    each (λ n. wrap (mount_failed n) (provider.mount_with_credentials n pool creds)) workers
    write_helper workers creds

  -- Step 8a: the bucket's name is kept only if the bucket was made.
  unfoldable pub create_bucket :
      MicroCephProviderConfig
      → (osd : String) → RadosGatewayInfo
      → Action W (SetupError E) RadosGatewayInfo
  create_bucket mc osd info w =
      if mc.s3_bucket_name == ""
      then (ok info, w)
      else let (r, w₁) = provider.create_s3_bucket osd mc.s3_bucket_name mc.rados_gateway_port w in
        elim r [
          | ok _ ↦ (ok (record info { bucket_name = mc.s3_bucket_name }), w₁)
          | err _ ↦ (ok info, w₁)
        ]

  module _ (marshal_indent : S3Credentials → Option String) (dir : String → String) where
    unfoldable pub store_credentials :
        MicroCephProviderConfig
        → (osd : String) → RadosGatewayInfo
        → Action W (SetupError E) (Unit {0})
    unfolding write_s3_credentials_file
    store_credentials mc osd info =
        if mc.s3_credentials_file == ""
        then return tt
        else best_effort
            (write_s3_credentials_file run marshal_indent dir osd mc.s3_credentials_file info)

    -- Steps 8a and 8b, which need a gateway on some node.
    unfoldable pub use_gateway :
        MicroCephProviderConfig
        → (osd : String) → Option RadosGatewayInfo
        → Action W (SetupError E) (Unit {0})
    unfolding create_bucket store_credentials
    use_gateway mc osd none = return tt
    use_gateway mc osd (some info) = do
      info ← create_bucket mc osd info
      store_credentials mc osd info

    -- Step 8.
    unfoldable pub enable_gateway :
        Config → (workers : List String) → Action W (SetupError E) (Unit {0})
    unfolding use_gateway to_lower trim_space
    enable_gateway c [] = return tt
    enable_gateway c (n ∷ ns) =
        let mc = c.global_settings.distributed_storage.microceph in
        elim mc.enable_rados_gateway [
          | false ↦ return tt
          | true ↦ do
            info ← wrap gateway_failed (
                provider.enable_rados_gateway (n ∷ ns) mc.rados_gateway_port
                  (to_lower (trim_space c.global_settings.overlay_provider)))
            use_gateway mc n info
        ]

    -- Everything after the checks of the node lists.
    unfoldable pub setup_nodes :
        List (String × NodeInfo)
        → Config
        → (primary : String) → (others workers : List String) → Action W (SetupError E) (Unit {0})
    unfolding start_primary install_and_join add_osds storage_nodes pool_and_mounts enable_gateway
    setup_nodes infos c primary others workers = do
      start_primary primary
      each (install_and_join primary) others
      each (install_and_join primary) workers
      add_osds primary (storage_nodes infos (primary ∷ others) workers)
      pool_and_mounts c primary (primary ∷ others) workers
      enable_gateway c workers
      best_effort (provider.status primary)

    unfoldable pub setup_cluster :
        List (String × NodeInfo)
        → Config
        → (managers workers : List String) → Action W (SetupError E) (Unit {0})
    unfolding setup_nodes
    setup_cluster infos c [] [] = fail no_nodes
    setup_cluster infos c [] (n ∷ ns) = fail no_managers
    setup_cluster infos c (primary ∷ others) workers = setup_nodes infos c primary others workers
