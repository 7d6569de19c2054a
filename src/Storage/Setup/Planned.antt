-- ===== src/Storage/Setup/Planned.antt =====
-- Which calls `SetupCluster` of internal/storage/provider.go makes of a provider, and in which order.
use docker_swarm_cluster_con.Prelude.{
  ◌≡◌, refl, sym, ap, arith, String, List, [], ◌∷◌, Option, none, some, Result, ok, err, ℤ,
  to_lower, trim_space, Bool-cases, Result-cases, Option-cases, inl, inr, ◌==◌, ◌∙◌, if◌then◌else◌,
}
use docker_swarm_cluster_con.Prelude.Action.{
  Action, Keeps, keeps_rules, bind-Keeps, best_effort-Keeps, return-Keeps, fail-Keeps, all_next,
  Moves, bind-Moves, wrap-Moves, each-Moves,
}
use docker_swarm_cluster_con.Config.{Config, MicroCephProviderConfig}
use docker_swarm_cluster_con.Ssh.{RunResult}
use docker_swarm_cluster_con.Storage.Types.{
  Provider, NodeInfo, ClusterCredentials, ClusterStatus, RadosGatewayInfo, S3Credentials,
}
use docker_swarm_cluster_con.Storage.Files.{
  shell, s3_credentials, create_mount_helper_script, write_s3_credentials_file,
}
use docker_swarm_cluster_con.Storage.Setup.{
  SetupError, storage_nodes, start_primary, install_and_join, osd_hostname, add_osd, add_osds,
  write_helper, pool_and_mounts, use_gateway, create_bucket, store_credentials, enable_gateway,
  setup_nodes, setup_cluster,
}

-- The calls whose failure ends the set-up.
pub data Call : Type 0 where
  install bootstrap add_storage : (node : String) → Call
  generate_join_token join create_pool : (node text : String) → Call
  get_cluster_credentials : (primary : String) (mons : List String) (overlay : String) → Call
  verify_cluster_health_for_mount : (mon : String) → Call
  mount_with_credentials : (node pool : String) → ClusterCredentials → Call
  enable_rados_gateway : (osds : List String) (port : ℤ) (overlay : String) → Call

-- The calls so far, the newest first.
abbrev pub Calls : Type 0
Calls = List Call

-- What a provider answers, on the calls before.
pub record Answers (E : Type 0) : Type 0 where
  pub error : Call → Calls → Option E
  pub token : (node : String) → Calls → String
  pub credentials : Calls → ClusterCredentials
  pub gateway : Calls → Option RadosGatewayInfo
  pub optional : Calls → Result E (Unit {0})
  pub status : Calls → Result E ClusterStatus
  pub command : (host cmd : String) → Calls → RunResult

module _ {E : Type 0} (answers : Answers E) where
  unfoldable pub note : {A : Type 0} → Call → (Calls → A) → Action Calls E A
  note call value calls = elim (answers.error call calls) [
    | none ↦ (ok (value calls), call ∷ calls)
    | some e ↦ (err e, call ∷ calls)
  ]

  abbrev done : Calls → Unit {0}
  done calls = tt

  -- A provider that notes its calls and answers as it is told.
  abbrev pub noting : (mount_path : String) → Provider E Calls
  noting mount_path = record {
    mount_path = mount_path;
    install = λ n. note (install n) done;
    bootstrap = λ n. note (bootstrap n) done;
    generate_join_token = λ p n. note (generate_join_token p n) (answers.token n);
    join = λ n t. note (join n t) done;
    add_storage = λ n. note (add_storage n) done;
    verify_osds_up_for_host = λ m n h calls. (answers.optional calls, calls);
    wait_for_cluster_health = λ m k calls. (answers.optional calls, calls);
    verify_cluster_health_for_mount = λ m. note (verify_cluster_health_for_mount m) done;
    create_pool = λ p pool. note (create_pool p pool) done;
    get_cluster_credentials = λ p ms o. note (get_cluster_credentials p ms o) answers.credentials;
    mount_with_credentials = λ n pool creds. note (mount_with_credentials n pool creds) done;
    status = λ n calls. (answers.status calls, calls);
    enable_rados_gateway = λ ns port o. note (enable_rados_gateway ns port o) answers.gateway;
    create_s3_bucket = λ n b port calls. (answers.optional calls, calls);
  }

  abbrev pub commanded : String → String → Calls → RunResult × Calls
  commanded host cmd calls = (answers.command host cmd calls, calls)

  -- The plan, phase by phase.
  abbrev pub join_next : (primary node : String) → Calls → Calls
  join_next primary node calls =
      let before = install node ∷ calls in
      join node (answers.token node before) ∷ (generate_join_token primary node ∷ before)

  abbrev pub mounts_next :
      Config → (primary : String) → (managers workers : List String) → Calls → Calls
  mounts_next c primary managers workers calls =
      let pool = c.global_settings.distributed_storage.pool_name in
      let overlay = to_lower (trim_space c.global_settings.overlay_provider) in
      let before = create_pool primary pool ∷ calls in
      let creds = answers.credentials before in
      all_next (λ n calls. mount_with_credentials n pool creds ∷ calls) workers
        (verify_cluster_health_for_mount primary
          ∷ (get_cluster_credentials primary managers overlay ∷ before))

  abbrev pub gateway_next : Config → (workers : List String) → Calls → Calls
  gateway_next c [] calls = calls
  gateway_next c (n ∷ ns) calls =
      let mc = c.global_settings.distributed_storage.microceph in
      if mc.enable_rados_gateway
      then enable_rados_gateway (n ∷ ns) mc.rados_gateway_port
          (to_lower (trim_space c.global_settings.overlay_provider))
        ∷ calls
      else calls

  abbrev pub planned :
      List (String × NodeInfo)
      → Config
      → (primary : String) → (others workers : List String) → Calls
      → Calls
  planned infos c primary others workers calls = gateway_next c workers (
      mounts_next c primary (primary ∷ others) workers (
        all_next (λ n calls. add_storage n ∷ calls) (storage_nodes infos (primary ∷ others) workers)
          (all_next (join_next primary) workers
            (all_next (join_next primary) others (bootstrap primary ∷ (install primary ∷ calls))))))

  note-Moves :
      {A : Type 0} (call : Call) (value : Calls → A)
      → Moves (note call value) (λ calls. (value calls, call ∷ calls))
  unfolding note
  note-Moves call value = record {
    at = λ w w' a h. elim (Option-cases (answers.error call w)) [
      | inl e ↦ ground arith
      | inr (x, e) ↦ ground arith
    ];
  }

  module _ (mount_path : String) where
    join-Moves :
        (p n : String)
        → Moves
            (install_and_join commanded (noting mount_path) p n)
            (λ calls. (tt, join_next p n calls))
    unfolding install_and_join
    join-Moves p n = bind-Moves _ _ (wrap-Moves _ _ (note-Moves (install n) done)) λ _.
        bind-Moves _ _ (wrap-Moves _ _ (note-Moves (generate_join_token p n) (answers.token n)))
          λ t. wrap-Moves _ _ (note-Moves (join n t) done)

    start-Moves :
        (p : String)
        → Moves
            (start_primary commanded (noting mount_path) p)
            (λ calls. (tt, bootstrap p ∷ (install p ∷ calls)))
    unfolding start_primary
    start-Moves p =
        bind-Moves _ _ (wrap-Moves _ _ (note-Moves (install p) done))
          λ _. wrap-Moves _ _ (note-Moves (bootstrap p) done)

    -- What changes no call moves nowhere.
    still-Moves :
        (m : Action Calls (SetupError E) (Unit {0}))
        → ((calls : Calls) → Keeps (λ w. w ≡ calls) m)
        → Moves m (λ calls. (tt, calls))
    still-Moves m still = record {
      at = λ w w' a h. ap (λ w. (tt, w)) (ap (λ p. p.1) (sym h) ∙ (still w).at w refl);
    }

    module _ {I : Calls → Type 0} where
      answered-Keeps :
          {F A : Type 0} (answer : Calls → Result F A) → Keeps I (λ calls. (answer calls, calls))
      answered-Keeps answer = record { at = λ w i. i }

      hostname-Keeps : (n : String) → Keeps I (osd_hostname commanded (noting mount_path) n)
      unfolding osd_hostname
      hostname-Keeps n = record { at = λ w i. i }

      shell-Keeps : {F : Type 0} (e : F) (n cmd : String) → Keeps I (shell commanded e n cmd)
      unfolding shell
      shell-Keeps e n cmd = record {
        at = λ w i. elim (Bool-cases (answers.command n cmd w).failed) [
          | inl t ↦ rw (t, shell) i
          | inr f ↦ rw (f, shell) i
        ];
      }

      script-Keeps :
          (n path : String) (creds : ClusterCredentials)
          → Keeps I (create_mount_helper_script commanded n path creds)
      unfolding create_mount_helper_script
      script-Keeps n path creds = search (keeps_rules, shell-Keeps)

      helper-Keeps :
          (ns : List String) (creds : ClusterCredentials)
          → Keeps I (write_helper commanded (noting mount_path) ns creds)
      unfolding write_helper
      helper-Keeps [] creds = search keeps_rules
      helper-Keeps (n ∷ ns) creds = search (keeps_rules, script-Keeps)

    add-Moves :
        (p n : String)
        → Moves (add_osd commanded (noting mount_path) p n) (λ calls. (tt, add_storage n ∷ calls))
    unfolding add_osd
    add-Moves p n = bind-Moves _ _ (wrap-Moves _ _ (note-Moves (add_storage n) done)) λ _.
        still-Moves _ (λ calls.
          bind-Keeps _ _ (hostname-Keeps n) (λ name. best_effort-Keeps _ (answered-Keeps _)))

    adds-Moves :
        (p : String) (ns : List String)
        → Moves
            (add_osds commanded (noting mount_path) p ns)
            (λ calls. (tt, all_next (λ n calls. add_storage n ∷ calls) ns calls))
    unfolding add_osds
    adds-Moves p [] = still-Moves _ (λ calls. return-Keeps tt)
    adds-Moves p (n ∷ ns) =
        bind-Moves _ _ (each-Moves _ _ (add-Moves p) (n ∷ ns))
          λ _. still-Moves _ (λ calls. best_effort-Keeps _ (answered-Keeps _))

    pool-Moves :
        (c : Config) (p : String) (ms ns : List String)
        → Moves
            (pool_and_mounts commanded (noting mount_path) c p ms ns)
            (λ calls. (tt, mounts_next c p ms ns calls))
    unfolding pool_and_mounts
    pool-Moves c p ms ns = bind-Moves _ _ (wrap-Moves _ _ (note-Moves _ done)) λ _.
        bind-Moves _ _ (wrap-Moves _ _ (note-Moves _ answers.credentials)) λ creds.
          bind-Moves _ _ (wrap-Moves _ _ (note-Moves _ done)) λ _.
            bind-Moves _ _ (each-Moves _ _ (λ n. wrap-Moves _ _ (note-Moves _ done)) ns)
              λ _. still-Moves _ (λ calls. helper-Keeps ns creds)

    module _ (marshal_indent : S3Credentials → Option String) (dir : String → String) where
      module _ {I : Calls → Type 0} where
        file-Keeps :
            (n path : String) (info : RadosGatewayInfo)
            → Keeps I (write_s3_credentials_file commanded marshal_indent dir n path info)
        unfolding write_s3_credentials_file
        file-Keeps n path info = elim (Option-cases (marshal_indent (s3_credentials info))) [
          | inl e ↦ rw (e, write_s3_credentials_file) (fail-Keeps _)
          | inr (text, e) ↦ rw (e, write_s3_credentials_file) (search (keeps_rules, shell-Keeps))
        ]

        store-Keeps :
            (mc : MicroCephProviderConfig) (n : String) (info : RadosGatewayInfo)
            → Keeps I (store_credentials commanded (noting mount_path) marshal_indent dir mc n info)
        unfolding store_credentials
        store-Keeps mc n info = elim (Bool-cases (mc.s3_credentials_file == "")) [
          | inl e ↦ rw (e, store_credentials) (search keeps_rules)
          | inr e ↦ rw (e, store_credentials) (search (keeps_rules, file-Keeps))
        ]

        bucket-Keeps :
            (mc : MicroCephProviderConfig) (n : String) (info : RadosGatewayInfo)
            → Keeps I (create_bucket commanded (noting mount_path) mc n info)
        unfolding create_bucket
        bucket-Keeps mc n info = record {
          at = λ w i. elim (Bool-cases (mc.s3_bucket_name == "")) [
            | inl e ↦ rw (e, create_bucket) i
            | inr e ↦ elim (Result-cases (answers.optional w)) [
              | inl (a, q) ↦ rw (e, q, create_bucket) i
              | inr (x, q) ↦ rw (e, q, create_bucket) i
            ]
          ];
        }

        use-Keeps :
            (mc : MicroCephProviderConfig) (n : String) (info : Option RadosGatewayInfo)
            → Keeps I (use_gateway commanded (noting mount_path) marshal_indent dir mc n info)
        unfolding use_gateway
        use-Keeps mc n none = search keeps_rules
        use-Keeps mc n (some info) = search (keeps_rules, bucket-Keeps, store-Keeps)

      gateway-Moves :
          (c : Config) (ns : List String)
          → Moves
              (enable_gateway commanded (noting mount_path) marshal_indent dir c ns)
              (λ calls. (tt, gateway_next c ns calls))
      unfolding enable_gateway
      gateway-Moves c [] = still-Moves _ (λ calls. return-Keeps tt)
      gateway-Moves c (n ∷ ns) =
          let mc = c.global_settings.distributed_storage.microceph in
          elim (Bool-cases mc.enable_rados_gateway) [
            | inl e ↦
                rw (e, enable_gateway)
                  (bind-Moves _ _ (wrap-Moves _ _ (note-Moves _ answers.gateway))
                    λ info. still-Moves _ (λ calls. use-Keeps mc n info))
            | inr e ↦ rw (e, enable_gateway) (still-Moves _ (λ calls. return-Keeps tt))
          ]

      setup-Moves :
          (infos : List (String × NodeInfo)) (c : Config) (p : String)
          (others workers : List String)
          → Moves
              (setup_nodes commanded
                (noting mount_path)
                marshal_indent
                dir
                infos
                c
                p
                others
                workers)
              (λ calls. (tt, planned infos c p others workers calls))
      unfolding setup_nodes
      setup-Moves infos c p others workers = bind-Moves _ _ (start-Moves p) λ _.
          bind-Moves _ _ (each-Moves _ _ (join-Moves p) others) λ _.
            bind-Moves _ _ (each-Moves _ _ (join-Moves p) workers) λ _.
              bind-Moves _ _ (adds-Moves p _) λ _.
                bind-Moves _ _ (pool-Moves c p (p ∷ others) workers) λ _.
                  bind-Moves _ _ (gateway-Moves c workers)
                    λ _. still-Moves _ (λ calls. best_effort-Keeps _ (answered-Keeps _))

-- Whatever a provider answers and whatever the shell commands and the optional calls report: if
-- `setup_cluster` succeeds, it has made exactly the planned calls, in the planned order. The primary
-- is installed and bootstrapped; each other manager and then each worker is installed, gets a token
-- and joins with it; storage is added to each storage node; the pool is made, the credentials are
-- read and the cluster's health is checked; only then each worker is mounted; at last the
-- gateway is enabled if it is configured and there is a worker.
pub setup_cluster-planned :
    {E : Type 0} (answers : Answers E) (mount_path : String)
    (marshal_indent : S3Credentials → Option String) (dir : String → String)
    (infos : List (String × NodeInfo)) (c : Config) (p : String) (others workers : List String)
    (calls calls' : Calls)
    → setup_cluster
        (commanded answers)
        (noting answers mount_path)
        marshal_indent
        dir
        infos
        c
        (p ∷ others)
        workers
        calls
      ≡ (ok tt, calls')
    → calls' ≡ planned answers infos c p others workers calls
unfolding setup_cluster
setup_cluster-planned answers path m d infos c p others workers calls calls' h =
    ap (λ q. q.1) ((setup-Moves answers path m d infos c p others workers).at calls calls' tt h)
