-- ===== src/Controller/Master/Fresh.antt =====
-- What `MasterInit` and `MasterReset` of internal/controller/controller.go leave for the next start.
use docker_swarm_cluster_con.Prelude.{
  ◌≡◌, refl, ap, ◌∙◌, arith, String, true, none, some, ok, ◌==◌, if◌then◌else◌, Bool-cases,
  Option-cases, Result-cases, inl, inr,
}
use docker_swarm_cluster_con.Controller.Types.{
  ClusterState, MasterInitOptions, MasterResetOptions, zero_state,
}
use docker_swarm_cluster_con.Controller.Store.Commit.{commit-ok}
use docker_swarm_cluster_con.Controller.Master.{
  StateDir, Surroundings, stored, configure_storage, generate_keys, master_init, reset_dir,
  master_reset,
}
use docker_swarm_cluster_con.Controller.Store.{
  FileStore, load_state, new_file_store, commit, reset, set_storage_config,
}

-- The state that a controller starts with after `master_init`.
abbrev pub fresh : MasterInitOptions → ClusterState
fresh opts =
    if opts.enable_storage
    then record zero_state {
      storage_enabled = true;
      storage_type = if opts.storage_type == "" then "microceph" else opts.storage_type;
    }
    else zero_state

module _ (opts : MasterInitOptions) (env : Surroundings) where
  configure_storage-fresh :
      (s : FileStore) (d d' : StateDir)
      → s.state ≡ zero_state
      → load_state d.file ≡ ok zero_state
      → configure_storage opts env.config_faults s d ≡ (none, d')
      → (load_state d'.file ≡ ok (fresh opts))
        × (d'.ssh_key ≡ d.ssh_key)
        × (d'.ssh_key_pub ≡ d.ssh_key_pub)
  unfolding configure_storage set_storage_config stored
  configure_storage-fresh s d d' z l h =
      let type = (if opts.storage_type == "" then "microceph" else opts.storage_type) in
      let change : ClusterState → ClusterState =
        (λ c. record c { storage_enabled = true; storage_type = type }) in
      elim (Bool-cases opts.enable_storage) [
        | inr f ↦ (ground arith, ground arith, ground arith)
        | inl t ↦ elim (Result-cases (commit env.config_faults change s).0) [
          | inr (x, e) ↦ ground arith
          | inl (c, e) ↦
              let (a, b) = commit-ok env.config_faults change s c e in
              let fe : d'.file ≡ (commit env.config_faults change s).1.file = ground arith in
              let k : change zero_state ≡ fresh opts = rw t refl in
              (
                ap load_state fe ∙ b ∙ ap (λ c. ok (change c)) z ∙ ap ok k,
                ground arith,
                ground arith,
              )
        ]
      ]

  generate_keys-fresh :
      (s : FileStore) (d d' : StateDir)
      → s.state ≡ zero_state
      → load_state d.file ≡ ok zero_state
      → generate_keys opts env s d ≡ (none, d')
      → (load_state d'.file ≡ ok (fresh opts))
        × ((private : String) × (public : String) × (env.key_pair ≡ some (private, public))
            × (d'.ssh_key ≡ some private)
            × (d'.ssh_key_pub ≡ some public))
  unfolding generate_keys
  generate_keys-fresh s d d' z l h = elim (Option-cases env.key_pair) [
    | inl n ↦ ground arith
    | inr ((private, public), e) ↦ elim (Bool-cases env.private_fails) [
      | inl t ↦ ground arith
      | inr f ↦ elim (Bool-cases env.public_fails) [
        | inl t ↦ ground arith
        | inr g ↦
            let (a, b, c) =
              configure_storage-fresh s
                (record d { ssh_key = some private; ssh_key_pub = some public }) d' z l
                (ground arith) in
            (a, (private, public, e, b, c))
      ]
    ]
  ]

-- Whatever the directory held: if `master_init` succeeds, a controller that then starts finds no
-- registration, the storage configuration that was asked for and the generated public key.
pub master_init-fresh :
    (opts : MasterInitOptions) (env : Surroundings) (d d' : StateDir)
    → master_init opts env d ≡ (none, d')
    → (load_state d'.file ≡ ok (fresh opts))
      × ((private : String) × (public : String) × (env.key_pair ≡ some (private, public))
          × (d'.ssh_key ≡ some private)
          × (d'.ssh_key_pub ≡ some public))
unfolding master_init reset stored
master_init-fresh opts env d d' h =
    elim (Result-cases (new_file_store opts.state_dir env.mkdir_fails d.file d.tmp)) [
      | inr (x, e) ↦ ground arith
      | inl (s, e) ↦ elim (Result-cases (commit env.reset_faults (λ c. zero_state) s).0) [
        | inr (x, e') ↦ ground arith
        | inl (c, e') ↦
            let (a, b) = commit-ok env.reset_faults (λ c. zero_state) s c e' in
            let s₁ : FileStore = (commit env.reset_faults (λ c. zero_state) s).1 in
            generate_keys-fresh opts env s₁ (stored s₁ d) d' a b (ground arith)
      ]
    ]

-- If `master_reset` succeeds, a controller that then starts finds the zero state.
pub master_reset-zero :
    (opts : MasterResetOptions) (env : Surroundings) (d d' : StateDir)
    → master_reset opts env d ≡ (none, d')
    → load_state d'.file ≡ ok zero_state
unfolding master_reset reset_dir reset stored load_state
master_reset-zero opts env d d' h = elim (Bool-cases (opts.state_dir == "")) [
  | inl t ↦ ground arith
  | inr f ↦ elim (Bool-cases opts.cleanup_state_dir) [
    | inl t ↦ elim (Bool-cases env.remove_fails) [ inl t ↦ ground arith | inr f ↦ ground arith ]
    | inr f ↦ elim (Result-cases (new_file_store opts.state_dir env.mkdir_fails d.file d.tmp)) [
      | inr (x, e) ↦ ground arith
      | inl (s, e) ↦ elim (Result-cases (commit env.reset_faults (λ c. zero_state) s).0) [
        | inr (x, e') ↦ ground arith
        | inl (c, e') ↦
            let (a, b) = commit-ok env.reset_faults (λ c. zero_state) s c e' in
            let fe : d'.file ≡ (commit env.reset_faults (λ c. zero_state) s).1.file =
              ground arith in
            ap load_state fe ∙ b
      ]
    ]
  ]
]
