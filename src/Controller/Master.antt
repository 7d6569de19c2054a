-- ===== src/Controller/Master.antt =====
-- `MasterInit` and `MasterReset` of internal/controller/controller.go, on what the state directory
-- holds. Log lines are left out.
pub mod Fresh
pub mod Tests
use docker_swarm_cluster_con.Prelude.{
  String, Bool, true, false, Option, none, some, Result, ok, err, ◌==◌, if◌then◌else◌,
}
use docker_swarm_cluster_con.Controller.Types.{MasterInitOptions, MasterResetOptions}
use docker_swarm_cluster_con.Controller.Store.{
  FileContent, absent, Faults, FileStore, StoreError, no_state_dir, keys_failed, remove_failed,
  new_file_store, reset, set_storage_config,
}

-- The state directory: state.json, the temporary file beside it, and the two key files.
pub record StateDir : Type 0 where
  pub file : FileContent
  pub tmp : FileContent
  pub ssh_key : Option String
  pub ssh_key_pub : Option String

-- What may go wrong around the calls, and the generated key pair, private and public.
pub record Surroundings : Type 0 where
  pub mkdir_fails : Bool
  pub reset_faults : Faults
  pub key_pair : Option (String × String)
  pub private_fails : Bool
  pub public_fails : Bool
  pub config_faults : Faults
  pub remove_fails : Bool

stored : FileStore → StateDir → StateDir
stored s d = record d { file = s.file; tmp = s.tmp }

-- The last step of `MasterInit`.
configure_storage : MasterInitOptions → Faults → FileStore → StateDir → Option StoreError × StateDir
unfolding set_storage_config stored
configure_storage opts f s d =
    let type = (if opts.storage_type == "" then "microceph" else opts.storage_type) in
    let (r, s₁) = set_storage_config f true type s in
    elim opts.enable_storage [
      | false ↦ (none, d)
      | true ↦ (elim r [ err e ↦ some e | ok _ ↦ none ], stored s₁ d)
    ]

generate_keys :
    MasterInitOptions → Surroundings → FileStore → StateDir → Option StoreError × StateDir
unfolding configure_storage
generate_keys opts env s d = elim env.key_pair [
  | none ↦ (some keys_failed, d)
  | some (private, public) ↦ elim env.private_fails [
    | true ↦ (some keys_failed, d)
    | false ↦
        let d₁ : StateDir = record d { ssh_key = some private } in
        elim env.public_fails [
          | true ↦ (some keys_failed, d₁)
          | false ↦
              configure_storage opts env.config_faults s (record d₁ { ssh_key_pub = some public })
        ]
  ]
]

unfoldable pub master_init :
    MasterInitOptions → Surroundings → StateDir → Option StoreError × StateDir
unfolding new_file_store reset stored generate_keys
master_init opts env d = elim (new_file_store opts.state_dir env.mkdir_fails d.file d.tmp) [
  | err e ↦ (some e, d)
  | ok s ↦
      let (r, s₁) = reset env.reset_faults s in
      elim r [ err e ↦ (some e, stored s₁ d) | ok _ ↦ generate_keys opts env s₁ (stored s₁ d) ]
]

-- `os.RemoveAll` that fails is taken to leave the directory as it was.
reset_dir : MasterResetOptions → Surroundings → StateDir → Option StoreError × StateDir
unfolding new_file_store reset stored
reset_dir opts env d = elim opts.cleanup_state_dir [
  | true ↦ (elim env.remove_fails [
    | true ↦ (some remove_failed, d)
    | false ↦ (none, record { file = absent; tmp = absent; ssh_key = none; ssh_key_pub = none })
  ])
  | false ↦ elim (new_file_store opts.state_dir env.mkdir_fails d.file d.tmp) [
    | err e ↦ (some e, d)
    | ok s ↦
        let (r, s₁) = reset env.reset_faults s in
        (elim r [ err e ↦ some e | ok _ ↦ none ], stored s₁ d)
  ]
]

unfoldable pub master_reset :
    MasterResetOptions → Surroundings → StateDir → Option StoreError × StateDir
unfolding reset_dir
master_reset opts env d =
    if opts.state_dir == "" then (some no_state_dir, d) else reset_dir opts env d
