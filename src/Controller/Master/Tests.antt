-- ===== src/Controller/Master/Tests.antt =====
-- Initialisation and reset of a state directory, run.
use docker_swarm_cluster_con.Prelude.{◌≡◌, refl, String, true, false, none, some, ok}
use docker_swarm_cluster_con.Controller.Types.{MasterInitOptions, MasterResetOptions, zero_state}
use docker_swarm_cluster_con.Controller.Store.{json, absent, Faults, load_state}
use docker_swarm_cluster_con.Controller.Master.{StateDir, Surroundings, master_init, master_reset}
use docker_swarm_cluster_con.Controller.Master.Fresh.{fresh, master_init-fresh, master_reset-zero}

abbrev no_faults : Faults
no_faults = record { write_fails = false; rename_fails = false }

abbrev calm : Surroundings
calm = record {
  mkdir_fails = false;
  reset_faults = no_faults;
  key_pair = some ("private", "ssh-ed25519 AAAA");
  private_fails = false;
  public_fails = false;
  config_faults = no_faults;
  remove_fails = false;
}

-- the state of an earlier cluster
abbrev old_dir : StateDir
old_dir = record {
  file = json (record zero_state { swarm_orchestrated = true; storage_ready = true });
  tmp = absent;
  ssh_key = none;
  ssh_key_pub = none;
}

abbrev with_storage : MasterInitOptions
with_storage = record { state_dir = "/var/lib/c"; enable_storage = true; storage_type = "" }

abbrev new_dir : StateDir
new_dir = record {
  file = json (record zero_state { storage_enabled = true; storage_type = "microceph" });
  tmp = absent;
  ssh_key = some "private";
  ssh_key_pub = some "ssh-ed25519 AAAA";
}

init_run : master_init with_storage calm old_dir ≡ (none, new_dir)
unfolding master_init
init_run = refl

master_init-fresh_example :
    (load_state new_dir.file ≡ ok (fresh with_storage))
    × ((private : String) × (public : String) × (calm.key_pair ≡ some (private, public))
        × (new_dir.ssh_key ≡ some private)
        × (new_dir.ssh_key_pub ≡ some public))
master_init-fresh_example = master_init-fresh with_storage calm old_dir new_dir init_run

abbrev keep_dir : MasterResetOptions
keep_dir = record { state_dir = "/var/lib/c"; cleanup_state_dir = false }

reset_run : master_reset keep_dir calm new_dir ≡ (none, record new_dir { file = json zero_state })
unfolding master_reset
reset_run = refl

master_reset-zero_run : load_state (json zero_state) ≡ ok zero_state
master_reset-zero_run =
    master_reset-zero keep_dir calm new_dir (record new_dir { file = json zero_state }) reset_run
