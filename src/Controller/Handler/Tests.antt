-- ===== src/Controller/Handler/Tests.antt =====
-- The controller's theorems at concrete registrations, and runs.
use docker_swarm_cluster_con.Prelude.{
  ℕ, suc, String, ◌≡◌, ◌≢◌, refl, true, false, ◌&&◌, [], ◌∷◌, Option, none, some, Result, ok, err,
  arith, ◌⊎◌, ◌==◌, if◌then◌else◌, ◌↔◌, inl, pos, eq_iff, trim_space, contains,
}
use docker_swarm_cluster_con.Swarm.{Docker, join_token}
use docker_swarm_cluster_con.Controller.Types.{
  ServeOptions, NodeRegistration, NodeResponse, ready, waiting, ClusterState, zero_state,
}
use docker_swarm_cluster_con.Controller.Store.{
  FileStore, json, absent, Faults, write_failed, load_state,
}
use docker_swarm_cluster_con.Controller.Store.Keys.{find}
use docker_swarm_cluster_con.Controller.Store.Durable.{
  add, remove, run_op, meaning, run_op_durable, run_op_error, IsSound, operate, here, next,
  Reach-IsSound, find-add, find-remove, remove_again_not_durable,
}
use docker_swarm_cluster_con.Controller.Handler.{
  tls, request, HandlerError, unknown_action, respond, handle_conn, first_status, swarm_roles,
}
use docker_swarm_cluster_con.Controller.Handler.Status.{
  Enough, StorageClear, respond_ready_iff, respond_token, respond_storage, both_wait,
}
use docker_swarm_cluster_con.Controller.Handler.Performed.{entry_after}
use docker_swarm_cluster_con.Controller.Handler.Effects.{
  serve, serve-IsSound, handle_conn-effects, handle_conn-check_status, handle_conn-unknown,
}

abbrev fine : Faults
fine = record { write_fails = false; rename_fails = false }

abbrev full_disk : Faults
full_disk = record { write_fails = true; rename_fails = false }

abbrev reg : NodeRegistration
reg = record {
  hostname = "n1";
  role = "manager";
  ip = "10.0.0.1";
  os = "linux";
  cpu = pos 2;
  memory_mb = pos 2048;
  docker_version = "27";
  gluster_capable = false;
  storage_enabled = true;
  deploy_portainer = false;
  timestamp = 0;
  action = "";
}

abbrev both : NodeRegistration
both = record reg { hostname = "b1"; role = "both" }

abbrev status_query : NodeRegistration
status_query = record reg { action = "check-status" }

abbrev odd_action : NodeRegistration
odd_action = record reg { action = "reboot" }

abbrev state : ClusterState
state = record zero_state { nodes = reg ∷ []; storage_enabled = true; storage_ready = true }

abbrev store : FileStore
store = record { state = state; last_responses = []; file = json state; tmp = absent }

abbrev opts : ServeOptions
opts = record {
  listen_addr = ":7000";
  state_dir = "/var/lib/d";
  advertise_addr = "10.0.0.9";
  min_managers = 2;
  min_workers = 0;
  wait_for_minimum = true;
  ssh_user = "root";
  keep_ssh_keys = false;
}

-- A docker that always answers with a token.
abbrev docker : Docker ℕ
docker = record { ensure = λ n. (true, n); run = λ args n. (ok "SWMTKN-1 ", suc n) }

store-IsSound : IsSound store
unfolding load_state find
store-IsSound = record {
  unique = (refl, tt);
  on_disk = state;
  loads = refl;
  disk_unique = (refl, tt);
}

n1_found : find "n1" "manager" store.state.nodes ≢ none
unfolding find
n1_found e = cc

removed : (run_op fine (remove "n1" "manager") store).0 ≡ ok (record state { nodes = [] })
unfolding run_op
removed = refl

run_op_durable_example :
    (record state { nodes = [] } ≡ meaning (remove "n1" "manager") store.state)
    × ((run_op fine (remove "n1" "manager") store).1.file ≡ json (record state { nodes = [] }))
run_op_durable_example =
    run_op_durable fine (remove "n1" "manager") store {c = record state { nodes = [] }} n1_found
      removed

not_removed : (run_op full_disk (remove "n1" "manager") store).0 ≡ err write_failed
unfolding run_op
not_removed = refl

run_op_error_example :
    ((run_op full_disk (remove "n1" "manager") store).1.file ≡ store.file)
    × ((run_op full_disk (remove "n1" "manager") store).1.state
        ≡ meaning (remove "n1" "manager") store.state)
run_op_error_example =
    run_op_error full_disk (remove "n1" "manager") store {x = write_failed} not_removed

remove_again_not_durable_example :
    let t = (run_op full_disk (remove "n1" "manager") store).1 in
    ((run_op fine (remove "n1" "manager") t).0 ≡ ok t.state)
    × (find "n1" "manager" (run_op fine (remove "n1" "manager") t).1.state.nodes ≡ none)
    × (load_state (run_op fine (remove "n1" "manager") t).1.file ≡ ok state)
unfolding load_state
remove_again_not_durable_example =
    remove_again_not_durable full_disk fine "n1" "manager" store {x = write_failed} {c = state}
      store-IsSound.unique refl not_removed

Reach-IsSound_example : IsSound (run_op full_disk (add both) store).1
Reach-IsSound_example =
    Reach-IsSound {s = store} store-IsSound (next here (operate full_disk (add both) refl))

find-add_run : find "b1" "both" (run_op full_disk (add both) store).1.state.nodes ≡ (
    if both.hostname == "b1" && both.role == "both"
    then some both
    else find "b1" "both" store.state.nodes)
find-add_run = find-add full_disk both store "b1" "both"

find-remove_run : find "n1" "manager" (run_op fine (remove "n1" "manager") store).1.state.nodes ≡ (
    if "n1" == "n1" && "manager" == "manager" then none else find "n1" "manager" store.state.nodes)
find-remove_run = find-remove fine "n1" "manager" store "n1" "manager" store-IsSound.unique

respond_ready_iff_example :
    ((respond docker opts "key" "register" reg state 0).0.status ≡ ready)
    ↔ (Enough opts "register" state.nodes × StorageClear reg state)
respond_ready_iff_example = respond_ready_iff docker opts "key" "register" reg state 0

answered :
    ((respond docker opts "key" "register" reg state 0).0.status ≡ ready)
    × ((respond docker opts "key" "register" reg state 0).0.swarm_join_token ≡ "SWMTKN-1")
    × ((respond docker opts "key" "register" reg state 0).0.swarm_manager_addr ≡ "10.0.0.9:2377")
unfolding respond join_token trim_space contains
answered = (refl, refl, refl)

token_given : (respond docker opts "key" "register" reg state 0).0.swarm_join_token ≢ ""
token_given e = ground (arith, e, answered.1, eq_iff "SWMTKN-1" "")

respond_token_run :
    (◌≡◌ {A = String} "register" "register")
    × Enough opts "register" state.nodes
    × (swarm_roles reg.role ≡ true)
    × ((join_token docker reg.role 0).0
        ≡ ok (respond docker opts "key" "register" reg state 0).0.swarm_join_token)
respond_token_run = respond_token docker opts "key" "register" reg state 0 token_given

respond_storage_run :
    ((respond docker opts "key" "register" reg state 0).0.storage_enabled
      ≡ (reg.storage_enabled && state.storage_enabled))
    × ((respond docker opts "key" "register" reg state 0).0.storage_ready
        ≡ (reg.storage_enabled && (state.storage_enabled && state.storage_ready)))
respond_storage_run = respond_storage docker opts "key" "register" reg state 0

text_ne : (a b : String) → (a == b) ≡ false → a ≢ b
text_ne a b h = ground (arith, eq_iff a b)

both_wait_run : first_status opts "register" (both ∷ both ∷ both ∷ []) ≡ waiting
both_wait_run =
    both_wait opts "register" (both ∷ both ∷ both ∷ []) refl (text_ne "register" "deregister" refl)
      (inl (omega arith)) (refl, (refl, (refl, tt)))

abbrev stored : Result HandlerError (Option NodeResponse) × FileStore × ℕ
stored = handle_conn docker opts "key" fine 5 (request both) store 0

serve-IsSound_run :
    IsSound (serve docker opts "key" ((full_disk, 5, request both) ∷ (fine, 6, tls) ∷ []) store 0)
serve-IsSound_run =
    serve-IsSound docker opts "key" ((full_disk, 5, request both) ∷ (fine, 6, tls) ∷ []) store 0
      store-IsSound

handle_conn-effects_example :
    (find "b1" "both" stored.1.state.nodes
      ≡ entry_after "register"
          (record both { timestamp = 5 })
          "b1"
          "both"
          (find "b1" "both" store.state.nodes))
    × (((x : HandlerError) × (stored.0 ≡ err x) × (stored.1.file ≡ store.file))
        ⊎ ((resp : NodeResponse) × (stored.0 ≡ ok (some resp))
            × ((stored.1.file ≡ json stored.1.state)
                ⊎ ((stored.1.file ≡ store.file) × (stored.1.state ≡ store.state)))))
handle_conn-effects_example =
    handle_conn-effects docker opts "key" fine 5 both store 0 "b1" "both" store-IsSound.unique

handle_conn-check_status_run :
    ((handle_conn docker opts "key" fine 5 (request status_query) store 0).1.state ≡ store.state)
    × ((handle_conn docker opts "key" fine 5 (request status_query) store 0).1.file ≡ store.file)
handle_conn-check_status_run =
    handle_conn-check_status docker opts "key" fine 5 status_query store 0 refl

handle_conn-unknown_run :
    handle_conn docker opts "key" fine 5 (request odd_action) store 0
    ≡ (err unknown_action, store, 0)
handle_conn-unknown_run =
    handle_conn-unknown docker opts "key" fine 5 odd_action store 0
      (text_ne "reboot" "register" refl) (text_ne "reboot" "deregister" refl)
      (text_ne "reboot" "storage-ready" refl) (text_ne "reboot" "check-status" refl)
