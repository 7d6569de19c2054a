-- ===== src/Orchestrator/Tests.antt =====
-- The orchestration's theorems on a simulated Docker, and runs.
use docker_swarm_cluster_con.Prelude.{
  ℕ, ◌≡◌, refl, String, Bool, true, false, [], ◌∷◌, Option, none, ok, ◌==◌, if◌then◌else◌, contains,
  length, trim_space, split_lines, text_length,
}
use docker_swarm_cluster_con.Retry.{do_retry, default_config}
use docker_swarm_cluster_con.Ssh.{RunResult}
use docker_swarm_cluster_con.Orchestrator.{
  check_cmd, state_cmd, list_cmd, join_cmd, cluster_cmd, join_nodes, swarm_setup,
}
use docker_swarm_cluster_con.Orchestrator.Verified.{
  Listed, SaysActive, swarm_setup-ok, join_nodes_empty_id,
}

abbrev answers : String → RunResult
answers out = record { stdout = out; stderr = ""; failed = false }

abbrev no_wait : ℕ → Bool → Option ℕ × Bool
no_wait d w = (none, w)

abbrev unreachable : RunResult
unreachable = record { stdout = ""; stderr = "no route to host"; failed = true }

-- One more host, "b": the world is whether it is in the swarm.
abbrev on_b : String → Bool → RunResult × Bool
on_b cmd w =
    if cmd == join_cmd "token" "a:2377"
    then (answers "", true)
    else if cmd == check_cmd
    then (answers (if w then "active id7" else "inactive "), w)
    else (answers "", w)

abbrev one_host : String → String → Bool → RunResult × Bool
one_host host cmd w = if host == "b" then on_b cmd w else (unreachable, w)

abbrev IsB : Bool → String → Type 0
IsB w n = (n ≡ "b") × (w ≡ true)

abbrev reached : Bool → String → Bool → RunResult × Bool
reached b cmd w = if b then on_b cmd w else (unreachable, w)

-- No host is in another swarm.
abbrev Lost : Bool → String → Type 0
Lost w n = ⊥

empty_says : SaysActive {C = ℕ} one_host no_wait false "b"
unfolding contains
empty_says = (answers "inactive ", refl, refl, refl)

join_nodes_empty_id_example :
    join_nodes {C = ℕ} one_host no_wait ("b" ∷ []) "token" "a" "" false ≡ (ok tt, false)
join_nodes_empty_id_example =
    join_nodes_empty_id one_host no_wait ("b" ∷ []) "token" "a" false (empty_says, tt)

-- A manager "m", whose answers are in order.
abbrev good_token : String
good_token = "SWMTKN-1-0123456789abcdef"

abbrev manager_host : String → String → Bool → RunResult × Bool
manager_host host cmd w =
    if cmd == state_cmd
    then (answers (if w then "active true" else "inactive false"), w)
    else if cmd == "docker swarm init --advertise-addr eth0"
    then (answers "", true)
    else if cmd == cluster_cmd
    then (answers "id7", w)
    else if cmd == list_cmd
    then (answers "m Ready Leader Active\n", w)
    else (answers good_token, w)

setup_run :
    swarm_setup manager_host no_wait ("m" ∷ []) [] ("m" ∷ []) [] "eth0" "m" false ≡ (ok tt, true)
unfolding swarm_setup contains trim_space do_retry default_config text_length split_lines
setup_run = refl

swarm_setup-ok_example :
    (length {A = String} ("m" ∷ []) ≡ length {A = String} ("m" ∷ []))
    × (length {A = String} [] ≡ length {A = String} [])
    × Listed {C = ℕ} manager_host no_wait "m" 1 0 true
swarm_setup-ok_example =
    swarm_setup-ok manager_host no_wait "m" [] [] ("m" ∷ []) [] "eth0" "m" false true setup_run
