-- ===== src/Orchestrator.antt =====
-- internal/orchestrator/swarm.go: Docker Swarm set up on all nodes through SSH. `run` is the pool's
-- `Run` on a host and a command, in the state of the world that the call finds; `wait` is the
-- retry loop's wait. Texts of errors and log lines are left out, but for the log lines that slice
-- the tokens: a token of fewer than 20 bytes ends the program there.
pub mod Joined
pub mod Verified
pub mod Tests
use docker_swarm_cluster_con.Prelude.{
  ℕ, ◌+◌, String, Bool, true, false, ◌&&◌, ◌||◌, not, List, [], ◌∷◌, Option, none, some, Result, ok,
  err, ◌=?◌, ltb, if◌then◌else◌, trim_space, contains, split_lines, ◌^^◌, length, text_length,
}
use docker_swarm_cluster_con.Ssh.{RunResult}
use docker_swarm_cluster_con.Retry.{RetryConfig, RetryError, default_config, do_retry}

pub data CommandError : Type 0 where
  command_failed not_active not_manager : CommandError

pub data SetupError (C : Type 0) : Type 0 where
  no_managers managers_mismatch workers_mismatch token_slice_panic list_failed : SetupError C
  init_failed not_ready tokens_failed join_managers_failed join_workers_failed :
      RetryError C CommandError → SetupError C
  manager_count worker_count : (got expected : ℕ) → SetupError C

abbrev pub state_cmd : String
state_cmd = "docker info --format '{{.Swarm.LocalNodeState}} {{.Swarm.ControlAvailable}}'"

abbrev pub cluster_cmd : String
cluster_cmd = "docker info --format '{{.Swarm.Cluster.ID}}'"

abbrev pub check_cmd : String
check_cmd = "docker info --format '{{.Swarm.LocalNodeState}} {{.Swarm.Cluster.ID}}'"

abbrev pub leave_cmd : String
leave_cmd = "docker swarm leave --force"

abbrev pub join_cmd : String → String → String
join_cmd token manager_addr = "docker swarm join --token " ^^ (token ^^ (" " ^^ manager_addr))

abbrev pub list_cmd : String
list_cmd =
    "docker node ls --format '{{.Hostname}} {{.Status}} {{.ManagerStatus}} {{.Availability}}'"

abbrev pub already_joined : RunResult → Bool
already_joined r = contains r.stderr "already part of a swarm"

pub with_port : String → String
with_port addr = if contains addr ":" then addr else addr ^^ ":2377"

unfoldable pub is_manager_line : String → Bool
is_manager_line line = contains line "Leader" || contains line "Reachable"

-- managers, then workers: every other line counts as a worker, an empty one too
unfoldable pub count_lines : List String → ℕ × ℕ
unfolding is_manager_line
count_lines [] = (0, 0)
count_lines (l ∷ ls) =
    let (managers, workers) = count_lines ls in
    if is_manager_line l then (managers + 1, workers) else (managers, workers + 1)

module _ {C W : Type 0} (run : String → String → W → RunResult × W)
    (wait : ℕ → W → Option C × W) where
  -- A retried command whose trimmed output the closure keeps.
  read_once : String → String → String × W → Option CommandError × (String × W)
  read_once host cmd (kept, w) =
      let (r, w₁) = run host cmd w in
      if r.failed then (some command_failed, (kept, w₁)) else (none, (trim_space r.stdout, w₁))

  wait_keeping : ℕ → String × W → Option C × (String × W)
  wait_keeping d (kept, w) = let (c, w₁) = wait d w in (c, (kept, w₁))

  read_retried : String → String → String → W → Result (RetryError C CommandError) String × W
  unfolding read_once wait_keeping
  read_retried operation host cmd w =
      let (r, (text, w₁)) =
        do_retry (default_config operation) wait_keeping (read_once host cmd) ("", w) in
      elim r [ ok _ ↦ (ok text, w₁) | err e ↦ (err e, w₁) ]

  -- A command after which the node is in a swarm, or was in one already.
  unfoldable pub enter_once : String → String → W → Option CommandError × W
  enter_once host cmd w =
      let (r, w₁) = run host cmd w in
      (if r.failed && not (already_joined r) then some command_failed else none, w₁)

  init_swarm : String → String → W → Result (RetryError C CommandError) (Unit {0}) × W
  unfolding enter_once
  init_swarm primary advertise_addr w =
      let (r, w₁) = run primary state_cmd w in
      let active = not r.failed && contains r.stdout "active" in
      let controls = contains r.stdout "true" in
      elim (active && controls) [
        | true ↦ (ok tt, w₁)
        | false ↦
            let w₂ : W = elim (active && not controls) [
              | true ↦ (run primary leave_cmd w₁).1
              | false ↦ w₁
            ] in
            do_retry (default_config ("swarm-init-" ^^ primary)) wait
              (enter_once primary ("docker swarm init --advertise-addr " ^^ advertise_addr)) w₂
      ]

  -- manager token, worker token and cluster ID
  get_join_tokens : String → W → Result (RetryError C CommandError) (String × (String × String)) × W
  unfolding read_retried
  get_join_tokens primary w =
      let (r, w₁) = read_retried "get-cluster-id" primary cluster_cmd w in
      elim r [
        | err e ↦ (err e, w₁)
        | ok id ↦
            let (r, w₂) =
              read_retried "get-manager-token" primary "docker swarm join-token manager -q" w₁ in
            elim r [
              | err e ↦ (err e, w₂)
              | ok manager ↦
                  let (r, w₃) =
                    read_retried "get-worker-token" primary "docker swarm join-token worker -q"
                      w₂ in
                  elim r [ err e ↦ (err e, w₃) | ok worker ↦ (ok (manager, (worker, id)), w₃) ]
            ]
      ]

  unfoldable pub join_retried :
      (token manager_addr node : String) → W → Result (RetryError C CommandError) (Unit {0}) × W
  unfolding enter_once
  join_retried token manager_addr node =
      do_retry (default_config ("swarm-join-" ^^ node)) wait
        (enter_once node (join_cmd token manager_addr))

  -- After the check: whether the node is active, and whether it shows the cluster's ID.
  unfoldable pub join_turn :
      (token manager_addr node : String)
      → (active known : Bool) → W
      → Result (RetryError C CommandError) (Unit {0}) × W
  unfolding join_retried
  join_turn token manager_addr node true true w = (ok tt, w)
  join_turn token manager_addr node true false w =
      join_retried token manager_addr node (run node leave_cmd w).1
  join_turn token manager_addr node false known w = join_retried token manager_addr node w

  -- The body of the loop over the nodes.
  unfoldable pub join_node :
      (token manager_addr id node : String) → W → Result (RetryError C CommandError) (Unit {0}) × W
  unfolding join_turn
  join_node token manager_addr id node w =
      let (r, w₁) = run node check_cmd w in
      join_turn token manager_addr node (not r.failed && contains r.stdout "active")
        (contains r.stdout id) w₁

  pub join_each :
      (token manager_addr id : String)
      → List String
      → W
      → Result (RetryError C CommandError) (Unit {0}) × W
  unfolding join_node
  join_each token manager_addr id [] w = (ok tt, w)
  join_each token manager_addr id (n ∷ ns) w =
      let (r, w₁) = join_node token manager_addr id n w in
      elim r [ err e ↦ (err e, w₁) | ok _ ↦ join_each token manager_addr id ns w₁ ]

  unfoldable pub join_nodes :
      List String
      → (token manager_addr id : String) → W
      → Result (RetryError C CommandError) (Unit {0}) × W
  unfolding join_each with_port
  join_nodes nodes token manager_addr id w = join_each token (with_port manager_addr) id nodes w

  unfoldable pub verify_swarm :
      String → (managers workers : ℕ) → W → Result (SetupError C) (Unit {0}) × W
  unfolding count_lines
  verify_swarm primary managers workers w =
      let (r, w₁) = run primary list_cmd w in
      let (m, k) = count_lines (split_lines (trim_space r.stdout)) in
      if r.failed
      then (err list_failed, w₁)
      else if not (m =? managers)
      then (err (manager_count m managers), w₁)
      else if not (k =? workers)
      then (err (worker_count k workers), w₁)
      else (ok tt, w₁)

  manager_once : String → W → Option CommandError × W
  manager_once manager w =
      let (r, w₁) = run manager state_cmd w in
      let output = trim_space r.stdout in
      if r.failed
      then (some command_failed, w₁)
      else if not (contains output "active")
      then (some not_active, w₁)
      else if not (contains output "true")
      then (some not_manager, w₁)
      else (none, w₁)

  verify_manager_ready : String → W → Result (RetryError C CommandError) (Unit {0}) × W
  unfolding manager_once
  verify_manager_ready manager w =
      do_retry (default_config ("verify-manager-" ^^ manager)) wait (manager_once manager) w

  -- What follows the tokens: the nodes join, and the outcome is verified.
  join_all :
      (primary join_addr : String)
      → (managers workers : List String) → (tokens : String × (String × String)) → W
      → Result (SetupError C) (Unit {0}) × W
  unfolding join_nodes verify_swarm
  join_all primary join_addr managers workers (manager_token, (worker_token, id)) w =
      let (r, w₁) = join_nodes managers manager_token join_addr id w in
      elim r [
        | err e ↦ (err (join_managers_failed e), w₁)
        | ok _ ↦
            let (r, w₂) = join_nodes workers worker_token join_addr id w₁ in
            elim r [
              | err e ↦ (err (join_workers_failed e), w₂)
              | ok _ ↦ verify_swarm primary (length managers + 1) (length workers) w₂
            ]
      ]

  phases :
      (primary : String)
      → (managers workers : List String) → (advertise_addr join_addr : String) → W
      → Result (SetupError C) (Unit {0}) × W
  unfolding init_swarm verify_manager_ready get_join_tokens join_all
  phases primary managers workers advertise_addr join_addr w =
      let (r, w₁) = init_swarm primary advertise_addr w in
      elim r [
        | err e ↦ (err (init_failed e), w₁)
        | ok _ ↦
            let (r, w₂) = verify_manager_ready primary w₁ in
            elim r [
              | err e ↦ (err (not_ready e), w₂)
              | ok _ ↦
                  let (r, w₃) = get_join_tokens primary w₂ in
                  elim r [
                    | err e ↦ (err (tokens_failed e), w₃)
                    | ok tokens ↦
                        elim (ltb (text_length tokens.0) 20 || ltb (text_length tokens.1.0) 20) [
                          | true ↦ (err token_slice_panic, w₃)
                          | false ↦ join_all primary join_addr managers workers tokens w₃
                        ]
                  ]
            ]
      ]

  unfoldable pub swarm_setup :
      (ssh_managers ssh_workers manager_addrs worker_addrs : List String)
      → (advertise_addr join_addr : String) → W
      → Result (SetupError C) (Unit {0}) × W
  unfolding phases
  swarm_setup [] ssh_workers manager_addrs worker_addrs advertise_addr join_addr w =
      (err no_managers, w)
  swarm_setup (primary ∷ managers) ssh_workers manager_addrs worker_addrs advertise_addr join_addr
        w =
      elim (length managers + 1 =? length manager_addrs) [
        | false ↦ (err managers_mismatch, w)
        | true ↦ elim (length ssh_workers =? length worker_addrs) [
          | false ↦ (err workers_mismatch, w)
          | true ↦ phases primary managers ssh_workers advertise_addr join_addr w
        ]
      ]
