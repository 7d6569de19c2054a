-- ===== src/Ssh/Tests.antt =====
-- The pool on simulated hosts.
use docker_swarm_cluster_con.Prelude.{
  ℕ, ◌+◌, ◌≡◌, refl, String, false, [], ◌∷◌, Option, none, some, ok, err, ◌==◌, if◌then◌else◌, pos,
  contains,
}
use docker_swarm_cluster_con.Ssh.{
  RunResult, AuthConfig, Pool, new_pool, no_auth_config, get, pool_run,
}
use docker_swarm_cluster_con.Ssh.Connections.{get_again}
use docker_swarm_cluster_con.Retry.{do_retry, default_config}
use docker_swarm_cluster_con.Orchestrator.{check_cmd, join_nodes}

abbrev password : AuthConfig
password = record {
  username = "root";
  password = "secret";
  private_key_pem = "";
  private_key_path = "";
  private_key_password = "";
  port = pos 22;
}

-- A client is its host's name, and the world counts the connections.
abbrev connected : String → AuthConfig → ℕ → Option String × ℕ
connected host auth n = (some host, n + 1)

abbrev two_hosts : Pool String
two_hosts = new_pool (("a", password) ∷ ("b", password) ∷ [])

first_get : get connected "b" (two_hosts, 0) ≡ (
  ok "b",
  (record { auth_configs = ("a", password) ∷ ("b", password) ∷ []; clients = ("b", "b") ∷ [] }, 1),
)
unfolding get new_pool
first_get = refl

get_again_run :
    get connected "b" (
      record { auth_configs = ("a", password) ∷ ("b", password) ∷ []; clients = ("b", "b") ∷ [] },
      7,
    )
    ≡ (
      ok "b",
      (
        record { auth_configs = ("a", password) ∷ ("b", password) ∷ []; clients = ("b", "b") ∷ [] },
        7,
      ),
    )
get_again_run =
    get_again connected "b" two_hosts
      (record { auth_configs = ("a", password) ∷ ("b", password) ∷ []; clients = ("b", "b") ∷ [] })
      0 1 "b" first_get 7

-- A host that stands in no configuration
unknown_get : (get connected "c" (two_hosts, 0)).0 ≡ err no_auth_config
unfolding get new_pool
unknown_get = refl

-- The orchestration over the pool: one connection serves the check and the join.
abbrev in_order : String → String → ℕ → RunResult × ℕ
in_order client cmd n = (
  record { stdout = if cmd == check_cmd then "inactive " else ""; stderr = ""; failed = false },
  n,
)

abbrev waits_none : ℕ → Pool String × ℕ → Option String × (Pool String × ℕ)
waits_none d s = (none, s)

joined_over_pool :
    (join_nodes
      (pool_run connected in_order)
      waits_none
      ("b" ∷ [])
      "token"
      "a"
      "id7"
      (two_hosts, 0)).1.1
    ≡ 1
unfolding join_nodes pool_run get new_pool contains do_retry default_config
joined_over_pool = refl
