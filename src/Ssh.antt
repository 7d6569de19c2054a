-- ===== src/Ssh.antt =====
-- internal/ssh/pool.go: one connection per host, made when it is first needed. `new_client` is
-- `NewClient` and `client_run` a client's `Run`. `Get` looks twice around taking the lock that it
-- holds while it connects, so that it is one step; `RunAll`, which calls `Run` on many hosts at once,
-- is left out.
pub mod Connections
pub mod Tests
use docker_swarm_cluster_con.Prelude.{
  String, Bool, true, List, [], ◌∷◌, Option, none, some, Result, ok, err, ◌==◌, if◌then◌else◌, ℤ,
}

-- What a command on a host answers.
pub record RunResult : Type 0 where
  pub stdout : String
  pub stderr : String
  pub failed : Bool

pub record AuthConfig : Type 0 where
  pub username : String
  pub password : String
  pub private_key_pem : String
  pub private_key_path : String
  pub private_key_password : String
  pub port : ℤ

pub record Pool (Client : Type 0) : Type 0 where
  pub auth_configs : List (String × AuthConfig)
  pub clients : List (String × Client)

pub data PoolError : Type 0 where
  no_auth_config connect_failed : PoolError

unfoldable pub new_pool : {Client : Type 0} → List (String × AuthConfig) → Pool Client
new_pool auth_configs = record { auth_configs = auth_configs; clients = [] }

unfoldable pub of_host : {A : Type 0} → String → List (String × A) → Option A
of_host host [] = none
of_host host ((h, a) ∷ rest) = if h == host then some a else of_host host rest

module _ {Client W : Type 0} (new_client : String → AuthConfig → W → Option Client × W) where
  -- A host that has no client yet.
  connect : String → Pool Client → W → Result PoolError Client × (Pool Client × W)
  unfolding of_host
  connect host p w = elim (of_host host p.auth_configs) [
    | none ↦ (err no_auth_config, (p, w))
    | some auth ↦
        let (c, w₁) = new_client host auth w in
        elim c [
          | none ↦ (err connect_failed, (p, w₁))
          | some client ↦ (ok client, (record p { clients = (host, client) ∷ p.clients }, w₁))
        ]
  ]

  unfoldable pub get : String → Pool Client × W → Result PoolError Client × (Pool Client × W)
  unfolding connect of_host
  get host (p, w) = elim (of_host host p.clients) [
    | some client ↦ (ok client, (p, w))
    | none ↦ connect host p w
  ]

  unfoldable pub pool_run :
      (client_run : Client → String → W → RunResult × W)
      → (host command : String) → Pool Client × W
      → RunResult × (Pool Client × W)
  unfolding get
  pool_run client_run host command s =
      let (r, (p, w)) = get host s in
      elim r [
        | err e ↦ (record { stdout = ""; stderr = ""; failed = true }, (p, w))
        | ok client ↦ let (out, w₁) = client_run client command w in (out, (p, w₁))
      ]
