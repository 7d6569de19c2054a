-- ===== src/Storage/MicroCeph/Gateway.antt =====
-- `EnableRadosGateway`, `verifyRGWEndpoint` and `parseRadosGWUserKeys` of
-- internal/storage/microceph.go. `user_keys` is what `json.Unmarshal` makes of a user's JSON: the
-- access and the secret key of each of its keys.
pub mod Buckets
pub mod Skipped
pub mod Endpoints
pub mod Tests
use docker_swarm_cluster_con.Prelude.{
  ℕ, zero, suc, ◌*◌, String, Bool, true, false, ◌&&◌, ◌||◌, not, List, [], ◌∷◌, Option, none, some,
  Result, ok, err, ◌==◌, if◌then◌else◌, contains, to_lower, trim_space, show_int, ℤ, is_zero, ltb,
  ◌^^◌,
}
use docker_swarm_cluster_con.Prelude.Action.{Action, ◌>>=◌, ◌>>◌, return, fail}
use docker_swarm_cluster_con.Defaults.{rados_gateway_port, s3_admin_user, s3_admin_display_name}
use docker_swarm_cluster_con.Retry.{second}
use docker_swarm_cluster_con.Ssh.{RunResult}
use docker_swarm_cluster_con.IpDetect.Networks.{Decoders}
use docker_swarm_cluster_con.IpDetect.Remote.{resolve_node_address_ssh}
use docker_swarm_cluster_con.Storage.Types.{RadosGatewayInfo}
use docker_swarm_cluster_con.Storage.MicroCeph.{exec}

pub data GatewayError : Type 0 where
  no_osd_nodes user_not_parsed no_bucket_name gateway_not_ready user_unknown not_configured
        bucket_not_verified :
      GatewayError

abbrev pub user_cmd : String
user_cmd =
    "radosgw-admin user create --uid="
    ^^ (s3_admin_user
        ^^ (" --display-name=\""
            ^^ (s3_admin_display_name
                ^^ ("\" 2>/dev/null || radosgw-admin user info --uid=" ^^ s3_admin_user))))

unfoldable pub or_default_port : ℤ → ℤ
or_default_port port = if is_zero port then rados_gateway_port else port

-- The first key of the user.
unfoldable pub parse_rados_gw_user_keys :
    (user_keys : String → Option (List (String × String)))
    → (output : String) → Result GatewayError (String × String)
parse_rados_gw_user_keys user_keys output = elim (user_keys output) [
  | none ↦ err user_not_parsed
  | some [] ↦ err user_not_parsed
  | some (k ∷ ks) ↦ ok k
]

-- The command failed since the gateway is there already.
unfoldable pub was_enabled : RunResult → Bool
unfolding contains to_lower
was_enabled r =
    let text = to_lower (r.stdout ^^ (" " ^^ r.stderr)) in
    contains text "already" || contains text "enabled"

module _ {W : Type 0} (d : Decoders) (user_keys : String → Option (List (String × String)))
    (run : String → String → W → RunResult × W) (sleep : ℕ → W → W) where
  -- The loop over the attempts, with so many left; it sleeps between two of them.
  unfoldable pub enable_attempts : (left : ℕ) → (node cmd : String) → W → Bool × W
  unfolding was_enabled
  enable_attempts zero node cmd w = (false, w)
  enable_attempts (suc left) node cmd w =
      let (r, w₁) = run node cmd w in
      elim (not r.failed || was_enabled r) [
        | true ↦ (true, w₁)
        | false ↦ enable_attempts left node cmd (if ltb 0 left then sleep (5 * second) w₁ else w₁)
      ]

  unfoldable pub enable_on : (port : ℤ) (node : String) → W → Bool × W
  unfolding enable_attempts trim_space show_int
  enable_on port node w =
      let (r, w₁) = run node "hostname 2>/dev/null || echo ''" w in
      let name = trim_space r.stdout in
      elim (r.failed || (name == "")) [
        | true ↦ (false, w₁)
        | false ↦
            enable_attempts 3 node
              ("timeout 60 microceph enable rgw --port "
                ^^ (show_int port ^^ (" --target=\"" ^^ (name ^^ "\""))))
              w₁
      ]

  -- The nodes on which the gateway could be enabled.
  unfoldable pub enable_each : (port : ℤ) → List String → W → List String × W
  unfolding enable_on
  enable_each port [] w = ([], w)
  enable_each port (n ∷ ns) w =
      let (enabled, w₁) = enable_on port n w in
      let (rest, w₂) = enable_each port ns w₁ in (if enabled then n ∷ rest else rest, w₂)

  unfoldable pub endpoints_of : (port : ℤ) (overlay : String) → List String → W → List String × W
  unfolding resolve_node_address_ssh show_int
  endpoints_of port overlay [] w = ([], w)
  endpoints_of port overlay (n ∷ ns) w =
      let (address, w₁) = resolve_node_address_ssh d run n overlay w in
      let (rest, w₂) = endpoints_of port overlay ns w₁ in
      (("http://" ^^ (address ^^ (":" ^^ show_int port))) ∷ rest, w₂)

  unfoldable pub verify_rgw_endpoint : (from endpoint : String) → W → Bool × W
  unfolding trim_space
  verify_rgw_endpoint from endpoint w =
      let (r, w₁) =
        run from
          ("curl -s -o /dev/null -w '%{http_code}' --connect-timeout 10 --max-time 15 '"
            ^^ (endpoint ^^ "' 2>/dev/null || echo 'failed'"))
          w in
      let code = trim_space r.stdout in
      (not r.failed && not (code == "failed" || (code == "000" || code == "")), w₁)

  -- The answers are only logged.
  verify_each : (from : String) → List String → W → W
  unfolding verify_rgw_endpoint
  verify_each from [] w = w
  verify_each from (e ∷ es) w = verify_each from es (verify_rgw_endpoint from e w).1

  -- After the gateway was enabled on the nodes, the first of which is asked for the user.
  unfoldable pub gateway_user :
      (port : ℤ) (overlay primary : String)
      → (enabled : List String) → Action W GatewayError (Option RadosGatewayInfo)
  unfolding parse_rados_gw_user_keys endpoints_of verify_each
  gateway_user port overlay primary enabled w =
      let (r, w₁) = run primary user_cmd (sleep (10 * second) w) in
      elim r.failed [
        | true ↦ (ok none, w₁)
        | false ↦ elim (parse_rados_gw_user_keys user_keys r.stdout) [
          | err e ↦ (err e, w₁)
          | ok (access, secret) ↦
              let (endpoints, w₂) = endpoints_of port overlay enabled w₁ in
              (
                ok (
                    some (record {
                      endpoints = endpoints;
                      access_key = access;
                      secret_key = secret;
                      user_id = s3_admin_user;
                      bucket_name = "";
                    })),
                verify_each primary endpoints w₂,
              )
        ]
      ]

  unfoldable pub enable_rados_gateway :
      (osds : List String) (port : ℤ) (overlay : String)
      → Action W GatewayError (Option RadosGatewayInfo)
  unfolding or_default_port enable_each gateway_user
  enable_rados_gateway [] port overlay w = (err no_osd_nodes, w)
  enable_rados_gateway (n ∷ ns) port overlay w =
      let (enabled, w₁) = enable_each (or_default_port port) (n ∷ ns) w in
      elim enabled [
        | [] ↦ (ok none, w₁)
        | p ∷ ps ↦ gateway_user (or_default_port port) overlay p (p ∷ ps) w₁
      ]
