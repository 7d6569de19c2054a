-- ===== src/Storage/MicroCeph/Gateway/Buckets.antt =====
-- `CreateS3Bucket` of internal/storage/microceph.go. `user_keys` is what `json.Unmarshal` makes of a
-- user's JSON.
use docker_swarm_cluster_con.Prelude.{
  ℕ, zero, suc, ◌*◌, String, Bool, true, false, ◌&&◌, ◌||◌, not, List, Option, ok, err, ◌==◌,
  if◌then◌else◌, contains, trim_space, show_int, ℤ, ltb, ◌^^◌,
}
use docker_swarm_cluster_con.Prelude.Action.{Action, ◌>>=◌, ◌>>◌, return, fail}
use docker_swarm_cluster_con.Defaults.{s3_admin_user}
use docker_swarm_cluster_con.Retry.{second}
use docker_swarm_cluster_con.Ssh.{RunResult}
use docker_swarm_cluster_con.Storage.MicroCeph.{exec}
use docker_swarm_cluster_con.Storage.MicroCeph.Gateway.{
  GatewayError, no_bucket_name, gateway_not_ready, user_unknown, not_configured,
  bucket_not_verified, or_default_port, parse_rados_gw_user_keys,
}

unfoldable pub is_ready_code : String → Bool
is_ready_code code = code == "200" || (code == "403" || code == "404")

module _ {W : Type 0} (user_keys : String → Option (List (String × String)))
    (run : String → String → W → RunResult × W) (sleep : ℕ → W → W) where
  -- The loop over the health checks, with so many left; it sleeps between two of them.
  unfoldable pub ready_attempts : (left : ℕ) → (node cmd : String) → W → Bool × W
  unfolding is_ready_code trim_space
  ready_attempts zero node cmd w = (false, w)
  ready_attempts (suc left) node cmd w =
      let (r, w₁) = run node cmd w in
      elim (is_ready_code (trim_space r.stdout)) [
        | true ↦ (true, w₁)
        | false ↦ ready_attempts left node cmd (if ltb 0 left then sleep (3 * second) w₁ else w₁)
      ]

  wait_ready : (node : String) (port : ℤ) → Action W GatewayError (Unit {0})
  unfolding ready_attempts show_int
  wait_ready node port w =
      let (ready, w₁) =
        ready_attempts 10 node
          ("curl -s -o /dev/null -w '%{http_code}' http://127.0.0.1:"
            ^^ (show_int port ^^ "/ 2>/dev/null || echo '000'"))
          w in
      (if ready then ok tt else err gateway_not_ready, w₁)

  user_of : RunResult → Action W GatewayError (String × String)
  unfolding parse_rados_gw_user_keys
  user_of r w =
      (if r.failed then err user_unknown else parse_rados_gw_user_keys user_keys r.stdout, w)

  s3cfg : (access secret port : String) → String
  s3cfg access secret port =
      "[default]\naccess_key = "
      ^^ (access
          ^^ ("\nsecret_key = "
              ^^ (secret
                  ^^ ("\nhost_base = 127.0.0.1:"
                      ^^ (port
                          ^^ ("\nhost_bucket = 127.0.0.1:"
                              ^^ (port
                                  ^^ "/%(bucket)s\nuse_https = False\nsignature_v2 = True\n")))))))

  -- The command failed and the bucket is not said to be there.
  link_bucket : (needed : Bool) (node bucket : String) → Action W GatewayError (Unit {0})
  unfolding exec
  link_bucket false node bucket = return tt
  link_bucket true node bucket = do
    r ← exec run node (
        "radosgw-admin bucket link --bucket="
        ^^ (bucket ^^ (" --uid=" ^^ (s3_admin_user ^^ " 2>/dev/null || true"))))
    return tt

  accept : Bool → GatewayError → Action W GatewayError (Unit {0})
  accept true e = return tt
  accept false e = fail e

  make_bucket :
      (node bucket : String) (port : ℤ) → String × String → Action W GatewayError (Unit {0})
  unfolding exec s3cfg accept link_bucket contains show_int
  make_bucket node bucket port (access, secret) = do
    r ← exec run node "DEBIAN_FRONTEND=noninteractive dpkg --configure -a 2>/dev/null || true"
    r ← exec run node "which s3cmd || apt-get update -qq && apt-get install -y -qq s3cmd"
    r ←
        exec run node
          ("cat > /tmp/.s3cfg << 'EOF'\n" ^^ (s3cfg access secret (show_int port) ^^ "EOF"))
    accept (not r.failed) not_configured
    r ← exec run node ("s3cmd -c /tmp/.s3cfg mb s3://" ^^ (bucket ^^ " 2>&1 || true"))
    link_bucket (r.failed && not (contains r.stdout "already" || contains r.stderr "already")) node
        bucket
    r ← exec run node (
        "s3cmd -c /tmp/.s3cfg ls s3://"
        ^^ (bucket ^^ (" 2>&1 || radosgw-admin bucket stats --bucket=" ^^ (bucket ^^ " 2>&1"))))
    accept (not r.failed || contains r.stdout bucket) bucket_not_verified
    r ← exec run node "rm -f /tmp/.s3cfg"
    return tt

  -- After the list of the user's buckets.
  unfoldable pub unless_listed :
      (node bucket : String) (port : ℤ) (keys : String × String)
      → RunResult
      → Action W GatewayError (Unit {0})
  unfolding make_bucket contains
  unless_listed node bucket port keys r = elim (contains r.stdout bucket) [
    | true ↦ return tt
    | false ↦ make_bucket node bucket port keys
  ]

  ready_bucket : (node bucket : String) (port : ℤ) → Action W GatewayError (Unit {0})
  unfolding wait_ready exec user_of unless_listed
  ready_bucket node bucket port = do
    wait_ready node port
    r ← exec run node ("radosgw-admin user info --uid=" ^^ s3_admin_user)
    keys ← user_of r
    r ← exec run node ("radosgw-admin bucket list --uid=" ^^ s3_admin_user)
    unless_listed node bucket port keys r

  unfoldable pub create_s3_bucket :
      (node bucket : String) (port : ℤ) → Action W GatewayError (Unit {0})
  unfolding or_default_port ready_bucket
  create_s3_bucket node bucket port = elim (bucket == "") [
    | true ↦ fail no_bucket_name
    | false ↦ ready_bucket node bucket (or_default_port port)
  ]
