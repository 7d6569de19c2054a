-- ===== src/Storage/MicroCeph/Gateway/Tests.antt =====
-- Runs of `EnableRadosGateway` and `CreateS3Bucket` of internal/storage/microceph.go. The world counts
-- the tries to enable the gateway.
use docker_swarm_cluster_con.Prelude.{
  ℕ, ◌+◌, ◌≤◌, ◌≡◌, refl, String, true, false, List, [], ◌∷◌, Option, some, ok, ltb, ◌==◌,
  if◌then◌else◌, has_prefix, length, pos, ◌^^◌,
}
use docker_swarm_cluster_con.Prelude.Action.{◌>>=◌, return}
use docker_swarm_cluster_con.Defaults.{s3_admin_user}
use docker_swarm_cluster_con.Ssh.{RunResult}
use docker_swarm_cluster_con.IpDetect.Samples.{decoders}
use docker_swarm_cluster_con.Storage.Types.{RadosGatewayInfo}
use docker_swarm_cluster_con.Storage.MicroCeph.Gateway.{enable_rados_gateway}
use docker_swarm_cluster_con.Storage.MicroCeph.Gateway.Endpoints.{enable_rados_gateway_bounds}
use docker_swarm_cluster_con.Storage.MicroCeph.Gateway.Buckets.{unless_listed, create_s3_bucket}
use docker_swarm_cluster_con.Storage.MicroCeph.Gateway.Skipped.{unless_listed_part}

abbrev user_keys : String → Option (List (String × String))
user_keys text = some (("access", "secret") ∷ [])

-- The first node takes three tries, the second fails at all of its three.
abbrev run : String → String → ℕ → RunResult × ℕ
run host cmd w =
    if has_prefix cmd "timeout 60 microceph enable rgw"
    then (
      record { stdout = ""; stderr = "busy"; failed = if host == "n1" then ltb w 2 else true },
      w + 1,
    )
    else (
      record {
        stdout =
            if has_prefix cmd "radosgw-admin bucket list"
            then "[\"data-old\"]"
            else (if has_prefix cmd "curl" then "200" else host);
        stderr = "";
        failed = false;
      },
      w,
    )

abbrev sleep : ℕ → ℕ → ℕ
sleep d w = w

abbrev nodes : List String
nodes = "n1" ∷ ("n2" ∷ [])

abbrev info : RadosGatewayInfo
info = record {
  endpoints = "http://n1:7480" ∷ [];
  access_key = "access";
  secret_key = "secret";
  user_id = s3_admin_user;
  bucket_name = "";
}

enable_run :
    enable_rados_gateway decoders user_keys run sleep nodes (pos 0) "" 0 ≡ (ok (some info), 6)
unfolding enable_rados_gateway
enable_run = refl

enable_rados_gateway_bounds_run :
    (1 ≤ length info.endpoints) × (length info.endpoints ≤ length nodes)
enable_rados_gateway_bounds_run =
    enable_rados_gateway_bounds decoders user_keys run sleep nodes (pos 0) "" 0 6 info enable_run

-- The bucket "data" is taken as there when only "data-old" is.
bucket_run : create_s3_bucket user_keys run sleep "n1" "data" (pos 0) 0 ≡ (ok tt, 0)
unfolding create_s3_bucket ◌>>=◌ return
bucket_run = refl

part_run :
    unless_listed user_keys run sleep "n1" "data"
      (pos 0)
      ("access", "secret")
      (record { stdout = "[\"" ^^ ("data" ^^ "-old\"]"); stderr = ""; failed = false })
      0
    ≡ (ok tt, 0)
part_run =
    unless_listed_part user_keys run sleep "n1" "data" (pos 0) ("access", "secret") "[\"" "-old\"]"
      "" false 0
