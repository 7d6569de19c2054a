-- ===== src/Storage/MicroCeph/Pools/Tests.antt =====
-- Runs of `CreatePool` and `Teardown` of internal/storage/microceph.go. The world is the clock.
use docker_swarm_cluster_con.Prelude.{
  ℕ, ◌+◌, ◌*◌, ◌≡◌, refl, String, Bool, true, false, List, [], ◌∷◌, none, some, ok, ltb, ◌==◌,
  if◌then◌else◌, has_prefix, pos,
}
use docker_swarm_cluster_con.Prelude.Action.{◌>>=◌, return, each, wrap}
use docker_swarm_cluster_con.Retry.{second}
use docker_swarm_cluster_con.Ssh.{RunResult}
use docker_swarm_cluster_con.IpDetect.Samples.{decoders}
use docker_swarm_cluster_con.Storage.MicroCeph.Health.{lists_name}
use docker_swarm_cluster_con.Storage.MicroCeph.Disks.{ConfiguredDisk, is_on}
use docker_swarm_cluster_con.Storage.MicroCeph.Pools.{
  KeyDecoders, create_pool, get_cluster_credentials, located, remove_osds_for_node,
}
use docker_swarm_cluster_con.Storage.MicroCeph.Pools.Listed.{create_pool-ok, located-is_on}

abbrev keys : KeyDecoders
keys = record {
  single_key = λ s. none;
  first_key = λ s. some "key";
  fs_names = λ s. some (if s == "early" then [] else "data" ∷ []);
}

abbrev now : ℕ → ℕ
now w = w

abbrev never : ℕ → Bool
never w = false

abbrev sleep : ℕ → ℕ → ℕ
sleep d w = w + d

-- The pools are there already, and the file system appears after twelve seconds.
abbrev run : String → String → ℕ → RunResult × ℕ
run host cmd w = (
  record {
    stdout =
        if has_prefix cmd "ceph fs ls"
        then (if ltb w (12 * second) then "early" else "late")
        else host;
    stderr = "already exists";
    failed = has_prefix cmd "ceph osd pool create";
  },
  w,
)

creating_run : create_pool decoders keys run now never sleep "m1" "data" 0 ≡ (ok tt, 15 * second)
unfolding create_pool ◌>>=◌ return each wrap has_prefix
creating_run = refl

listed_run :
    (w₀ : ℕ) × (names : List String) × (keys.fs_names (run "m1" "ceph fs ls -f json" w₀).0.stdout
      ≡ some names)
    × (lists_name "data" names ≡ true)
listed_run =
    create_pool-ok decoders keys run now never sleep "m1" "data" 0 (15 * second) creating_run

credentials_run :
    get_cluster_credentials decoders keys run now never sleep "m1"
      ("m1" ∷ ("m2" ∷ []))
      ""
      (20 * second)
    ≡ (
      ok (record {
        admin_key = "key";
        mon_addrs = "m1:6789,m2:6789";
        fsid = "m1";
        fs_name = "data";
        mon_addr_opt = "m1:6789/m2:6789";
      }),
      20 * second,
    )
unfolding get_cluster_credentials ◌>>=◌ return has_prefix
credentials_run = refl

abbrev disks : List ConfiguredDisk
disks =
    record { osd = pos 1; location = "n1"; path = "/dev/sdb" }
    ∷ (record { osd = pos 2; location = "n2"; path = "/dev/sdb" } ∷ [])

-- The node counts the removals.
abbrev removing : String → String → ℕ → RunResult × ℕ
removing host cmd w = (
  record { stdout = "n1.example.org"; stderr = ""; failed = false },
  if has_prefix cmd "timeout 30 microceph disk remove" then w + 1 else w,
)

removal_run : remove_osds_for_node removing (λ s. some disks) "10.0.0.1" 0 ≡ 1
unfolding remove_osds_for_node has_prefix
removal_run = refl

located_run :
    (d : ConfiguredDisk)
    → located "n1.example.org" "10.0.0.1" d ≡ is_on "n1.example.org" "10.0.0.1" d
located_run = located-is_on "n1.example.org" "10.0.0.1"
