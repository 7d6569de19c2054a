-- ===== src/Storage/MicroCeph/Health/Tests.antt =====
-- Runs of the health checks of internal/storage/microceph.go. The world is the clock.
use docker_swarm_cluster_con.Prelude.{
  ℕ, ◌+◌, ◌*◌, ◌≤◌, ◌<◌, ◌≡◌, ◌≢◌, ◌↔◌, ◌⊎◌, refl, arith, String, Bool, true, false, List, [], ◌∷◌,
  Option, none, some, ok, err, ltb, ◌==◌, if◌then◌else◌, pos, negsuc,
}
use docker_swarm_cluster_con.Retry.{second}
use docker_swarm_cluster_con.Ssh.{RunResult}
use docker_swarm_cluster_con.Storage.MicroCeph.Polling.{
  poll_for, poll_for-ends, out_of_fuel, timed_out,
}
use docker_swarm_cluster_con.Storage.MicroCeph.Health.{
  CephStatus, OsdTreeNode, count_osds_for_host, health_of, osds_of, health_gate, degraded,
  wait_for_cluster_health, ceph_status_cmd,
}
use docker_swarm_cluster_con.Storage.MicroCeph.Health.Majority.{
  count_osds_bounds, health_gate_iff, wait_for_cluster_health-ok,
}

abbrev now : ℕ → ℕ
now w = w

abbrev sleep : ℕ → ℕ → ℕ
sleep d w = w + d

abbrev never : ℕ → Bool
never w = false

-- Two of three OSDs come up after twenty seconds.
abbrev run : String → String → ℕ → RunResult × ℕ
run host cmd w =
    (record { stdout = if ltb w (20 * second) then "1" else "2"; stderr = ""; failed = false }, w)

abbrev status : ℕ → CephStatus
status up = record {
  status = "HEALTH_WARN";
  overall_status = "";
  nested_osds = 3;
  nested_up = up;
  num_osds = 0;
  num_up = 0;
}

abbrev decode : String → Option CephStatus
decode text = some (status (if text == "1" then 1 else 2))

wait_run : wait_for_cluster_health run now never sleep decode "m1" 3 0 ≡ (ok tt, 20 * second)
unfolding wait_for_cluster_health
wait_run = refl

too_few_run : (wait_for_cluster_health run now never sleep decode "m1" 4 0).0 ≡ err timed_out
unfolding wait_for_cluster_health
too_few_run = refl

wait_for_cluster_health-ok_example :
    (w₀ : ℕ) × (cs : CephStatus) × (decode (run "m1" ceph_status_cmd w₀).0.stdout ≡ some cs)
    × (3 < 2 * (osds_of cs).1)
    × ((health_of cs ≡ "HEALTH_OK") ⊎ (health_of cs ≡ "HEALTH_WARN"))
wait_for_cluster_health-ok_example =
    wait_for_cluster_health-ok run now never sleep decode "m1" 3 0 (20 * second) wait_run

asking : (w : ℕ) → now w ≤ now w
asking w = omega arith

sleeping : (w : ℕ) → now w + 10 ≤ now (sleep 10 w)
sleeping w = omega arith

positive : 0 < 10
positive = omega arith

poll_for-ends_example : (poll_for now never sleep 95 10 (λ w. (false, w)) 0).0 ≢ err out_of_fuel
poll_for-ends_example =
    poll_for-ends now never sleep 10 (λ w. (false, w)) asking sleeping 95 0 positive

gate_run : health_gate (some (status 1)) ≡ some degraded
unfolding health_gate
gate_run = refl

health_gate_iff_example :
    (health_gate (some (status 2)) ≡ none)
    ↔ ((cs : CephStatus) × (some (status 2) ≡ some cs) × ((osds_of cs).0 < 2 * (osds_of cs).1))
health_gate_iff_example = health_gate_iff (some (status 2))

abbrev tree : List OsdTreeNode
tree =
    record {
      id = negsuc 1;
      name = "N1";
      type = "host";
      status = "";
      children = pos 0 ∷ (pos 1 ∷ []);
      exists = 0;
    }
    ∷ (record { id = pos 0; name = "osd.0"; type = "osd"; status = "up"; children = []; exists = 1 }
        ∷ (record {
          id = pos 1;
          name = "osd.1";
          type = "osd";
          status = "down";
          children = [];
          exists = 1;
        }
            ∷ []))

count_run : count_osds_for_host tree "n1.example.org" ≡ (true, (2, 1))
unfolding count_osds_for_host
count_run = refl

count_osds_bounds_run :
    ((count_osds_for_host tree "n1.example.org").1.1
      ≤ (count_osds_for_host tree "n1.example.org").1.0)
    × ((count_osds_for_host tree "n1.example.org").0 ≡ false
        → (count_osds_for_host tree "n1.example.org").1.0 ≡ 0)
count_osds_bounds_run = count_osds_bounds tree "n1.example.org"
