-- ===== src/Storage/MicroCeph/Health/Majority.antt =====
-- What the checks of the cluster's health in internal/storage/microceph.go establish.
use docker_swarm_cluster_con.Prelude.{
  ℕ, ◌*◌, ◌≤◌, ◌<◌, ◌≡◌, ◌↔◌, ◌⊎◌, inl, inr, refl, arith, String, Bool, true, false, List, [], ◌∷◌,
  Option, none, some, ok, ◌==◌, ◌=?◌, ltb, Bool-cases, Option-cases, ℤ, eq_iff, if◌then◌else◌,
}
use docker_swarm_cluster_con.Ssh.{RunResult}
use docker_swarm_cluster_con.Storage.MicroCeph.Polling.{poll_for-ok}
use docker_swarm_cluster_con.Storage.MicroCeph.Health.{
  CephStatus, OsdTreeNode, count_children, count_osds_for_host, host_node, node_of, health_of,
  osds_of, majority, is_healthy, health_gate, no_osds_up, degraded, ask, wait_for_cluster_health,
  ceph_status_cmd,
}

count_children-up_le :
    (nodes : List OsdTreeNode) (ids : List ℤ)
    → (count_children nodes ids).1 ≤ (count_children nodes ids).0
unfolding count_children
count_children-up_le nodes [] = omega arith
count_children-up_le nodes (id ∷ ids) =
    let ih = count_children-up_le nodes ids in
    elim (Option-cases (node_of id nodes)) [
      | inl e ↦ rw (e, count_children) ih
      | inr (n, e) ↦ rw (e, count_children) (ground (arith, ih))
    ]

-- Of the OSDs that are counted for a host at most all are up, and none is counted for a host that is
-- not in the tree.
pub count_osds_bounds :
    (nodes : List OsdTreeNode) (host : String)
    → ((count_osds_for_host nodes host).1.1 ≤ (count_osds_for_host nodes host).1.0)
      × ((count_osds_for_host nodes host).0 ≡ false → (count_osds_for_host nodes host).1.0 ≡ 0)
unfolding count_osds_for_host
count_osds_bounds nodes host = elim (Option-cases (host_node host nodes)) [
  | inl e ↦ rw (e, count_osds_for_host) ((omega arith, λ h. refl))
  | inr (n, e) ↦
      rw (e, count_osds_for_host) ((count_children-up_le nodes n.children, λ h. ground arith))
]

-- A majority of the OSDs is more than half of them.
majority-half : (n up : ℕ) → (majority n ≤ up) ↔ (n < 2 * up)
unfolding majority
majority-half n up = (λ h. omega arith, λ h. omega arith)

gate_counts :
    (total up : ℕ)
    → ((if up =? 0
          then some no_osds_up
          else if ltb up (majority total)
          then some degraded
          else none)
        ≡ none)
      ↔ (total < 2 * up)
unfolding majority
gate_counts total up = (λ h. ground arith, λ h. ground arith)

healthy_parts :
    (expected : ℕ) (cs : CephStatus)
    → is_healthy expected cs ≡ true
    → (majority expected ≤ (osds_of cs).1)
      × ((health_of cs ≡ "HEALTH_OK") ⊎ (health_of cs ≡ "HEALTH_WARN"))
unfolding is_healthy
healthy_parts expected cs h =
    let health = health_of cs in
    let enough : majority expected ≤ (osds_of cs).1 = ground arith in
    elim (Bool-cases (health == "HEALTH_OK")) [
      | inl t ↦ (enough, inl ((eq_iff health "HEALTH_OK").0 t))
      | inr f ↦ (enough, inr ((eq_iff health "HEALTH_WARN").0 (ground arith)))
    ]

-- The gate before the mounts opens exactly on a decoded status in which more than half of the OSDs
-- are up; the health that the cluster reports does not matter.
pub health_gate_iff :
    (s : Option CephStatus)
    → (health_gate s ≡ none)
      ↔ ((cs : CephStatus) × (s ≡ some cs) × ((osds_of cs).0 < 2 * (osds_of cs).1))
unfolding health_gate
health_gate_iff none = (λ h. ground arith, λ (cs, e, lt). ground arith)
health_gate_iff (some cs) = (
  λ h. (cs, refl, (gate_counts (osds_of cs).0 (osds_of cs).1).0 h),
  λ (cs', e, lt). (gate_counts (osds_of cs).0 (osds_of cs).1).1 (ground arith),
)

pub ask-true :
    {A W : Type 0} (run : String → String → W → RunResult × W) (decode : String → Option A)
    (wanted : A → Bool) (host cmd : String) (w w' : W)
    → ask run decode wanted host cmd w ≡ (true, w')
    → (a : A) × (decode (run host cmd w).0.stdout ≡ some a) × (wanted a ≡ true)
unfolding ask
ask-true run decode wanted host cmd w w' h = elim (Bool-cases (run host cmd w).0.failed) [
  | inl t ↦ ground arith
  | inr f ↦ elim (Option-cases (decode (run host cmd w).0.stdout)) [
    | inl e ↦ ground arith
    | inr (a, e) ↦ (a, e, ground arith)
  ]
]

-- If waiting for the cluster's health succeeds, Ceph has reported, during the wait, a health of OK or
-- WARN and more OSDs up than half of those expected.
pub wait_for_cluster_health-ok :
    {W : Type 0} (run : String → String → W → RunResult × W) (now : W → ℕ) (cancelled : W → Bool)
    (sleep : ℕ → W → W) (decode : String → Option CephStatus) (mon : String) (expected : ℕ)
    (w w' : W)
    → wait_for_cluster_health run now cancelled sleep decode mon expected w ≡ (ok tt, w')
    → (w₀ : W) × (cs : CephStatus) × (decode (run mon ceph_status_cmd w₀).0.stdout ≡ some cs)
      × (expected < 2 * (osds_of cs).1)
      × ((health_of cs ≡ "HEALTH_OK") ⊎ (health_of cs ≡ "HEALTH_WARN"))
unfolding wait_for_cluster_health
wait_for_cluster_health-ok run now cancelled sleep decode mon expected w w' h =
    let (w₀, e) =
      poll_for-ok now cancelled sleep _ _ (ask run decode (is_healthy expected) mon ceph_status_cmd)
        w w' h in
    let (cs, e', t) = ask-true run decode (is_healthy expected) mon ceph_status_cmd w₀ w' e in
    let (enough, health) = healthy_parts expected cs t in
    (w₀, cs, e', (majority-half expected (osds_of cs).1).0 enough, health)
