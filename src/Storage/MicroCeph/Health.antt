-- ===== src/Storage/MicroCeph/Health.antt =====
-- `countOSDsForHost`, `VerifyOSDsUpForHost`, `WaitForClusterHealth` and `VerifyClusterHealthForMount`
-- of internal/storage/microceph.go. What `json.Unmarshal` makes of Ceph's output is a parameter;
-- Ceph's counts are natural numbers.
pub mod Majority
pub mod Tests
use docker_swarm_cluster_con.Prelude.{
  ℕ, suc, zero, ◌+◌, ◌*◌, ◌/◌, max, String, Bool, true, false, ◌&&◌, ◌||◌, not, List, [], ◌∷◌,
  Option, none, some, ok, err, ◌==◌, ◌=?◌, ltb, leb, if◌then◌else◌, equal_fold, short_host, ℤ, pos,
  negsuc,
}
use docker_swarm_cluster_con.Prelude.Action.{Action}
use docker_swarm_cluster_con.Retry.{second}
use docker_swarm_cluster_con.Ssh.{RunResult}
use docker_swarm_cluster_con.Storage.MicroCeph.Polling.{PollError, poll_for}

-- `cephStatusJSON`: the counts that some versions nest, and those of the others.
pub record CephStatus : Type 0 where
  pub status : String
  pub overall_status : String
  pub nested_osds : ℕ
  pub nested_up : ℕ
  pub num_osds : ℕ
  pub num_up : ℕ

pub record OsdTreeNode : Type 0 where
  pub id : ℤ
  pub name : String
  pub type : String
  pub status : String
  pub children : List ℤ
  pub exists : ℕ

abbrev pub osd_tree_cmd : String
osd_tree_cmd = "ceph osd tree --format json"

abbrev pub ceph_status_cmd : String
ceph_status_cmd = "ceph status --format json"

unfoldable pub same_id : ℤ → ℤ → Bool
same_id (pos a) (pos b) = a =? b
same_id (negsuc a) (negsuc b) = a =? b
same_id (pos a) (negsuc b) = false
same_id (negsuc a) (pos b) = false

-- `nodeMap[id]`, where a later node replaces an earlier one.
unfoldable pub node_of : ℤ → List OsdTreeNode → Option OsdTreeNode
unfolding same_id
node_of id [] = none
node_of id (n ∷ ns) =
    let rest = node_of id ns in
    elim rest [ some m ↦ some m | none ↦ if same_id n.id id then some n else none ]

-- The first node that is the host, by its full or its short name.
unfoldable pub host_node : String → List OsdTreeNode → Option OsdTreeNode
unfolding equal_fold short_host
host_node host [] = none
host_node host (n ∷ ns) =
    let rest = host_node host ns in
    if (n.type == "host") && (equal_fold n.name host || equal_fold n.name (short_host host))
    then some n
    else rest

-- An OSD that is there.
unfoldable pub is_osd : OsdTreeNode → Bool
is_osd n = (n.type == "osd") && not (n.exists =? 0)

-- How many OSDs there are, and how many of them are up.
unfoldable pub count_children : List OsdTreeNode → List ℤ → ℕ × ℕ
unfolding node_of is_osd
count_children nodes [] = (0, 0)
count_children nodes (id ∷ ids) =
    let (total, up) = count_children nodes ids in
    elim (node_of id nodes) [
      | none ↦ (total, up)
      | some n ↦
          if is_osd n then (total + 1, if n.status == "up" then up + 1 else up) else (total, up)
    ]

unfoldable pub count_osds_for_host : List OsdTreeNode → String → Bool × (ℕ × ℕ)
unfolding host_node count_children
count_osds_for_host nodes host = elim (host_node host nodes) [
  | none ↦ (false, (0, 0))
  | some n ↦ (true, count_children nodes n.children)
]

unfoldable pub health_of : CephStatus → String
health_of cs = if cs.status == "" then cs.overall_status else cs.status

-- All OSDs, and those that are up.
unfoldable pub osds_of : CephStatus → ℕ × ℕ
osds_of cs =
    if ltb 0 cs.nested_osds then (cs.nested_osds, cs.nested_up) else (cs.num_osds, cs.num_up)

unfoldable pub majority : ℕ → ℕ
majority n = max 1 (n / 2 + 1)

unfoldable pub is_healthy : ℕ → CephStatus → Bool
unfolding health_of osds_of majority
is_healthy expected cs =
    let health = health_of cs in
    leb (majority expected) (osds_of cs).1 && (health == "HEALTH_OK" || health == "HEALTH_WARN")

pub data HealthError : Type 0 where
  status_unknown not_parsed no_osds_up degraded : HealthError

unfoldable pub health_gate : Option CephStatus → Option HealthError
unfolding osds_of majority
health_gate none = some not_parsed
health_gate (some cs) =
    let (total, up) = osds_of cs in
    if up =? 0 then some no_osds_up else if ltb up (majority total) then some degraded else none

-- The host is in the tree, with an OSD that is up.
unfoldable pub has_osd_up : String → List OsdTreeNode → Bool
unfolding count_osds_for_host
has_osd_up host nodes =
    let (found, (total, up)) = count_osds_for_host nodes host in
    found && (not (total =? 0) && ltb 0 up)

-- The file system is in the list of `ceph fs ls`.
unfoldable pub lists_name : String → List String → Bool
lists_name name [] = false
lists_name name (n ∷ ns) = n == name || lists_name name ns

module _ {W : Type 0} (run : String → String → W → RunResult × W) where
  -- One question of a loop: the decoded output of a command that succeeds.
  unfoldable pub ask :
      {A : Type 0} → (String → Option A) → (A → Bool) → (host cmd : String) → W → Bool × W
  ask decode wanted host cmd w =
      let (r, w₁) = run host cmd w in
      (
        if r.failed then false else (elim (decode r.stdout) [ none ↦ false | some a ↦ wanted a ]),
        w₁,
      )

  unfoldable pub verify_cluster_health_for_mount :
      (decode : String → Option CephStatus) → (mon : String) → Action W HealthError (Unit {0})
  unfolding health_gate
  verify_cluster_health_for_mount decode mon w =
      let (r, w₁) = run mon ceph_status_cmd w in
      elim r.failed [
        | true ↦ (err status_unknown, w₁)
        | false ↦ elim (health_gate (decode r.stdout)) [ none ↦ (ok tt, w₁) | some e ↦ (err e, w₁) ]
      ]

  module _ (now : W → ℕ) (cancelled : W → Bool) (sleep : ℕ → W → W) where
    unfoldable pub verify_osds_up_for_host :
        (decode : String → Option (List OsdTreeNode))
        → (mon osd_hostname : String) → Action W PollError (Unit {0})
    unfolding poll_for ask has_osd_up
    verify_osds_up_for_host decode mon osd_hostname =
        poll_for now cancelled sleep (60 * second) (5 * second)
          (ask decode (has_osd_up osd_hostname) mon osd_tree_cmd)

    unfoldable pub wait_for_cluster_health :
        (decode : String → Option CephStatus)
        → (mon : String) (expected_osds : ℕ) → Action W PollError (Unit {0})
    unfolding poll_for ask is_healthy
    wait_for_cluster_health decode mon expected_osds =
        poll_for now cancelled sleep (300 * second) (10 * second)
          (ask decode (is_healthy expected_osds) mon ceph_status_cmd)

    unfoldable pub wait_for_ceph_fs :
        (decode : String → Option (List String))
        → (primary fs_name : String) → Action W PollError (Unit {0})
    unfolding poll_for ask lists_name
    wait_for_ceph_fs decode primary fs_name =
        poll_for now cancelled sleep (60 * second) (5 * second)
          (ask decode (lists_name fs_name) primary "ceph fs ls -f json")
