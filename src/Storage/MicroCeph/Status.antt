-- ===== src/Storage/MicroCeph/Status.antt =====
-- `Status` of internal/storage/microceph.go. `scan_number` is `fmt.Sscanf` with "%d": the number that
-- the text begins with, or what the variable held before.
use docker_swarm_cluster_con.Prelude.{
  String, Bool, true, false, ◌&&◌, ◌||◌, List, [], ◌∷◌, Option, none, some, ok, err, ◌==◌,
  if◌then◌else◌, contains, trim_space, fields, split_lines, pos, is_zero, ℤ,
}
use docker_swarm_cluster_con.Prelude.Action.{Action}
use docker_swarm_cluster_con.Ssh.{RunResult}
use docker_swarm_cluster_con.Storage.Types.{ClusterStatus}
use docker_swarm_cluster_con.Storage.MicroCeph.{CephError, status_failed, status_cmd}
use docker_swarm_cluster_con.Storage.MicroCeph.Health.{CephStatus, osds_of, ceph_status_cmd}

unfoldable pub is_fine : String → Bool
is_fine health = health == "HEALTH_OK" || health == "HEALTH_WARN"

-- What is known so far: whether the cluster is healthy, and how many OSDs it has.
abbrev pub Known : Type 0
Known = Bool × ℤ

unfoldable pub from_json : Option CephStatus → Known
unfolding is_fine osds_of trim_space
from_json none = (false, pos 0)
from_json (some cs) =
    let status = trim_space cs.status in
    (is_fine (if status == "" then trim_space cs.overall_status else status), pos (osds_of cs).0)

-- What follows the first "osd:" that is not the last word.
unfoldable pub after_osd : List String → Option String
after_osd [] = none
after_osd (p ∷ []) = none
after_osd (p ∷ (q ∷ rest)) =
    let found = after_osd (q ∷ rest) in if p == "osd:" then some q else found

module _ (scan_number : String → ℤ → ℤ) where
  unfoldable pub count_line : String → ℤ → ℤ
  unfolding contains fields after_osd
  count_line line count =
      if contains line "osd:" && contains line "osds:"
      then (elim (after_osd (fields line)) [ none ↦ count | some text ↦ scan_number text count ])
      else count

  unfoldable pub count_lines_of : List String → ℤ → ℤ
  unfolding count_line
  count_lines_of [] count = count
  count_lines_of (l ∷ ls) count = count_lines_of ls (count_line l count)

  unfoldable pub from_text : String → Known
  unfolding contains split_lines count_lines_of
  from_text text = (
    contains text "HEALTH_OK" || contains text "HEALTH_WARN",
    if contains text "osd:" then count_lines_of (split_lines text) (pos 0) else pos 0,
  )

  module _ {W : Type 0} (run : String → String → W → RunResult × W)
      (decode : String → Option CephStatus) where
    json_known : RunResult → Known
    unfolding from_json trim_space
    json_known r =
        if r.failed || (trim_space r.stdout == "")
        then (false, pos 0)
        else from_json (decode r.stdout)

    -- The older, textual status, if the JSON told nothing.
    or_textual : Known → (node : String) → W → Known × W
    unfolding from_text
    or_textual (true, count) node w = ((true, count), w)
    or_textual (false, count) node w = elim (is_zero count) [
      | false ↦ ((false, count), w)
      | true ↦
          let (r, w₁) = run node "ceph status" w in
          (if r.failed then (false, count) else from_text r.stdout, w₁)
    ]

    unfoldable pub status : (node : String) → Action W CephError ClusterStatus
    unfolding json_known or_textual
    status node w =
        let (r, w₁) = run node status_cmd w in
        elim r.failed [
          | true ↦ (err status_failed, w₁)
          | false ↦
              let (r, w₂) = run node ceph_status_cmd w₁ in
              let ((healthy, count), w₃) = or_textual (json_known r) node w₂ in
              (
                ok (record {
                  healthy = healthy;
                  node_count = count;
                  storage_used = pos 0;
                  storage_total = pos 0;
                  nodes = [];
                }),
                w₃,
              )
        ]
