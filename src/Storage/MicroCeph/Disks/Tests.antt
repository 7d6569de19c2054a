-- ===== src/Storage/MicroCeph/Disks/Tests.antt =====
-- Runs of `AddStorage` of internal/storage/microceph.go. The world counts the tries to add a disk.
use docker_swarm_cluster_con.Prelude.{
  ℕ, ◌+◌, ◌≡◌, refl, String, Bool, true, false, List, [], ◌∷◌, Option, none, some, ◌==◌, ltb,
  if◌then◌else◌, pos, has_prefix,
}
use docker_swarm_cluster_con.Config.{EligibleDisks}
use docker_swarm_cluster_con.Config.Samples.{cluster}
use docker_swarm_cluster_con.Ssh.{RunResult}
use docker_swarm_cluster_con.Storage.MicroCeph.Disks.{
  ConfiguredDisk, eligible_of, add_disk, disk_list_cmd,
}

-- A pattern is a text that the disk begins with; "(" is invalid.
abbrev matches : String → String → Option Bool
matches pattern disk = if pattern == "(" then none else some (has_prefix disk pattern)

abbrev disks : EligibleDisks
disks = record {
  inclusion_expression = "(" ∷ ("/dev/sd" ∷ []);
  exclusion_expression = "/dev/sda" ∷ [];
}

abbrev output : String
output = "/dev/sda\n/dev/sdb\n/dev/vda\n"

eligible_run : eligible_of matches disks output ≡ "/dev/sdb" ∷ []
unfolding eligible_of has_prefix
eligible_run = refl

abbrev answer : Bool → String → String → RunResult
answer failed out text = record { stdout = out; stderr = text; failed = failed }

-- The disk list is what the test says; adding is refused twice because the disk is busy.
abbrev run : String → String → String → ℕ → RunResult × ℕ
run listed host cmd w =
    if cmd == disk_list_cmd
    then (answer false listed "", w)
    else if has_prefix cmd "microceph disk add"
    then (answer (ltb w 2) "" "Device or resource busy", w + 1)
    else (answer false "" "", w)

abbrev sleep : ℕ → ℕ → ℕ
sleep d w = w

abbrev decode : String → Option (List ConfiguredDisk)
decode text =
    if text == "one"
    then some (record { osd = pos 1; location = "n1"; path = "/dev/sdb" } ∷ [])
    else none

third_try_run : add_disk matches (run "") sleep decode cluster "n1" "/dev/sdb" 0 ≡ (true, 3)
unfolding add_disk has_prefix
third_try_run = refl
