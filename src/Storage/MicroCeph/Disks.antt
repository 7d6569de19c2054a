-- ===== src/Storage/MicroCeph/Disks.antt =====
-- `AddStorage` of internal/storage/microceph.go with `getConfiguredDisksForNode`, `getEligibleDisks`
-- and `prepareDiskForMicroCeph`. `matches` is `regexp.MatchString`, and `decode` is what
-- `json.Unmarshal` makes of the disk list.
mod Script
pub mod Eligible
pub mod Tests
use docker_swarm_cluster_con.Prelude.{
  ℕ, suc, zero, ◌+◌, ◌*◌, String, Bool, true, false, ◌&&◌, ◌||◌, not, List, [], ◌∷◌, Option, none,
  some, Result, ok, err, ◌==◌, ◌=?◌, ltb, if◌then◌else◌, contains, trim_space, split_lines,
  short_host, filter, ℤ, show_int, ◌^^◌,
}
use docker_swarm_cluster_con.Prelude.Action.{Action}
use docker_swarm_cluster_con.Config.{Config, EligibleDisks}
use docker_swarm_cluster_con.Retry.{second}
use docker_swarm_cluster_con.Ssh.{RunResult}
use docker_swarm_cluster_con.Storage.MicroCeph.Disks.Script.{prepare_script}

pub record ConfiguredDisk : Type 0 where
  pub osd : ℤ
  pub location : String
  pub path : String

pub data DiskError : Type 0 where
  list_failed directory_failed loop_failed : DiskError

abbrev pub own_name_cmd : String
own_name_cmd = "hostname -f 2>/dev/null || hostname 2>/dev/null || echo ''"

abbrev pub disk_list_cmd : String
disk_list_cmd = "microceph disk list --json"

abbrev pub list_cmd : String
list_cmd = "lsblk -dpno NAME,TYPE | grep disk | awk '{print $1}'"

abbrev settle_cmd : String
settle_cmd = "command -v udevadm >/dev/null 2>&1 && udevadm settle || true"

abbrev pub add_cmd : String → String
add_cmd disk = "microceph disk add " ^^ (disk ^^ " --wipe")

unfoldable pub is_on : (full node : String) → ConfiguredDisk → Bool
unfolding short_host
is_on full node d =
    not (d.location == "")
    && (d.location == full || (d.location == short_host full || d.location == node))

unfoldable pub osds_on : (full node : String) → List ConfiguredDisk → List ℤ
unfolding is_on
osds_on full node [] = []
osds_on full node (d ∷ ds) =
    let rest = osds_on full node ds in if is_on full node d then d.osd ∷ rest else rest

-- The errors after which adding a disk is tried again.
unfoldable pub is_transient : RunResult → Bool
unfolding contains trim_space
is_transient r =
    let text = trim_space r.stderr in
    contains text "Device or resource busy"
    || (contains text "unable to decode label"
        || (contains text "Malformed input" || contains text "End of buffer"))

-- The disks that can be had; an error leaves none.
unfoldable pub disks_of : Result DiskError (List String) → List String
disks_of (ok disks) = disks
disks_of (err e) = []

module _ (matches : String → String → Option Bool) where
  -- A pattern that matches the disk; an invalid one is passed over.
  unfoldable pub any_match : List String → String → Bool
  any_match [] disk = false
  any_match (p ∷ ps) disk =
      let rest = any_match ps disk in elim (matches p disk) [ some b ↦ b || rest | none ↦ rest ]

  unfoldable pub included_disks : (inclusions lines : List String) → List String
  unfolding any_match trim_space
  included_disks inclusions [] = []
  included_disks inclusions (l ∷ ls) =
      let rest = included_disks inclusions ls in
      let disk = trim_space l in
      if disk == "" then rest else elim inclusions [
        | [] ↦ disk ∷ rest
        | p ∷ ps ↦ if any_match (p ∷ ps) disk then disk ∷ rest else rest
      ]

  unfoldable pub eligible_of : EligibleDisks → (output : String) → List String
  unfolding included_disks any_match trim_space split_lines
  eligible_of e output =
      filter (λ disk. not (any_match e.exclusion_expression disk))
        (included_disks e.inclusion_expression (split_lines (trim_space output)))

  module _ {W : Type 0} (run : String → String → W → RunResult × W) (sleep : ℕ → W → W)
      (decode : String → Option (List ConfiguredDisk)) (c : Config) where
    unfoldable pub get_configured_disks_for_node : (node : String) → W → List ℤ × W
    unfolding trim_space osds_on
    get_configured_disks_for_node node w =
        let (r, w₁) = run node own_name_cmd w in
        let full = if r.failed then "" else trim_space r.stdout in
        let (r, w₂) = run node disk_list_cmd w₁ in
        (
          if r.failed
              then []
              else (elim (decode r.stdout) [ none ↦ [] | some ds ↦ osds_on full node ds ]),
          w₂,
        )

    unfoldable pub get_eligible_disks : (node : String) → Action W DiskError (List String)
    unfolding eligible_of
    get_eligible_disks node w =
        let (r, w₁) = run node list_cmd w in
        (
          if r.failed
              then err list_failed
              else ok (eligible_of c.global_settings.distributed_storage.eligible_disks r.stdout),
          w₁,
        )

    -- The loop over the attempts to add a disk, with so many left; whether the disk was added.
    unfoldable pub add_attempts : (left : ℕ) → (node disk : String) → W → Bool × W
    unfolding is_transient
    add_attempts zero node disk w = (false, w)
    add_attempts (suc left) node disk w =
        let (r, w₁) = run node (add_cmd disk) w in
        elim (not r.failed) [
          | true ↦ (true, w₁)
          | false ↦ elim (ltb 0 left && is_transient r) [
            | true ↦ add_attempts left node disk (sleep (10 * second) w₁)
            | false ↦ (false, w₁)
          ]
        ]

    unfoldable pub add_disk : (node disk : String) → W → Bool × W
    unfolding prepare_script add_attempts
    add_disk node disk w =
        let w₁ = (run node ("sh -s << 'EOF'\n" ^^ (prepare_script disk ^^ "\nEOF")) w).1 in
        let w₂ = (run node settle_cmd w₁).1 in add_attempts 3 node disk (sleep (15 * second) w₂)

    -- How many of the disks were added.
    unfoldable pub add_disks : (node : String) → List String → W → ℕ × W
    unfolding add_disk
    add_disks node [] w = (0, w)
    add_disks node (disk ∷ disks) w =
        let (added, w₁) = add_disk node disk w in
        let (rest, w₂) = add_disks node disks w₁ in (if added then rest + 1 else rest, w₂)

    unfoldable pub add_loop_device : (node : String) → Action W DiskError (Unit {0})
    unfolding show_int
    add_loop_device node w =
        let mc = c.global_settings.distributed_storage.microceph in
        let (r, w₁) = run node ("mkdir -p " ^^ mc.loop_device_directory) w in
        elim r.failed [
          | true ↦ (err directory_failed, w₁)
          | false ↦
              let (r, w₂) =
                run node
                  ("microceph disk add loop,"
                    ^^ (show_int mc.loop_device_size_gb
                        ^^ ("G,1 --data-dir " ^^ mc.loop_device_directory)))
                  w₁ in
              elim r.failed [ true ↦ (err loop_failed, w₂) | false ↦ (ok tt, w₂) ]
        ]

    -- After so many disks were added: a loop device if there is none, and the disk list for the log.
    unfoldable pub finish_storage : (added : ℕ) → (node : String) → Action W DiskError (Unit {0})
    unfolding add_loop_device
    finish_storage added node w =
        let mc = c.global_settings.distributed_storage.microceph in
        elim ((added =? 0) && mc.allow_loop_devices) [
          | false ↦ (ok tt, (run node disk_list_cmd w).1)
          | true ↦
              let (r, w₁) = add_loop_device node w in
              elim r [ err e ↦ (err e, w₁) | ok _ ↦ (ok tt, (run node disk_list_cmd w₁).1) ]
        ]

    -- A node with OSDs is left alone.
    unfoldable pub add_unless :
        (configured : List ℤ) (node : String) → Action W DiskError (Unit {0})
    unfolding get_eligible_disks disks_of add_disks finish_storage
    add_unless (osd ∷ osds) node w = (ok tt, w)
    add_unless [] node w =
        let (r, w₁) = get_eligible_disks node w in
        let (added, w₂) = add_disks node (disks_of r) w₁ in finish_storage added node w₂

    unfoldable pub add_storage : (node : String) → Action W DiskError (Unit {0})
    unfolding get_configured_disks_for_node add_unless
    add_storage node w =
        let (configured, w₁) = get_configured_disks_for_node node w in add_unless configured node w₁
