-- ===== src/Storage/MicroCeph/Disks/Eligible.antt =====
-- Which disks `getEligibleDisks` of internal/storage/microceph.go selects, and what `AddStorage` does
-- where there is nothing to add.
use docker_swarm_cluster_con.Prelude.{
  String, Bool, false, not, List, Option, ◌==◌, filter, trim_space, split_lines, map, ◌||◌, ◌=?◌,
  ltb, length, some, none,
}
use docker_swarm_cluster_con.Config.{Config}

-- The disks that the listing names.
abbrev pub named : (output : String) → List String
named output = filter (λ disk. not (disk == "")) (map trim_space (split_lines (trim_space output)))

module _ (matches : String → String → Option Bool) where
  -- The pattern is valid and matches the disk.
  abbrev pub accepts : (disk pattern : String) → Bool
  accepts disk pattern = elim (matches pattern disk) [ some b ↦ b | none ↦ false ]

  -- Some valid pattern of the list matches the disk.
  abbrev pub is_matched : List String → String → Bool
  is_matched patterns disk = ltb 0 (length (filter (accepts disk) patterns))

  -- Some inclusion pattern matches, or there is none.
  abbrev pub is_included : List String → String → Bool
  is_included patterns disk = (length patterns =? 0) || is_matched patterns disk
