-- ===== src/Storage/Setup/Nodes.antt =====
-- Which nodes `SetupCluster` of internal/storage/provider.go adds storage to.
use docker_swarm_cluster_con.Prelude.{
  ◌≡◌, refl, arith, String, Bool, true, false, ◌&&◌, ◌||◌, List, [], ◌∷◌, ◌++◌, filter, Bool-cases,
  inl, inr, eq_iff, eq_refl,
}
use docker_swarm_cluster_con.Config.Nodes.{contains_text}
use docker_swarm_cluster_con.Config.Nodes.Membership.{contains_text-append, contains_text-filter}
use docker_swarm_cluster_con.Config.Nodes.Partition.{Distinct}
use docker_swarm_cluster_con.Storage.Types.{NodeInfo}
use docker_swarm_cluster_con.Storage.Setup.{unseen, all_nodes, should_add_storage, storage_nodes}

contains_text-unseen :
    (h : String) (seen ns : List String)
    → contains_text h seen ≡ false
    → contains_text h (unseen seen ns) ≡ contains_text h ns
unfolding contains_text unseen
contains_text-unseen h seen [] s = refl
contains_text-unseen h seen (n ∷ ns) s = elim (Bool-cases (contains_text n seen)) [
  | inl old ↦ rw (old, unseen) (ground (arith, contains_text-unseen h seen ns, eq_iff n h))
  | inr new ↦ rw (new, unseen) (ground (arith, contains_text-unseen h (n ∷ seen) ns, eq_iff n h))
]

unseen-seen :
    (h : String) (seen ns : List String)
    → contains_text h seen ≡ true
    → contains_text h (unseen seen ns) ≡ false
unfolding contains_text unseen
unseen-seen h seen [] s = refl
unseen-seen h seen (n ∷ ns) s = elim (Bool-cases (contains_text n seen)) [
  | inl old ↦ rw (old, unseen) (unseen-seen h seen ns s)
  | inr new ↦ rw (new, unseen) (ground (arith, unseen-seen h (n ∷ seen) ns, eq_iff n h))
]

unseen-Distinct : (seen ns : List String) → Distinct (unseen seen ns)
unfolding contains_text unseen
unseen-Distinct seen [] = tt
unseen-Distinct seen (n ∷ ns) = elim (Bool-cases (contains_text n seen)) [
  | inl old ↦ rw (old, unseen) (unseen-Distinct seen ns)
  | inr new ↦
      rw (new, unseen)
        ((unseen-seen n (n ∷ seen) ns (rw eq_refl refl), unseen-Distinct (n ∷ seen) ns))
]

filter-Distinct : (p : String → Bool) (xs : List String) → Distinct xs → Distinct (filter p xs)
filter-Distinct p [] d = tt
filter-Distinct p (x ∷ xs) (d, ds) = elim (Bool-cases (p x)) [
  | inl e ↦ rw e ((ground (arith, contains_text-filter p x xs), filter-Distinct p xs ds))
  | inr e ↦ rw e (filter-Distinct p xs ds)
]

-- The nodes that get storage stand in the list once each, and they are exactly the managers and
-- workers whose entry in the node information has a role that takes storage, however often a node
-- stands in the two lists.
pub storage_nodes_unique :
    (infos : List (String × NodeInfo)) (managers workers : List String)
    → Distinct (storage_nodes infos managers workers)
      × ((h : String)
          → contains_text h (storage_nodes infos managers workers)
            ≡ ((contains_text h managers || contains_text h workers) && should_add_storage infos h))
unfolding storage_nodes all_nodes
storage_nodes_unique infos managers workers = (
  filter-Distinct _ _ (unseen-Distinct [] (managers ++ workers)),
  λ h.
      rw
        (
          contains_text-filter (should_add_storage infos) h,
          contains_text-unseen h [] (managers ++ workers) refl,
          contains_text-append h managers workers,
        )
        refl,
)
