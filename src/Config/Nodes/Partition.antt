-- ===== src/Config/Nodes/Partition.antt =====
-- What the selections of internal/deployer/deployer.go give on a validated configuration.
use docker_swarm_cluster_con.Prelude.{
  ◌+◌, String, ◌≡◌, ◌≢◌, refl, Bool, true, false, ◌||◌, List, [], ◌∷◌, arith, ◌==◌, eq_iff, length,
  filter, All, ◌⊎◌, inl, inr, Bool-cases, eq_refl, ◌↔◌,
}
use docker_swarm_cluster_con.Config.Types.{Config, NodeConfig}
use docker_swarm_cluster_con.Config.Validate.Valid.{IsValidNode, IsValidConfig, ManagerRole}
use docker_swarm_cluster_con.Config.Nodes.{
  is_enabled, get_enabled_nodes, categorize, categorize_nodes, contains_text, storage_by_role,
  get_storage_nodes_by_role,
}

-- No text occurs twice.
abbrev pub Distinct : List String → Type 0
Distinct [] = Unit
Distinct (x ∷ xs) = (contains_text x xs ≡ false) × Distinct xs

filter-All {ℓ} :
    (P : NodeConfig → Type ℓ) (p : NodeConfig → Bool) (ns : List NodeConfig)
    → All P ns
    → All P (filter p ns)
filter-All P p [] v = tt
filter-All P p (n ∷ ns) v = elim (Bool-cases (p n)) [
  | inl e ↦ rw e (v.0, filter-All P p ns v.1)
  | inr e ↦ rw e (filter-All P p ns v.1)
]

length-categorize :
    (ns : List NodeConfig)
    → All IsValidNode ns
    → length (categorize ns).0 + length (categorize ns).1 ≡ length ns
unfolding categorize
length-categorize [] v = omega arith
length-categorize (n ∷ ns) v = ground (
  arith,
  length-categorize ns v.1,
  v.0.role,
  eq_iff n.role "manager",
  eq_iff n.role "worker",
  eq_iff n.role "both",
)

-- Every enabled node of a valid configuration joins the swarm exactly once, as a manager or as a
-- worker.
pub categorize_nodes_total :
    (c : Config)
    → IsValidConfig c
    → length (categorize_nodes c).0 + length (categorize_nodes c).1 ≡ length (get_enabled_nodes c)
unfolding categorize_nodes
categorize_nodes_total c v =
    length-categorize (get_enabled_nodes c) (filter-All IsValidNode is_enabled c.nodes v.nodes)

contains_text_head : (x : String) (xs : List String) → contains_text x (x ∷ xs) ≡ true
unfolding contains_text
contains_text_head x xs = rw eq_refl refl

-- Nothing that was seen is listed again.
storage_by_role-unseen :
    (h : String) (seen : List String) (ns : List NodeConfig)
    → contains_text h seen ≡ true
    → contains_text h (storage_by_role seen ns).all_unique ≡ false
unfolding storage_by_role
storage_by_role-unseen h seen [] s = refl
storage_by_role-unseen h seen (n ∷ ns) s = ground (
  arith,
  storage_by_role-unseen h seen ns,
  storage_by_role-unseen h (n.ssh_fqdn_or_ip ∷ seen) ns,
  eq_iff n.ssh_fqdn_or_ip h,
)

storage_by_role-Distinct :
    (seen : List String) (ns : List NodeConfig) → Distinct (storage_by_role seen ns).all_unique
unfolding storage_by_role
storage_by_role-Distinct seen [] = tt
storage_by_role-Distinct seen (n ∷ ns) = elim (Bool-cases n.storage_enabled) [
  | inr off ↦ rw off (storage_by_role-Distinct seen ns)
  | inl on ↦ rw on (elim (Bool-cases (contains_text n.ssh_fqdn_or_ip seen)) [
    | inl old ↦ rw old (storage_by_role-Distinct seen ns)
    | inr new ↦ rw new (
      storage_by_role-unseen n.ssh_fqdn_or_ip (n.ssh_fqdn_or_ip ∷ seen) ns
          (contains_text_head n.ssh_fqdn_or_ip seen),
      storage_by_role-Distinct (n.ssh_fqdn_or_ip ∷ seen) ns,
    )
  ])
]

storage_by_role-contains :
    (h : String) (seen : List String) (ns : List NodeConfig)
    → All IsValidNode ns
    → contains_text h seen ≡ false
    → contains_text h (storage_by_role seen ns).all_unique ≡ (
        contains_text h (storage_by_role seen ns).managers
        || contains_text h (storage_by_role seen ns).workers)
unfolding storage_by_role
storage_by_role-contains h seen [] v s = refl
storage_by_role-contains h seen (n ∷ ns) v s = elim (Bool-cases n.storage_enabled) [
  | inr off ↦ rw off (storage_by_role-contains h seen ns v.1 s)
  | inl on ↦ rw on (elim (Bool-cases (contains_text n.ssh_fqdn_or_ip seen)) [
    | inl old ↦
        rw old (ground (arith, storage_by_role-contains h seen ns v.1, eq_iff n.ssh_fqdn_or_ip h))
    | inr new ↦ rw new (
        ground (
          arith,
          storage_by_role-contains h (n.ssh_fqdn_or_ip ∷ seen) ns v.1,
          eq_iff n.ssh_fqdn_or_ip h,
          v.0.role,
          eq_iff n.role "manager",
          eq_iff n.role "worker",
          eq_iff n.role "both",
        ))
  ])
]

-- The list of all storage nodes has no duplicates and, in a valid configuration, holds exactly the
-- names that the monitors and the data nodes hold.
pub get_storage_nodes_by_role_unique :
    (c : Config)
    → IsValidConfig c
    → Distinct (get_storage_nodes_by_role c).all_unique
      × ((h : String)
          → contains_text h (get_storage_nodes_by_role c).all_unique ≡ (
              contains_text h (get_storage_nodes_by_role c).managers
              || contains_text h (get_storage_nodes_by_role c).workers))
unfolding get_storage_nodes_by_role
get_storage_nodes_by_role_unique c v = (
  storage_by_role-Distinct [] (get_enabled_nodes c),
  λ h.
      storage_by_role-contains h [] (get_enabled_nodes c)
        (filter-All IsValidNode is_enabled c.nodes v.nodes) refl,
)

-- An enabled node of the list has a role that makes it a manager.
abbrev pub EnabledManager : List NodeConfig → Type 0
EnabledManager [] = ⊥
EnabledManager (n ∷ ns) = ((is_enabled n ≡ true) × ManagerRole n) ⊎ EnabledManager ns

cons-ne-nil : (x : String) (xs : List String) → x ∷ xs ≢ []
cons-ne-nil x xs e = cc

categorize-managers :
    (ns : List NodeConfig) → ((categorize (filter is_enabled ns)).0 ≢ []) ↔ EnabledManager ns
unfolding categorize
categorize-managers [] = (λ h. h refl, λ h. absurd h)
categorize-managers (n ∷ ns) = elim (Bool-cases (is_enabled n)) [
  | inr off ↦ rw off (
      (
        λ h. inr ((categorize-managers ns).0 h),
        elim [ inl m ↦ cc (m.0) | inr m ↦ (categorize-managers ns).1 m ],
      ))
  | inl on ↦ rw on (elim (Bool-cases (n.role == "manager" || n.role == "both")) [
    | inl m ↦ rw m (
      (λ h. inl (refl, ground (arith, m, eq_iff n.role "manager", eq_iff n.role "both"))),
      λ h. cons-ne-nil _ _,
    )
    | inr w ↦ rw w (elim (Bool-cases (n.role == "worker")) [
      | inl k ↦ rw k (
        (λ h. inr ((categorize-managers ns).0 h)),
        elim [
          | inl m ↦ ground (arith, m.1, w, eq_iff n.role "manager", eq_iff n.role "both")
          | inr m ↦ (categorize-managers ns).1 m
        ],
      )
      | inr k ↦ rw k (
        (λ h. inr ((categorize-managers ns).0 h)),
        elim [
          | inl m ↦ ground (arith, m.1, w, eq_iff n.role "manager", eq_iff n.role "both")
          | inr m ↦ (categorize-managers ns).1 m
        ],
      )
    ])
  ])
]

-- The list of managers, whose first entry the deployment and the teardown take as the primary
-- manager, is empty exactly when no enabled node has a manager's role.
pub categorize_nodes_managers :
    (c : Config) → ((categorize_nodes c).0 ≢ []) ↔ EnabledManager c.nodes
unfolding categorize_nodes get_enabled_nodes
categorize_nodes_managers c = categorize-managers c.nodes
