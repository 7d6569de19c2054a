-- ===== src/Controller/Store/Keys.antt =====
-- Registrations under their key, the host name and the role: internal/controller/store.go.
use docker_swarm_cluster_con.Prelude.{
  String, ◌≡◌, refl, Bool, ◌&&◌, List, [], ◌∷◌, Option, none, some, arith, ◌==◌, if◌then◌else◌,
  eq_iff, Bool-cases, inl, inr,
}
use docker_swarm_cluster_con.Controller.Types.{NodeRegistration}
use docker_swarm_cluster_con.Controller.Store.{is_node, upsert, remove_first}

-- The first registration of a node.
unfoldable pub find : String → String → List NodeRegistration → Option NodeRegistration
unfolding is_node
find h r [] = none
find h r (n ∷ ns) = if is_node h r n then some n else find h r ns

-- No node is registered twice in one role.
abbrev pub Unique : List NodeRegistration → Type 0
Unique [] = Unit
Unique (n ∷ ns) = (find n.hostname n.role ns ≡ none) × Unique ns

-- the key of a registration against another key
abbrev pub same_key : NodeRegistration → String → String → Bool
same_key n h r = n.hostname == h && n.role == r

pub find-upsert_list :
    (reg : NodeRegistration) (ns : List NodeRegistration) (h r : String)
    → find h r (upsert reg ns) ≡ (if same_key reg h r then some reg else find h r ns)
unfolding find upsert
find-upsert_list reg [] h r = refl
find-upsert_list reg (n ∷ ns) h r = ground (
  arith,
  find-upsert_list reg ns h r,
  eq_iff n.hostname reg.hostname,
  eq_iff n.role reg.role,
  eq_iff n.hostname h,
  eq_iff n.role r,
  eq_iff reg.hostname h,
  eq_iff reg.role r,
)

pub upsert-Unique :
    (reg : NodeRegistration) (ns : List NodeRegistration) → Unique ns → Unique (upsert reg ns)
unfolding upsert find
upsert-Unique reg [] u = (refl, tt)
upsert-Unique reg (n ∷ ns) u = elim (Bool-cases (is_node reg.hostname reg.role n)) [
  | inl same ↦
      rw same
        (ground (arith, same, u.0, eq_iff n.hostname reg.hostname, eq_iff n.role reg.role), u.1)
  | inr other ↦ rw other (
    rw (find-upsert_list reg ns n.hostname n.role) (
        ground (
          arith,
          other,
          u.0,
          eq_iff n.hostname reg.hostname,
          eq_iff n.role reg.role,
          eq_iff reg.hostname n.hostname,
          eq_iff reg.role n.role,
        )),
    upsert-Unique reg ns u.1,
  )
]

-- What is left where a registration is removed, and the list itself where none is.
abbrev pub without : String → String → List NodeRegistration → List NodeRegistration
without h r ns = elim (remove_first h r ns) [ none ↦ ns | some ns' ↦ ns' ]

without-cons :
    (h r : String) (n : NodeRegistration) (ns : List NodeRegistration)
    → without h r (n ∷ ns) ≡ (if is_node h r n then ns else n ∷ without h r ns)
unfolding remove_first
without-cons h r n ns = ground arith

pub find-without_list :
    (a b : String) (ns : List NodeRegistration) (h r : String)
    → Unique ns
    → find h r (without a b ns) ≡ (if a == h && b == r then none else find h r ns)
unfolding find
find-without_list a b [] h r u = unfold remove_first in ground arith
find-without_list a b (n ∷ ns) h r u = rw (without-cons a b n ns) (
    ground (
      arith,
      find-without_list a b ns h r u.1,
      u.0,
      eq_iff n.hostname a,
      eq_iff n.role b,
      eq_iff n.hostname h,
      eq_iff n.role r,
      eq_iff a h,
      eq_iff b r,
    ))

pub without-Unique :
    (a b : String) (ns : List NodeRegistration) → Unique ns → Unique (without a b ns)
unfolding remove_first
without-Unique a b [] u = tt
without-Unique a b (n ∷ ns) u = rw (without-cons a b n ns) (elim (Bool-cases (is_node a b n)) [
  | inl same ↦ rw same u.1
  | inr other ↦ rw other (
    rw (find-without_list a b ns n.hostname n.role u.1) (ground (arith, u.0)),
    without-Unique a b ns u.1,
  )
])
