-- ===== src/Config/Validate/Valid.antt =====
-- Which configurations `Validate` of internal/config/config.go accepts.
use docker_swarm_cluster_con.Prelude.{
  ℕ, zero, suc, ◌+◌, ◌<◌, ◌≡◌, ◌≢◌, refl, true, false, List, [], ◌∷◌, arith, Result, ok, err, ◌==◌,
  if◌then◌else◌, eq_iff, ◌↔◌, ◌⊎◌, inl, inr, All, Bool-cases, ◌∙◌, sym, ◌≤◌,
}
use docker_swarm_cluster_con.Config.Types.{NodeConfig, Config}
use docker_swarm_cluster_con.Config.Validate.{
  ConfigError, known_role, is_manager_role, lacks_credentials, validate_nodes, after_nodes,
  validate_list, validate,
}

-- What the code asks of one node, independently of the order of its tests.
pub record IsValidNode (node : NodeConfig) : Type 0 where
  pub named : node.ssh_fqdn_or_ip ≢ ""
  pub role : (node.role ≡ "manager") ⊎ (node.role ≡ "worker") ⊎ (node.role ≡ "both")
  pub credentials :
      (node.use_ssh_automatic_key_pair ≡ true) ⊎ (node.password ≢ "") ⊎ (node.private_key_path ≢ "")

abbrev pub ManagerRole : NodeConfig → Type 0
ManagerRole node = (node.role ≡ "manager") ⊎ (node.role ≡ "both")

abbrev pub Managed : List NodeConfig → Type 0
Managed [] = ⊥
Managed (node ∷ rest) = ManagerRole node ⊎ Managed rest

-- Every node is valid and one of them, at least, becomes a manager.
pub record IsValidConfig (c : Config) : Type 0 where
  pub nodes : All IsValidNode c.nodes
  pub managed : Managed c.nodes

abbrev pub Passes : NodeConfig → Type 0
Passes node =
    ((node.ssh_fqdn_or_ip == "") ≡ false)
    × (known_role node.role ≡ true)
    × (lacks_credentials node ≡ false)

pub IsValidNode-Passes : (node : NodeConfig) → IsValidNode node → Passes node
unfolding known_role lacks_credentials
IsValidNode-Passes node v = (
  ground (arith, v.named, eq_iff node.ssh_fqdn_or_ip ""),
  ground (
    arith,
    v.role,
    eq_iff node.role "manager",
    eq_iff node.role "worker",
    eq_iff node.role "both",
  ),
  ground (arith, v.credentials, eq_iff node.password "", eq_iff node.private_key_path ""),
)

pub Passes-IsValidNode : (node : NodeConfig) → Passes node → IsValidNode node
unfolding known_role lacks_credentials
Passes-IsValidNode node p = record {
  named = λ e. ground (arith, p.0, e, eq_iff node.ssh_fqdn_or_ip "");
  role =
      ground (
        arith,
        p.1,
        eq_iff node.role "manager",
        eq_iff node.role "worker",
        eq_iff node.role "both",
      );
  credentials = ground (arith, p.2, eq_iff node.password "", eq_iff node.private_key_path "");
}

is_manager_role_iff : (node : NodeConfig) → (is_manager_role node.role ≡ true) ↔ ManagerRole node
unfolding is_manager_role
is_manager_role_iff node = (
  λ h. ground (arith, eq_iff node.role "manager", eq_iff node.role "both"),
  λ h. ground (arith, h, eq_iff node.role "manager", eq_iff node.role "both"),
)

abbrev pub count_manager : NodeConfig → ℕ → ℕ
count_manager node m = if is_manager_role node.role then m + 1 else m

pub validate_nodes-cons :
    (i m : ℕ) (node : NodeConfig) (rest : List NodeConfig)
    → Passes node
    → validate_nodes i m (node ∷ rest) ≡ validate_nodes (i + 1) (count_manager node m) rest
unfolding validate_nodes
validate_nodes-cons i m node rest p = rw (p.0, p.1, p.2) refl

validate_nodes-Passes :
    (i m : ℕ) (node : NodeConfig) (rest : List NodeConfig) {k : ℕ}
    → validate_nodes i m (node ∷ rest) ≡ ok k
    → Passes node
unfolding validate_nodes
validate_nodes-Passes i m node rest h = elim (Bool-cases (node.ssh_fqdn_or_ip == "")) [
  | inl a ↦ cc (rw a at h)
  | inr a ↦ elim (Bool-cases (known_role node.role)) [
    | inr b ↦ cc (rw (a, b) at h)
    | inl b ↦ elim (Bool-cases (lacks_credentials node)) [
      | inl c ↦ cc (rw (a, b, c) at h)
      | inr c ↦ (a, b, c)
    ]
  ]
]

managers-step :
    (node : NodeConfig) (rest : List NodeConfig) (m k : ℕ)
    → (count_manager node m < k → Managed rest)
    → m < k
    → Managed (node ∷ rest)
managers-step node rest m k h lt = elim (Bool-cases (is_manager_role node.role)) [
  | inl b ↦ inl ((is_manager_role_iff node).0 b)
  | inr b ↦ inr (h (rw b lt))
]

validate_nodes_sound :
    (i m : ℕ) (nodes : List NodeConfig) {k : ℕ}
    → validate_nodes i m nodes ≡ ok k
    → All IsValidNode nodes × (m < k → Managed nodes)
unfolding validate_nodes
validate_nodes_sound i m [] h = (tt, λ lt. ground (arith, h))
validate_nodes_sound i m (node ∷ rest) {k} h =
    let p = validate_nodes-Passes i m node rest h in
    let ih =
      validate_nodes_sound (i + 1) (count_manager node m) rest {k = k}
        (sym (validate_nodes-cons i m node rest p) ∙ h) in
    ((Passes-IsValidNode node p, ih.0), λ lt. managers-step node rest m k ih.1 lt)

validate_nodes_complete :
    (i m : ℕ) (nodes : List NodeConfig)
    → All IsValidNode nodes
    → (k : ℕ) × (validate_nodes i m nodes ≡ ok k) × (m ≤ k) × (Managed nodes → m < k)
unfolding validate_nodes
validate_nodes_complete i m [] v = (m, refl, omega arith, λ h. absurd h)
validate_nodes_complete i m (node ∷ rest) v =
    let (k, e, le, more) = validate_nodes_complete (i + 1) (count_manager node m) rest v.1 in
    let grow : m ≤ count_manager node m = ground arith in
    (
      k,
      validate_nodes-cons i m node rest (IsValidNode-Passes node v.0) ∙ e,
      omega arith,
      elim [
        | inl role ↦
            let b = (is_manager_role_iff node).1 role in
            let up : count_manager node m ≡ m + 1 = rw b refl in omega arith
        | inr tail ↦ let lt = more tail in omega arith
      ],
    )

after_nodes-ok : (r : Result ConfigError ℕ) → after_nodes r ≡ ok tt → (k : ℕ) × (r ≡ ok k) × (0 < k)
unfolding after_nodes
after_nodes-ok (ok zero) h = cc
after_nodes-ok (ok (suc k)) h = (suc k, refl, omega arith)
after_nodes-ok (err e) h = cc

after_nodes-pos : (k : ℕ) → 0 < k → after_nodes (ok k) ≡ ok tt
unfolding after_nodes
after_nodes-pos zero h = absurd (omega arith)
after_nodes-pos (suc k) h = refl

validate_list_sound :
    (nodes : List NodeConfig) → validate_list nodes ≡ ok tt → All IsValidNode nodes × Managed nodes
unfolding validate_list
validate_list_sound [] h = cc
validate_list_sound (node ∷ rest) h =
    let (k, e, lt) = after_nodes-ok (validate_nodes 0 0 (node ∷ rest)) h in
    let s = validate_nodes_sound 0 0 (node ∷ rest) {k = k} e in (s.0, s.1 lt)

validate_list_complete :
    (nodes : List NodeConfig) → All IsValidNode nodes → Managed nodes → validate_list nodes ≡ ok tt
unfolding validate_list
validate_list_complete [] v m = absurd m
validate_list_complete (node ∷ rest) v m =
    let (k, e, le, lt) = validate_nodes_complete 0 0 (node ∷ rest) v in
    rw e (after_nodes-pos k (lt m))

-- Validation succeeds exactly when every node has a name, a known role and a way to log in, and at
-- least one node has the role "manager" or "both".
pub validate_iff : (c : Config) → (validate c ≡ ok tt) ↔ IsValidConfig c
unfolding validate
validate_iff c = (
  λ h. let (v, m) = validate_list_sound c.nodes h in record { nodes = v; managed = m },
  λ v. validate_list_complete c.nodes v.nodes v.managed,
)
