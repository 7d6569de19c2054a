-- ===== src/Config/Validate/FirstError.antt =====
-- Which error `Validate` of internal/config/config.go reports.
use docker_swarm_cluster_con.Prelude.{
  ℕ, zero, suc, ◌+◌, ◌≡◌, refl, List, [], ◌∷◌, arith, Result, ok, err, ◌==◌, ◌⊎◌, inl, inr,
  get_elem?, some, All, Bool-cases, ◌∙◌, sym, ap, subst, take, Option, none,
}
use docker_swarm_cluster_con.Config.Types.{NodeConfig, Config}
use docker_swarm_cluster_con.Config.Validate.{
  ConfigError, name_required, bad_role, no_credentials, known_role, lacks_credentials,
  validate_nodes, after_nodes, validate_list, validate,
}
use docker_swarm_cluster_con.Config.Validate.Valid.{
  Passes, IsValidNode, IsValidNode-Passes, Passes-IsValidNode, count_manager, validate_nodes-cons,
}

abbrev pub error_index : ConfigError → Option ℕ
error_index (name_required i) = some i
error_index (bad_role i _) = some i
error_index (no_credentials i _) = some i
error_index _ = none

-- Node j is the first invalid one.
abbrev pub FirstInvalid : List NodeConfig → ℕ → Type 0
FirstInvalid nodes j =
    (node : NodeConfig) × (get_elem? nodes j ≡ some node)
    × ¬ IsValidNode node
    × All IsValidNode (take j nodes)

not-Passes-error :
    (i m : ℕ) (node : NodeConfig) (rest : List NodeConfig) {e : ConfigError}
    → ¬ Passes node
    → validate_nodes i m (node ∷ rest) ≡ err e
    → error_index e ≡ some i
unfolding validate_nodes
not-Passes-error i m node rest bad h = elim (Bool-cases (node.ssh_fqdn_or_ip == "")) [
  | inl a ↦ ground (arith, rw a at h)
  | inr a ↦ elim (Bool-cases (known_role node.role)) [
    | inr b ↦ ground (arith, rw (a, b) at h)
    | inl b ↦ elim (Bool-cases (lacks_credentials node)) [
      | inl c ↦ ground (arith, rw (a, b, c) at h)
      | inr c ↦ absurd (bad (a, b, c))
    ]
  ]
]

dec_Passes : (node : NodeConfig) → Passes node ⊎ (¬ Passes node)
dec_Passes node = elim (Bool-cases (node.ssh_fqdn_or_ip == "")) [
  | inl a ↦ inr (λ p. cc (a, p.0))
  | inr a ↦ elim (Bool-cases (known_role node.role)) [
    | inr b ↦ inr (λ p. cc (b, p.1))
    | inl b ↦ elim (Bool-cases (lacks_credentials node)) [
      | inl c ↦ inr (λ p. cc (c, p.2))
      | inr c ↦ inl (a, b, c)
    ]
  ]
]

validate_nodes-first :
    (i m : ℕ) (nodes : List NodeConfig) {e : ConfigError}
    → validate_nodes i m nodes ≡ err e
    → (j : ℕ) × (error_index e ≡ some (i + j)) × FirstInvalid nodes j
unfolding validate_nodes
validate_nodes-first i m [] h = cc
validate_nodes-first i m (node ∷ rest) {e} h = elim (dec_Passes node) [
  | inr bad ↦ (
    0,
    not-Passes-error i m node rest {e = e} bad h ∙ ap some (omega arith),
    (node, refl, (λ v. bad (IsValidNode-Passes node v)), tt),
  )
  | inl p ↦
      let (j, at, (n, found, bad, before)) =
        validate_nodes-first (i + 1) (count_manager node m) rest {e = e}
          (sym (validate_nodes-cons i m node rest p) ∙ h) in
      (suc j, at ∙ ap some (omega arith), (n, found, bad, (Passes-IsValidNode node p, before)))
]

after_nodes-err :
    (r : Result ConfigError ℕ) {e : ConfigError} {i : ℕ}
    → after_nodes r ≡ err e
    → error_index e ≡ some i
    → r ≡ err e
unfolding after_nodes
after_nodes-err (ok zero) h x = ground arith
after_nodes-err (ok (suc k)) h x = cc
after_nodes-err (err e) h x = cc

validate_list-first :
    (nodes : List NodeConfig) {e : ConfigError} {i : ℕ}
    → validate_list nodes ≡ err e
    → error_index e ≡ some i
    → FirstInvalid nodes i
unfolding validate_list
validate_list-first [] h x = ground arith
validate_list-first (node ∷ rest) {e} {i} h x =
    let r = after_nodes-err (validate_nodes 0 0 (node ∷ rest)) {e = e} {i = i} h x in
    let (j, at, first) = validate_nodes-first 0 0 (node ∷ rest) {e = e} r in
    subst (FirstInvalid (node ∷ rest)) (ground (arith, at, x)) first

-- An error that names a node by its index names the first invalid node.
pub validate_first_error :
    (c : Config) {e : ConfigError} {i : ℕ}
    → validate c ≡ err e
    → error_index e ≡ some i
    → FirstInvalid c.nodes i
unfolding validate
validate_first_error c h x = validate_list-first c.nodes h x
