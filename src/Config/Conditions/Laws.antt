-- ===== src/Config/Conditions/Laws.antt =====
-- When a script runs on a node: internal/config/conditions.go.
use docker_swarm_cluster_con.Prelude.{
  ℕ, suc, String, ◌≡◌, ◌≢◌, refl, Bool, true, false, not, List, [], ◌∷◌, Option, some, Result, ok,
  err, arith, ◌==◌, All, get_elem?, take, ◌↔◌, to_lower, equal_fold, inl, inr, Result-cases, ◌⊎◌,
  sym, subst, has_prefix, drop_bytes, eq_iff, ◌||◌, ◌^^◌, Bool-cases, Option-cases,
}
use docker_swarm_cluster_con.Config.Types.{NodeConfig, ScriptCondition}
use docker_swarm_cluster_con.Config.Conditions.{
  ConditionError, get_node_property, named_property, label_property, lookup, or_empty,
  evaluate_condition, evaluate_script_conditions, negate_result, apply_operator, match_pattern,
}

negate-negate :
    (matches : String → String → Option Bool) (b : Bool) (r : Result ConditionError Bool)
    → negate_result matches (not b) r ≡ negate_result matches true (negate_result matches b r)
unfolding negate_result
negate-negate matches b (ok x) = ground arith
negate-negate matches b (err e) = refl

module _ (matches : String → String → Option Bool) (node : NodeConfig) where
  abbrev pub Passes : ScriptCondition → Type 0
  Passes condition = evaluate_condition matches node condition ≡ ok true

  cons_ok :
      (c : ScriptCondition) (cs : List ScriptCondition) (r : Result ConditionError Bool)
      → evaluate_condition matches node c ≡ r
      → evaluate_script_conditions matches node (c ∷ cs) ≡ ok true
      → Passes c × (evaluate_script_conditions matches node cs ≡ ok true)
  unfolding evaluate_script_conditions
  cons_ok c cs (ok true) q h = (q, rw (q, evaluate_script_conditions) at h)
  cons_ok c cs (ok false) q h = cc (rw (q, evaluate_script_conditions) at h)
  cons_ok c cs (err e) q h = cc (rw (q, evaluate_script_conditions) at h)

  all_pass_iff :
      (conditions : List ScriptCondition)
      → (evaluate_script_conditions matches node conditions ≡ ok true) ↔ All Passes conditions
  unfolding evaluate_script_conditions
  all_pass_iff [] = (λ h. tt, λ h. refl)
  all_pass_iff (c ∷ cs) = (
    λ h.
        let (a, b) = cons_ok c cs (evaluate_condition matches node c) refl h in
        (a, (all_pass_iff cs).0 b),
    λ h. rw (h.0, evaluate_script_conditions) ((all_pass_iff cs).1 h.1),
  )

  cons_other :
      (c : ScriptCondition) (cs : List ScriptCondition) (r d : Result ConditionError Bool)
      → evaluate_condition matches node c ≡ d
      → evaluate_script_conditions matches node (c ∷ cs) ≡ r
      → r ≢ ok true
      → (d ≡ r) ⊎ (Passes c × (evaluate_script_conditions matches node cs ≡ r))
  unfolding evaluate_script_conditions
  cons_other c cs r (ok true) q h n = inr (q, rw (q, evaluate_script_conditions) at h)
  cons_other c cs r (ok false) q h n = inl (rw (q, evaluate_script_conditions) at h)
  cons_other c cs r (err e) q h n = inl (rw (q, evaluate_script_conditions) at h)

  -- Any other outcome, false or an error, is that of the first condition that does not hold: the
  -- conditions before it hold, and those after it are not looked at.
  pub conditions_first_other :
      (conditions : List ScriptCondition) (r : Result ConditionError Bool)
      → evaluate_script_conditions matches node conditions ≡ r
      → r ≢ ok true
      → (i : ℕ) × (c : ScriptCondition) × (get_elem? conditions i ≡ some c)
        × (evaluate_condition matches node c ≡ r)
        × All Passes (take i conditions)
  unfolding evaluate_script_conditions
  conditions_first_other [] r h n = absurd (n (sym h))
  conditions_first_other (c ∷ cs) r h n =
      elim (cons_other c cs r (evaluate_condition matches node c) refl h n) [
        | inl here ↦ (0, c, refl, here, tt)
        | inr (holds, later) ↦
            let (i, d, at, e, before) = conditions_first_other cs r later n in
            (suc i, d, at, e, (holds, before))
      ]

  -- `negate` flips the result of a condition and leaves its errors alone.
  pub evaluate_condition-negate :
      (c : ScriptCondition)
      → evaluate_condition matches node (record c { negate = not c.negate })
        ≡ negate_result matches true (evaluate_condition matches node c)
  unfolding evaluate_condition negate_result apply_operator match_pattern
  evaluate_condition-negate c = elim (Result-cases (get_node_property node c.property)) [
    | inr (e, q) ↦ rw q refl
    | inl (v, q) ↦ rw q (negate-negate matches c.negate (apply_operator matches c v))
  ]

  apply_operator_ne :
      (c : ScriptCondition) (v : String)
      → (to_lower c.operator ≡ "!=") ⊎ (to_lower c.operator ≡ "notequals")
      → apply_operator matches c v ≡ ok (not (equal_fold v c.value))
  unfolding apply_operator
  apply_operator_ne c v (inl e) = rw e refl
  apply_operator_ne c v (inr e) = rw e refl

  -- What the operator, in any case of its letters, says of a property's value.
  abbrev pub Says : ScriptCondition → (value : String) → Bool → Type 0
  Says c v b =
      (((to_lower c.operator ≡ "=")
          ⊎ (to_lower c.operator ≡ "==")
          ⊎ (to_lower c.operator ≡ "equals"))
        × (equal_fold v c.value ≡ b))
      ⊎ (((to_lower c.operator ≡ "!=") ⊎ (to_lower c.operator ≡ "notequals"))
          × (equal_fold v c.value ≡ not b))
      ⊎ (((to_lower c.operator ≡ "regex") ⊎ (to_lower c.operator ≡ "matches"))
          × (matches ("(?i)" ^^ c.value) v ≡ some b))
      ⊎ (((to_lower c.operator ≡ "!regex") ⊎ (to_lower c.operator ≡ "notmatches"))
          × (matches ("(?i)" ^^ c.value) v ≡ some (not b)))

  -- The node has the property, and its operator says of its value what `negate` does not turn around.
  abbrev pub Holds : ScriptCondition → Type 0
  Holds c = (v : String) × (get_node_property node c.property ≡ ok v) × Says c v (not c.negate)

  one_of : (op x y : String) → ((op == x) || (op == y)) ≡ true → (op ≡ x) ⊎ (op ≡ y)
  one_of op x y h = elim (Bool-cases (op == x)) [
    | inl t ↦ inl ((eq_iff op x).0 t)
    | inr f ↦ inr ((eq_iff op y).0 (ground (arith, f, h)))
  ]

  equals_name :
      (op : String)
      → ((op == "=") || (op == "==") || (op == "equals")) ≡ true
      → (op ≡ "=") ⊎ (op ≡ "==") ⊎ (op ≡ "equals")
  equals_name op h = elim (Bool-cases (op == "=")) [
    | inl t ↦ inl ((eq_iff op "=").0 t)
    | inr f ↦ inr (one_of op "==" "equals" (ground (arith, f, h)))
  ]

  not-not : (b : Bool) → not (not b) ≡ b
  not-not b = ground arith

  apply_operator-Says :
      (c : ScriptCondition) (v : String) (b : Bool) → apply_operator matches c v ≡ ok b → Says c v b
  unfolding apply_operator match_pattern negate_result
  apply_operator-Says c v b h =
      let op = to_lower c.operator in
      elim (Bool-cases ((op == "=") || (op == "==") || (op == "equals"))) [
        | inl t ↦ inl (equals_name op t, ground (arith, t, h))
        | inr f ↦ elim (Bool-cases ((op == "!=") || (op == "notequals"))) [
          | inl t ↦ inr (inl (one_of op "!=" "notequals" t, ground (arith, f, t, h)))
          | inr f' ↦ elim (Option-cases (matches ("(?i)" ^^ c.value) v)) [
            | inl n ↦ ground (arith, n, f, f', h)
            | inr (x, m) ↦ elim (Bool-cases ((op == "regex") || (op == "matches"))) [
              | inl t ↦
                  inr (inr (inl (one_of op "regex" "matches" t, ground (arith, m, f, f', t, h))))
              | inr f'' ↦ elim (Bool-cases ((op == "!regex") || (op == "notmatches"))) [
                | inl t ↦ inr (
                    inr (
                      inr (one_of op "!regex" "notmatches" t, ground (arith, m, f, f', f'', t, h))))
                | inr f3 ↦ ground (arith, m, f, f', f'', f3, h)
              ]
            ]
          ]
        ]
      ]

  Says-apply_operator :
      (c : ScriptCondition) (v : String) (b : Bool) → Says c v b → apply_operator matches c v ≡ ok b
  unfolding apply_operator match_pattern negate_result
  Says-apply_operator c v b (inl (inl e, q)) = rw (e, q) refl
  Says-apply_operator c v b (inl (inr (inl e), q)) = rw (e, q) refl
  Says-apply_operator c v b (inl (inr (inr e), q)) = rw (e, q) refl
  Says-apply_operator c v b (inr (inl (inl e, q))) = rw (e, q) (ground arith)
  Says-apply_operator c v b (inr (inl (inr e, q))) = rw (e, q) (ground arith)
  Says-apply_operator c v b (inr (inr (inl (inl e, q)))) = rw (e, match_pattern, q) refl
  Says-apply_operator c v b (inr (inr (inl (inr e, q)))) = rw (e, match_pattern, q) refl
  Says-apply_operator c v b (inr (inr (inr (inl e, q)))) = rw (e, match_pattern, q) (ground arith)
  Says-apply_operator c v b (inr (inr (inr (inr e, q)))) = rw (e, match_pattern, q) (ground arith)

  negate_result_iff :
      (n : Bool) (r : Result ConditionError Bool)
      → (negate_result matches n r ≡ ok true) ↔ (r ≡ ok (not n))
  unfolding negate_result
  negate_result_iff true (ok x) = (λ h. ground (arith, h), λ h. ground (arith, h))
  negate_result_iff false (ok x) = (λ h. ground (arith, h), λ h. ground (arith, h))
  negate_result_iff n (err e) = (λ h. ground (arith, h), λ h. ground (arith, h))

  evaluate_condition_iff : (c : ScriptCondition) → Passes c ↔ Holds c
  unfolding evaluate_condition
  evaluate_condition_iff c = (
    λ h. elim (Result-cases (get_node_property node c.property)) [
      | inr (e, q) ↦ ground (arith, q, rw (q, evaluate_condition) at h)
      | inl (v, q) ↦
          let says =
            (negate_result_iff c.negate (apply_operator matches c v)).0
              (rw (q, evaluate_condition) at h) in
          (v, q, apply_operator-Says c v (not c.negate) says)
    ],
    λ (v, q, says).
        rw (q, evaluate_condition)
          ((negate_result_iff c.negate (apply_operator matches c v)).1
            (Says-apply_operator c v (not c.negate) says)),
  )

  each-Holds_iff : (cs : List ScriptCondition) → All Passes cs ↔ All Holds cs
  each-Holds_iff [] = (λ h. tt, λ h. tt)
  each-Holds_iff (c ∷ cs) =
      let (f, g) = each-Holds_iff cs in
      let (p, q) = evaluate_condition_iff c in (λ h. (p h.0, f h.1), λ h. (q h.0, g h.1))

  -- A script runs on a node exactly when each of its conditions holds there; with no condition it
  -- runs everywhere. A condition holds if the node has the property and the operator says so of its
  -- value: "=", "==" and "equals" that it is the condition's value, "!=" and "notequals" that it is
  -- not, both in any case; "regex" and "matches" that the pattern matches it without regard to case,
  -- "!regex" and "notmatches" that it does not; `negate` turns each around. With an unknown operator
  -- or an invalid pattern no condition holds.
  pub conditions_iff :
      (conditions : List ScriptCondition)
      → (evaluate_script_conditions matches node conditions ≡ ok true) ↔ All Holds conditions
  conditions_iff cs =
      let (f, g) = all_pass_iff cs in let (p, q) = each-Holds_iff cs in (λ h. p (f h), λ h. g (q h))

  negate_not :
      (n b : Bool) → negate_result matches n (ok (not b)) ≡ negate_result matches (not n) (ok b)
  unfolding negate_result
  negate_not n b = ground arith

  -- An operator that names "not equal" gives what "=" gives with `negate` flipped.
  pub evaluate_condition_ne :
      (c : ScriptCondition)
      → (to_lower c.operator ≡ "!=") ⊎ (to_lower c.operator ≡ "notequals")
      → evaluate_condition matches node c
        ≡ evaluate_condition matches node (record c { operator = "="; negate = not c.negate })
  unfolding evaluate_condition to_lower
  evaluate_condition_ne c op = elim (Result-cases (get_node_property node c.property)) [
    | inr (e, q) ↦ rw q refl
    | inl (v, q) ↦ rw q (rw (apply_operator_ne c v op) (negate_not c.negate (equal_fold v c.value)))
  ]

abbrev Plain : NodeConfig → String → Type 0
Plain node p = (v : String) → label_property node p ≢ ok v

Plain-label :
    (node : NodeConfig) (p : String) → has_prefix (to_lower p) "label." ≡ false → Plain node p
unfolding label_property
Plain-label node p h v e = cc (rw (h, label_property) at e)

named_property-Plain :
    (node : NodeConfig) (name p q : String) {v : String}
    → Plain node p
    → named_property node name p ≡ ok v
    → named_property node name q ≡ ok v
unfolding named_property
named_property-Plain node name p q {v} plain h = ground (arith, plain v)

not_label :
    (x d : String) → has_prefix x "label." ≡ true → has_prefix d "label." ≡ false → (x == d) ≡ false
not_label x d hx hd = ground (arith, eq_iff x d, hx, hd)

-- Names of properties are read without regard to case, but for labels, whose keys keep theirs.
pub get_node_property_fold :
    (node : NodeConfig) (p q : String) {v : String}
    → to_lower p ≡ to_lower q
    → has_prefix (to_lower p) "label." ≡ false
    → get_node_property node p ≡ ok v
    → get_node_property node q ≡ ok v
unfolding get_node_property
get_node_property_fold node p q {v} same plain h =
    subst (λ n. named_property node n q ≡ ok v) same
      (named_property-Plain node (to_lower p) p q {v = v} (Plain-label node p plain) h)

-- A property that begins with "label.", in any case, is the value of the node's label of the name
-- that follows, and the empty text where the node has no such label.
pub get_node_property_label :
    (node : NodeConfig) (property : String)
    → has_prefix (to_lower property) "label." ≡ true
    → get_node_property node property ≡ ok (or_empty (lookup (drop_bytes 6 property) node.labels))
unfolding get_node_property
get_node_property_label node property h =
    let other =
      (λ (d : String) (e : has_prefix d "label." ≡ false). not_label (to_lower property) d h e) in
    rw
      (
        other "sshfqdnorip" refl,
        other "hostname" refl,
        other "username" refl,
        other "role" refl,
        other "newhostname" refl,
        other "sshport" refl,
        other "storageenabled" refl,
        other "rebootoncompletion" refl,
        other "scriptsenabled" refl,
        other "usesshautomatickeypair" refl,
        other "enabled" refl,
        label_property,
        h,
      )
      refl
