-- ===== src/Scripts/Planned.antt =====
-- Which scripts `executeScripts` of internal/deployer/deployer.go runs where, and in which order.
use docker_swarm_cluster_con.Prelude.{
  ◌≡◌, ap, ◌∙◌, arith, String, Bool, true, false, ◌&&◌, List, [], ◌∷◌, Option, Result, ok, err,
  filter, Bool-cases, Option-cases, Result-cases, inl, inr,
}
use docker_swarm_cluster_con.Config.{Config, NodeConfig, ScriptConfig}
use docker_swarm_cluster_con.Config.Conditions.{ConditionError, evaluate_script_conditions}
use docker_swarm_cluster_con.Config.Nodes.{get_enabled_nodes}
use docker_swarm_cluster_con.Scripts.{
  NodeError, target_nodes, run_on_nodes, run_script, run_scripts, execute_scripts,
}

abbrev is_ok_true : Result ConditionError Bool → Bool
is_ok_true (ok b) = b
is_ok_true (err e) = false

-- The runs so far, the newest first: a script and a node.
abbrev pub Runs : Type 0
Runs = List (ScriptConfig × NodeConfig)

-- An execution that is noted, and fails where `fails` says so.
abbrev pub noted :
    (NodeConfig → ScriptConfig → Option NodeError)
    → NodeConfig
    → ScriptConfig
    → Runs
    → Option NodeError × Runs
noted fails n s runs = (fails n s, (s, n) ∷ runs)

module _ (matches : String → String → Option Bool) where
  -- The script is allowed on the node, and its conditions hold there.
  abbrev pub selects : ScriptConfig → NodeConfig → Bool
  selects s n = n.scripts_enabled && is_ok_true (evaluate_script_conditions matches n s.conditions)

  abbrev pub on_nodes : ScriptConfig → List NodeConfig → Runs → Runs
  on_nodes s [] runs = runs
  on_nodes s (n ∷ ns) runs = on_nodes s ns ((s, n) ∷ runs)

  -- The plan: script by script, node by node.
  abbrev pub planned : Config → List ScriptConfig → Runs → Runs
  planned c [] runs = runs
  planned c (s ∷ ss) runs =
      planned c ss (on_nodes s (filter (selects s) (get_enabled_nodes c)) runs)

  target_nodes-filter :
      (s : ScriptConfig) (ns ts : List NodeConfig)
      → target_nodes matches s ns ≡ ok ts
      → ts ≡ filter (selects s) ns
  unfolding target_nodes
  target_nodes-filter s [] ts h = ground arith
  target_nodes-filter s (n ∷ ns) ts h =
      let evaluated = evaluate_script_conditions matches n s.conditions in
      elim (Bool-cases n.scripts_enabled) [
        | inr f ↦ let ih = target_nodes-filter s ns ts (ground arith) in ground arith
        | inl t ↦ elim (Result-cases evaluated) [
          | inr (x, e) ↦ ground arith
          | inl (false, e) ↦ let ih = target_nodes-filter s ns ts (ground arith) in ground arith
          | inl (true, e) ↦ elim (Result-cases (target_nodes matches s ns)) [
            | inr (x, e') ↦ ground arith
            | inl (rest, e') ↦ let ih = target_nodes-filter s ns rest e' in ground arith
          ]
        ]
      ]

  module _ (fails : NodeConfig → ScriptConfig → Option NodeError) where
    run_on_nodes-noted :
        (s : ScriptConfig) (ns : List NodeConfig) (runs runs' : Runs)
        → run_on_nodes matches (noted fails) s ns runs ≡ (ok tt, runs')
        → runs' ≡ on_nodes s ns runs
    unfolding run_on_nodes
    run_on_nodes-noted s [] runs runs' h = ground arith
    run_on_nodes-noted s (n ∷ ns) runs runs' h = elim (Option-cases (fails n s)) [
      | inl e ↦ run_on_nodes-noted s ns ((s, n) ∷ runs) runs' (ground arith)
      | inr (x, e) ↦ elim (Bool-cases s.continue_on_error) [
        | inl t ↦ run_on_nodes-noted s ns ((s, n) ∷ runs) runs' (ground arith)
        | inr f ↦ ground arith
      ]
    ]

    run_scripts-planned :
        (c : Config) (ss : List ScriptConfig) (runs runs' : Runs)
        → run_scripts matches (noted fails) c ss runs ≡ (ok tt, runs')
        → runs' ≡ planned c ss runs
    unfolding run_scripts run_script
    run_scripts-planned c [] runs runs' h = ground arith
    run_scripts-planned c (s ∷ ss) runs runs' h =
        elim (Result-cases (target_nodes matches s (get_enabled_nodes c))) [
          | inr (x, e) ↦ ground arith
          | inl (ts, e) ↦
              let (r, runs₁) = run_on_nodes matches (noted fails) s ts runs in
              elim (Result-cases (run_on_nodes matches (noted fails) s ts runs).0) [
                | inr (x, e') ↦ ground arith
                | inl (tt, e') ↦
                    let q = target_nodes-filter s (get_enabled_nodes c) ts e in
                    let k = run_on_nodes-noted s ts runs runs₁ (ground arith) in
                    let ih = run_scripts-planned c ss runs₁ runs' (ground arith) in
                    ih ∙ ap (planned c ss) (k ∙ ap (λ ts. on_nodes s ts runs) q)
              ]
        ]

    -- If `execute_scripts` reports success, whatever executions failed on the way, every enabled script
    -- was executed once on each enabled node that allows scripts and on which all of the script's
    -- conditions hold, and nothing else was executed: script by script, node by node, in the
    -- configuration's order.
    pub execute_scripts-planned :
        (c : Config) (scripts : List ScriptConfig) (runs runs' : Runs)
        → execute_scripts matches (noted fails) c scripts runs ≡ (ok tt, runs')
        → runs' ≡ planned c (filter (λ s. s.enabled) scripts) runs
    unfolding execute_scripts
    execute_scripts-planned c scripts runs runs' h =
        run_scripts-planned c (filter (λ s. s.enabled) scripts) runs runs' h
