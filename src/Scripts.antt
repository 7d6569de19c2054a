-- ===== src/Scripts.antt =====
-- `executeScripts` and `executeScriptOnNode` of internal/deployer/deployer.go: the configured scripts,
-- each on the nodes that its conditions select. `matches` is `regexp.MatchString` and `run` the SSH
-- pool's `Run`. Log lines and the counts that are only logged are left out.
pub mod Planned
pub mod Tests
use docker_swarm_cluster_con.Prelude.{
  ℕ, String, Bool, true, false, ◌&&◌, ◌||◌, List, [], ◌∷◌, Option, none, some, Result, ok, err,
  ◌==◌, ltb, if◌then◌else◌, filter, has_prefix, text_length, ◌^^◌,
}
use docker_swarm_cluster_con.Config.{Config, NodeConfig, ScriptConfig}
use docker_swarm_cluster_con.Config.Conditions.{ConditionError, evaluate_script_conditions}
use docker_swarm_cluster_con.Config.Nodes.{get_enabled_nodes}
use docker_swarm_cluster_con.Ssh.{RunResult}

pub data NodeError : Type 0 where
  download_failed local_script chmod_failed run_failed : NodeError

pub data ScriptError : Type 0 where
  conditions_failed : (script host : String) → ConditionError → ScriptError
  script_failed : (script host : String) → NodeError → ScriptError

-- A source that is longer than "http://" and starts as a URL does.
unfoldable pub is_remote : String → Bool
is_remote source =
    ltb 7 (text_length source) && (has_prefix source "http://" || has_prefix source "https://")

script_path : String → String
script_path name = "/tmp/clusterctl-script-" ^^ (name ^^ ".sh")

module _ {W : Type 0} (run : String → String → W → RunResult × W) where
  -- One command, whose failure is the given error.
  step : NodeError → String → String → W → Option NodeError × W
  step e host cmd w = let (r, w₁) = run host cmd w in (if r.failed then some e else none, w₁)

  unfoldable pub execute_script_on_node : NodeConfig → ScriptConfig → W → Option NodeError × W
  unfolding is_remote script_path step
  execute_script_on_node node script w =
      let host = node.ssh_fqdn_or_ip in
      let path = script_path script.name in
      let exec_cmd =
        (if script.parameters == "" then path else path ^^ (" " ^^ script.parameters)) in
      elim (is_remote script.source) [
        | false ↦ (some local_script, w)
        | true ↦
            let (e, w₁) =
              step download_failed host ("curl -fsSL -o " ^^ (path ^^ (" " ^^ script.source))) w in
            elim e [
              | some e ↦ (some e, w₁)
              | none ↦
                  let (e, w₂) = step chmod_failed host ("chmod +x " ^^ path) w₁ in
                  elim e [ some e ↦ (some e, w₂) | none ↦ step run_failed host exec_cmd w₂ ]
            ]
      ]

module _ (matches : String → String → Option Bool) where
  -- The nodes that a script is for: the first condition that cannot be evaluated ends the deployment.
  unfoldable pub target_nodes :
      ScriptConfig → List NodeConfig → Result ScriptError (List NodeConfig)
  target_nodes script [] = ok []
  target_nodes script (n ∷ ns) =
      let rest = target_nodes script ns in
      elim n.scripts_enabled [
        | false ↦ rest
        | true ↦ elim (evaluate_script_conditions matches n script.conditions) [
          | err e ↦ err (conditions_failed script.name n.ssh_fqdn_or_ip e)
          | ok true ↦ elim rest [ err e ↦ err e | ok ts ↦ ok (n ∷ ts) ]
          | ok false ↦ rest
        ]
      ]

  -- `execute` is `execute_script_on_node`.
  module _ {W : Type 0} (execute : NodeConfig → ScriptConfig → W → Option NodeError × W) where
    unfoldable pub run_on_nodes :
        ScriptConfig → List NodeConfig → W → Result ScriptError (Unit {0}) × W
    run_on_nodes script [] w = (ok tt, w)
    run_on_nodes script (n ∷ ns) w =
        let (e, w₁) = execute n script w in
        elim e [
          | none ↦ run_on_nodes script ns w₁
          | some e ↦ elim script.continue_on_error [
            | true ↦ run_on_nodes script ns w₁
            | false ↦ (err (script_failed script.name n.ssh_fqdn_or_ip e), w₁)
          ]
        ]

    unfoldable pub run_script : Config → ScriptConfig → W → Result ScriptError (Unit {0}) × W
    unfolding target_nodes run_on_nodes
    run_script c script w = elim (target_nodes script (get_enabled_nodes c)) [
      | err e ↦ (err e, w)
      | ok ts ↦ run_on_nodes script ts w
    ]

    unfoldable pub run_scripts : Config → List ScriptConfig → W → Result ScriptError (Unit {0}) × W
    unfolding run_script
    run_scripts c [] w = (ok tt, w)
    run_scripts c (s ∷ ss) w =
        let (r, w₁) = run_script c s w in
        elim r [ err e ↦ (err e, w₁) | ok _ ↦ run_scripts c ss w₁ ]

    unfoldable pub execute_scripts :
        Config → List ScriptConfig → W → Result ScriptError (Unit {0}) × W
    unfolding run_scripts
    execute_scripts c scripts w = run_scripts c (filter (λ s. s.enabled) scripts) w
