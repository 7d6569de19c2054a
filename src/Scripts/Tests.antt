-- ===== src/Scripts/Tests.antt =====
-- The script phase on the sample cluster, and runs.
use docker_swarm_cluster_con.Prelude.{
  ◌≡◌, refl, String, Bool, true, false, List, [], ◌∷◌, Option, none, some, ok, filter, to_lower,
  text_length, has_prefix, equal_fold, ◌==◌, if◌then◌else◌,
}
use docker_swarm_cluster_con.Config.{NodeConfig, ScriptConfig}
use docker_swarm_cluster_con.Config.Samples.{cluster, m1, w1}
use docker_swarm_cluster_con.Config.Conditions.{
  evaluate_script_conditions, evaluate_condition, get_node_property,
}
use docker_swarm_cluster_con.Config.Nodes.{get_enabled_nodes}
use docker_swarm_cluster_con.Ssh.{RunResult}
use docker_swarm_cluster_con.Scripts.{
  NodeError, local_script, chmod_failed, execute_script_on_node, execute_scripts,
}
use docker_swarm_cluster_con.Scripts.Planned.{noted, planned, execute_scripts-planned}

abbrev no_regexp : String → String → Option Bool
no_regexp pattern text = none

abbrev everywhere : ScriptConfig
everywhere = record {
  enabled = true;
  continue_on_error = true;
  name = "a";
  source = "https://x/a.sh";
  parameters = "";
  conditions = [];
}

abbrev on_workers : ScriptConfig
on_workers = record everywhere {
  name = "b";
  conditions = record { property = "Role"; operator = "="; value = "Worker"; negate = false } ∷ [];
}

abbrev off : ScriptConfig
off = record everywhere { enabled = false; name = "c" }

-- everything fails on m1
abbrev bad_m1 : NodeConfig → ScriptConfig → Option NodeError
bad_m1 n s = if n.ssh_fqdn_or_ip == "m1" then some chmod_failed else none

scripts_run :
    execute_scripts no_regexp (noted bad_m1) cluster (everywhere ∷ off ∷ on_workers ∷ []) []
    ≡ (ok tt, (on_workers, w1) ∷ (everywhere, w1) ∷ (everywhere, m1) ∷ [])
unfolding execute_scripts get_enabled_nodes evaluate_script_conditions evaluate_condition
    get_node_property to_lower equal_fold has_prefix
scripts_run = refl

execute_scripts-planned_example :
    (on_workers, w1) ∷ (everywhere, w1) ∷ (everywhere, m1) ∷ []
    ≡ planned no_regexp cluster (filter (λ s. s.enabled) (everywhere ∷ off ∷ on_workers ∷ [])) []
execute_scripts-planned_example =
    execute_scripts-planned no_regexp bad_m1 cluster (everywhere ∷ off ∷ on_workers ∷ []) []
      ((on_workers, w1) ∷ (everywhere, w1) ∷ (everywhere, m1) ∷ []) scripts_run

abbrev accepts : String → String → List String → RunResult × List String
accepts host cmd cmds = (record { stdout = ""; stderr = ""; failed = false }, cmd ∷ cmds)

commands_run :
    (execute_script_on_node accepts w1 everywhere [] ≡ (
      none,
      "/tmp/clusterctl-script-a.sh" ∷ "chmod +x /tmp/clusterctl-script-a.sh"
          ∷ "curl -fsSL -o /tmp/clusterctl-script-a.sh https://x/a.sh" ∷ [],
    ))
    × (execute_script_on_node accepts w1 (record everywhere { source = "./a.sh" }) []
        ≡ (some local_script, []))
unfolding execute_script_on_node text_length has_prefix
commands_run = (refl, refl)
