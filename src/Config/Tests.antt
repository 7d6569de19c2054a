-- ===== src/Config/Tests.antt =====
-- The configuration's theorems at concrete configurations, and runs.
use docker_swarm_cluster_con.Prelude.{
  ℕ, zero, suc, ◌+◌, String, ◌≡◌, ◌≢◌, refl, Bool, true, false, ◌||◌, [], ◌∷◌, Option, none, some,
  Result, ok, err, ◌↔◌, All, length, get_elem?, take, inl, to_lower, has_prefix, drop_bytes,
  equal_fold,
}
use docker_swarm_cluster_con.Config.Types.{Config, NodeConfig, ScriptCondition}
use docker_swarm_cluster_con.Config.Samples.{m1, w1, settings, cluster}
use docker_swarm_cluster_con.Config.Validate.{bad_role, validate}
use docker_swarm_cluster_con.Config.Validate.Valid.{IsValidConfig, validate_iff}
use docker_swarm_cluster_con.Config.Validate.FirstError.{FirstInvalid, validate_first_error}
use docker_swarm_cluster_con.Config.Fill.{apply_defaults}
use docker_swarm_cluster_con.Config.Fill.Filled.{apply_defaults_idem}
use docker_swarm_cluster_con.Config.Conditions.{
  ConditionError, get_node_property, evaluate_condition, evaluate_script_conditions, negate_result,
  or_empty, lookup,
}
use docker_swarm_cluster_con.Config.Conditions.Laws.{
  Holds, Passes, conditions_iff, conditions_first_other, evaluate_condition-negate,
  evaluate_condition_ne, get_node_property_fold, get_node_property_label,
}
use docker_swarm_cluster_con.Config.Nodes.{
  categorize_nodes, get_enabled_nodes, get_storage_nodes_by_role, contains_text, is_auto_value,
}
use docker_swarm_cluster_con.Config.Nodes.Partition.{
  Distinct, EnabledManager, categorize_nodes_total, categorize_nodes_managers,
  get_storage_nodes_by_role_unique,
}

abbrev bad : NodeConfig
bad = record m1 { role = "boss" }

abbrev broken : Config
broken = record { global_settings = settings; nodes = m1 ∷ bad ∷ [] }

cluster_passes : validate cluster ≡ ok tt
unfolding validate
cluster_passes = refl

broken_fails : validate broken ≡ err (bad_role 1 "m1")
unfolding validate
broken_fails = refl

cluster-IsValid : IsValidConfig cluster
cluster-IsValid = (validate_iff cluster).0 cluster_passes

validate_iff_example : (validate cluster ≡ ok tt) ↔ IsValidConfig cluster
validate_iff_example = validate_iff cluster

validate_first_error_example : FirstInvalid broken.nodes 1
validate_first_error_example =
    validate_first_error broken {e = bad_role 1 "m1"} {i = 1} broken_fails refl

apply_defaults_idem_run : apply_defaults (apply_defaults cluster) ≡ apply_defaults cluster
apply_defaults_idem_run = apply_defaults_idem cluster

abbrev decode : ℕ → Option Config
decode zero = some cluster
decode (suc n) = none

-- the pattern is found only as the whole text
abbrev whole : String → String → Option Bool
whole pattern value = some (equal_fold pattern value)

abbrev is_manager : ScriptCondition
is_manager = record { property = "Role"; operator = "Equals"; value = "MANAGER"; negate = false }

abbrev not_manager : ScriptCondition
not_manager = record { property = "role"; operator = "!="; value = "manager"; negate = false }

manager_holds : evaluate_condition whole m1 is_manager ≡ ok true
unfolding evaluate_condition get_node_property equal_fold
manager_holds = refl

conditions_iff_example :
    (evaluate_script_conditions whole m1 (is_manager ∷ []) ≡ ok true)
    ↔ All (Holds whole m1) (is_manager ∷ [])
conditions_iff_example = conditions_iff whole m1 (is_manager ∷ [])

second_fails : evaluate_script_conditions whole m1 (is_manager ∷ not_manager ∷ []) ≡ ok false
unfolding evaluate_script_conditions evaluate_condition get_node_property equal_fold
second_fails = refl

false-ne-true : ◌≢◌ {A = Result ConditionError Bool} (ok false) (ok true)
false-ne-true e = cc

conditions_first_other_run :
    (i : ℕ) × (c : ScriptCondition) × (get_elem? (is_manager ∷ not_manager ∷ []) i ≡ some c)
    × (evaluate_condition whole m1 c ≡ ok false)
    × All (Passes whole m1) (take i (is_manager ∷ not_manager ∷ []))
conditions_first_other_run =
    conditions_first_other whole m1 (is_manager ∷ not_manager ∷ []) (ok false) second_fails
      false-ne-true

evaluate_condition-negate_run :
    evaluate_condition whole m1 (record is_manager { negate = true })
    ≡ negate_result whole true (evaluate_condition whole m1 is_manager)
evaluate_condition-negate_run = evaluate_condition-negate whole m1 is_manager

evaluate_condition_ne_run :
    evaluate_condition whole m1 not_manager
    ≡ evaluate_condition whole m1 (record not_manager { operator = "="; negate = true })
unfolding to_lower
evaluate_condition_ne_run = evaluate_condition_ne whole m1 not_manager (inl refl)

role_of_m1 : get_node_property m1 "ROLE" ≡ ok "manager"
unfolding get_node_property
role_of_m1 = refl

get_node_property_fold_run : get_node_property m1 "role" ≡ ok "manager"
unfolding to_lower has_prefix
get_node_property_fold_run =
    get_node_property_fold m1 "ROLE" "role" {v = "manager"} refl refl role_of_m1

get_node_property_label_run :
    get_node_property m1 "Label.Zone" ≡ ok (or_empty (lookup (drop_bytes 6 "Label.Zone") m1.labels))
unfolding to_lower has_prefix
get_node_property_label_run = get_node_property_label m1 "Label.Zone" refl

label_value : get_node_property m1 "Label.Zone" ≡ ok "a"
unfolding get_node_property
label_value = refl

categorize_nodes_total_run :
    length (categorize_nodes cluster).0 + length (categorize_nodes cluster).1
    ≡ length (get_enabled_nodes cluster)
categorize_nodes_total_run = categorize_nodes_total cluster cluster-IsValid

-- Valid, but the only manager is disabled.
abbrev headless : Config
headless = record {
  global_settings = settings;
  nodes = record m1 { enabled = some false } ∷ w1 ∷ [];
}

headless_passes : validate headless ≡ ok tt
unfolding validate
headless_passes = refl

categorize_nodes_managers_example :
    ((categorize_nodes headless).0 ≢ []) ↔ EnabledManager headless.nodes
categorize_nodes_managers_example = categorize_nodes_managers headless

no_primary : (categorize_nodes headless).0 ≡ []
unfolding categorize_nodes
no_primary = refl

get_storage_nodes_by_role_unique_run :
    Distinct (get_storage_nodes_by_role cluster).all_unique
    × ((h : String)
        → contains_text h (get_storage_nodes_by_role cluster).all_unique ≡ (
            contains_text h (get_storage_nodes_by_role cluster).managers
            || contains_text h (get_storage_nodes_by_role cluster).workers))
get_storage_nodes_by_role_unique_run = get_storage_nodes_by_role_unique cluster cluster-IsValid

auto_values :
    (is_auto_value " Auto " ≡ true)
    × (is_auto_value "AUTOMATIC" ≡ true)
    × (is_auto_value "" ≡ false)
unfolding is_auto_value
auto_values = (refl, refl, refl)
