-- ===== src/Config/Conditions.antt =====
-- internal/config/conditions.go: the conditions under which a script runs on a node. Go's `regexp`
-- is the parameter `matches`: whether a text has a match of a pattern, none if the pattern is
-- malformed.
pub mod Laws
use docker_swarm_cluster_con.Prelude.{
  String, Bool, true, false, ◌||◌, not, List, [], ◌∷◌, Option, none, some, Result, ok, err, ◌==◌,
  if◌then◌else◌, to_lower, equal_fold, has_prefix, drop_bytes, show_int, ◌^^◌,
}
use docker_swarm_cluster_con.Config.Types.{NodeConfig, ScriptCondition}

pub data ConditionError : Type 0 where
  unknown_property : String → ConditionError
  invalid_pattern : String → ConditionError
  unsupported_operator : String → ConditionError

-- the text of a Boolean property
abbrev pub flag : Bool → String
flag true = "true"
flag false = "false"

-- the value of a key in a Go map
unfoldable pub lookup : String → List (String × String) → Option String
lookup k [] = none
lookup k ((j, v) ∷ m) = if j == k then some v else lookup k m

pub or_empty : Option String → String
or_empty none = ""
or_empty (some v) = v

abbrev enabled_flag : Option Bool → Bool
enabled_flag none = true
enabled_flag (some b) = b

-- The `default` of the switch: labels, whose key is taken as it is written.
label_property : NodeConfig → String → Result ConditionError String
unfolding or_empty lookup to_lower has_prefix drop_bytes
label_property node property =
    if has_prefix (to_lower property) "label."
    then ok (or_empty (lookup (drop_bytes 6 property) node.labels))
    else err (unknown_property property)

-- The switch on the name in lower case.
pub named_property : NodeConfig → (name property : String) → Result ConditionError String
unfolding label_property show_int
named_property node name property =
    if name == "sshfqdnorip" || name == "hostname"
    then ok node.ssh_fqdn_or_ip
    else if name == "username"
    then ok node.username
    else if name == "role"
    then ok node.role
    else if name == "newhostname"
    then ok node.new_hostname
    else if name == "sshport"
    then ok (show_int node.ssh_port)
    else if name == "storageenabled"
    then ok (flag node.storage_enabled)
    else if name == "rebootoncompletion"
    then ok (flag node.reboot_on_completion)
    else if name == "scriptsenabled"
    then ok (flag node.scripts_enabled)
    else if name == "usesshautomatickeypair"
    then ok (flag node.use_ssh_automatic_key_pair)
    else if name == "enabled"
    then ok (flag (enabled_flag node.enabled))
    else label_property node property

unfoldable pub get_node_property : NodeConfig → String → Result ConditionError String
unfolding named_property
get_node_property node property = named_property node (to_lower property) property

module _ (matches : String → String → Option Bool) where
  -- `regexp.MatchString` on the pattern with "(?i)" in front
  match_pattern : String → String → Result ConditionError Bool
  match_pattern pattern value = elim (matches ("(?i)" ^^ pattern) value) [
    | none ↦ err (invalid_pattern pattern)
    | some b ↦ ok b
  ]

  pub negate_result : Bool → Result ConditionError Bool → Result ConditionError Bool
  negate_result negate (ok b) = ok (if negate then not b else b)
  negate_result negate (err e) = err e

  -- The switch on the operator.
  apply_operator : ScriptCondition → String → Result ConditionError Bool
  unfolding match_pattern negate_result
  apply_operator condition value =
      let operator = to_lower condition.operator in
      if operator == "=" || operator == "==" || operator == "equals"
      then ok (equal_fold value condition.value)
      else if operator == "!=" || operator == "notequals"
      then ok (not (equal_fold value condition.value))
      else if operator == "regex" || operator == "matches"
      then match_pattern condition.value value
      else if operator == "!regex" || operator == "notmatches"
      then negate_result true (match_pattern condition.value value)
      else err (unsupported_operator condition.operator)

  after_property : ScriptCondition → Result ConditionError String → Result ConditionError Bool
  unfolding apply_operator
  after_property condition (ok value) =
      negate_result condition.negate (apply_operator condition value)
  after_property condition (err e) = err e

  unfoldable pub evaluate_condition : NodeConfig → ScriptCondition → Result ConditionError Bool
  unfolding after_property
  evaluate_condition node condition =
      after_property condition (get_node_property node condition.property)

  -- The loop: all conditions must hold, and the first that fails or cannot be evaluated ends it.
  unfoldable pub evaluate_script_conditions :
      NodeConfig → List ScriptCondition → Result ConditionError Bool
  evaluate_script_conditions node [] = ok true
  evaluate_script_conditions node (condition ∷ rest) = elim (evaluate_condition node condition) [
    | err e ↦ err e
    | ok false ↦ ok false
    | ok true ↦ evaluate_script_conditions node rest
  ]
