-- ===== src/Config/Validate.antt =====
-- `Validate` of internal/config/config.go.
pub mod Valid
pub mod FirstError
use docker_swarm_cluster_con.Prelude.{
  ℕ, zero, suc, ◌+◌, ◌<◌, String, ◌≡◌, ◌≢◌, refl, Bool, true, false, ◌&&◌, ◌||◌, not, List, [], ◌∷◌,
  arith, Result, ok, err, ◌==◌, ◌=?◌, if◌then◌else◌, eq_iff, ◌↔◌, ◌⊎◌, inl, inr, get_elem?, some,
  All, Bool-cases, ◌∙◌, sym, ◌≤◌, ap, subst, take, Option, none,
}
use docker_swarm_cluster_con.Config.Types.{NodeConfig, Config}

-- The errors, with the node's index and name where the message has them.
pub data ConfigError : Type 0 where
  no_nodes : ConfigError
  name_required : ℕ → ConfigError
  bad_role : ℕ → String → ConfigError
  no_credentials : ℕ → String → ConfigError
  no_manager : ConfigError

pub known_role : String → Bool
known_role role = role == "manager" || role == "worker" || role == "both"

pub is_manager_role : String → Bool
is_manager_role role = role == "manager" || role == "both"

pub lacks_credentials : NodeConfig → Bool
lacks_credentials node =
    not node.use_ssh_automatic_key_pair && node.password == "" && node.private_key_path == ""

-- The loop over the nodes from index `i` on; the result is `managerCount`.
pub validate_nodes : ℕ → ℕ → List NodeConfig → Result ConfigError ℕ
unfolding known_role is_manager_role lacks_credentials
validate_nodes i managers [] = ok managers
validate_nodes i managers (node ∷ rest) =
    let managers' = if is_manager_role node.role then managers + 1 else managers in
    let tail = validate_nodes (i + 1) managers' rest in
    if node.ssh_fqdn_or_ip == ""
    then err (name_required i)
    else if not (known_role node.role)
    then err (bad_role i node.ssh_fqdn_or_ip)
    else if lacks_credentials node
    then err (no_credentials i node.ssh_fqdn_or_ip)
    else tail

enough_managers : ℕ → Result ConfigError (Unit {0})
enough_managers zero = err no_manager
enough_managers (suc n) = ok tt

after_nodes : Result ConfigError ℕ → Result ConfigError (Unit {0})
unfolding enough_managers
after_nodes (ok n) = enough_managers n
after_nodes (err e) = err e

validate_list : List NodeConfig → Result ConfigError (Unit {0})
unfolding validate_nodes after_nodes
validate_list [] = err no_nodes
validate_list (node ∷ rest) = after_nodes (validate_nodes 0 0 (node ∷ rest))

unfoldable pub validate : Config → Result ConfigError (Unit {0})
unfolding validate_list
validate c = validate_list c.nodes
