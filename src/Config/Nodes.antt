-- ===== src/Config/Nodes.antt =====
-- The questions that the deployment asks of a configuration: the getters of
-- internal/config/config.go and internal/config/node_extensions.go, and the selections of nodes of
-- internal/deployer/deployer.go. Go slices that are only appended to are lists.
pub mod Partition
pub mod Membership
use docker_swarm_cluster_con.Prelude.{
  String, Bool, true, false, ◌&&◌, ◌||◌, List, [], ◌∷◌, Option, none, some, ◌==◌, if◌then◌else◌,
  filter, to_lower, trim_space, map,
}
use docker_swarm_cluster_con.Config.Types.{
  Config, NodeConfig, DistributedStorage, Decommissioning, KeepalivedConfig, ManagementPanelConfig,
  FirewallConfig, FirewallPortRule, FirewallProfile,
}

unfoldable pub is_enabled : NodeConfig → Bool
is_enabled n = elim n.enabled [ none ↦ true | some b ↦ b ]

unfoldable pub get_storage_nodes : Config → List NodeConfig
unfolding is_enabled
get_storage_nodes c = filter (λ n. is_enabled n && n.storage_enabled) c.nodes

unfoldable pub is_storage_enabled : Config → Bool
is_storage_enabled c = c.global_settings.distributed_storage.enabled

unfoldable pub is_decommissioning : Config → Bool
is_decommissioning c = c.global_settings.decommissioning.enabled

unfoldable pub should_remove_storage : Decommissioning → DistributedStorage → Bool
should_remove_storage d ds = elim d.remove_storage [ none ↦ ds.force_recreation | some b ↦ b ]

unfoldable pub should_remove_docker_swarm : Decommissioning → Bool
should_remove_docker_swarm d = elim d.remove_docker_swarm [ none ↦ true | some b ↦ b ]

unfoldable pub is_keepalived_enabled : Config → Bool
is_keepalived_enabled c = c.global_settings.keepalived.enabled

unfoldable pub get_keepalived_nodes : Config → List NodeConfig
unfolding is_keepalived_enabled is_enabled
get_keepalived_nodes c =
    if is_keepalived_enabled c
    then filter (λ n. is_enabled n && n.keepalived.enabled) c.nodes
    else []

unfoldable pub is_auto_value : String → Bool
unfolding to_lower trim_space
is_auto_value value = let v = to_lower (trim_space value) in v == "auto" || v == "automatic"

-- internal/config/node_extensions.go
unfoldable pub get_type : ManagementPanelConfig → String
get_type m = if m.type == "" || m.type == "none" then "webmin" else m.type

unfoldable pub get_action : FirewallPortRule → String
get_action r = if r.action == "" then "ACCEPT" else r.action

unfoldable pub get_sources : FirewallPortRule → List String
get_sources r = elim r.sources [ [] ↦ "0.0.0.0/0" ∷ [] | s ∷ ss ↦ s ∷ ss ]

any_profile : List FirewallProfile → Bool
any_profile [] = false
any_profile (p ∷ ps) = p.enabled || any_profile ps

any_rule : List FirewallPortRule → Bool
any_rule [] = false
any_rule (r ∷ rs) = r.enabled || any_rule rs

unfoldable pub has_firewall_enabled : FirewallConfig → Bool
unfolding any_profile any_rule
has_firewall_enabled f =
    if f.configuration_enabled then any_profile f.profiles || any_rule f.ports else false

unfoldable pub is_valid_firewall_profile : String → Bool
is_valid_firewall_profile name =
    name == "BlockAllPublic" || name == "AllowAllPrivate" || name == "Harden"

-- internal/deployer/deployer.go
unfoldable pub get_enabled_nodes : Config → List NodeConfig
unfolding is_enabled
get_enabled_nodes c = filter is_enabled c.nodes

-- `getStorageNodes` of the deployer: the names only.
unfoldable pub storage_hosts : Config → List String
unfolding get_enabled_nodes
storage_hosts c =
    map (λ n. n.ssh_fqdn_or_ip) (filter (λ n. n.storage_enabled) (get_enabled_nodes c))

-- One round of `categorizeNodes`, which appends to the managers or to the workers.
pub categorize : List NodeConfig → List String × List String
categorize [] = ([], [])
categorize (n ∷ ns) =
    let rest = categorize ns in
    if n.role == "manager" || n.role == "both"
    then (n.ssh_fqdn_or_ip ∷ rest.0, rest.1)
    else if n.role == "worker"
    then (rest.0, n.ssh_fqdn_or_ip ∷ rest.1)
    else rest

unfoldable pub categorize_nodes : Config → List String × List String
unfolding categorize get_enabled_nodes
categorize_nodes c = categorize (get_enabled_nodes c)

unfoldable pub contains_text : String → List String → Bool
contains_text x [] = false
contains_text x (y ∷ ys) = y == x || contains_text x ys

pub record StorageRoles : Type 0 where
  pub managers : List String
  pub workers : List String
  pub all_unique : List String

-- The loop of `getStorageNodesByRole`; `seen` holds what `all_unique` has so far.
pub storage_by_role : List String → List NodeConfig → StorageRoles
unfolding contains_text
storage_by_role seen [] = record { managers = []; workers = []; all_unique = [] }
storage_by_role seen (n ∷ ns) =
    let host = n.ssh_fqdn_or_ip in
    let known = if n.storage_enabled then contains_text host seen else true in
    let rest = storage_by_role (if known then seen else host ∷ seen) ns in
    if n.storage_enabled
    then record {
      managers =
          if n.role == "manager" || n.role == "both" then host ∷ rest.managers else rest.managers;
      workers =
          if n.role == "worker" || n.role == "both" then host ∷ rest.workers else rest.workers;
      all_unique = if known then rest.all_unique else host ∷ rest.all_unique;
    }
    else rest

unfoldable pub get_storage_nodes_by_role : Config → StorageRoles
unfolding storage_by_role get_enabled_nodes
get_storage_nodes_by_role c = storage_by_role [] (get_enabled_nodes c)
