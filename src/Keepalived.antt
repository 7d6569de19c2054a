-- ===== src/Keepalived.antt =====
-- internal/services/keepalived.go: the virtual IP address that the nodes of one subnet share. This
-- file has the data, the conversions and each node's own settings; Arp looks for an unused address, and
-- Deployment is `PrepareKeepalivedDeployment`. `run` is the SSH pool's `Run`; `expired` is the scan's
-- timeout test; `parse_ip` and `parse_cidr` are `net.ParseIP` and `net.ParseCIDR`, the latter giving
-- the address and the prefix length; `random` is the generated password. An address that the code
-- prints and parses again is kept as it is.
pub mod Arp
pub mod Deployment
pub mod Address
pub mod Resolve
pub mod Tests
use docker_swarm_cluster_con.Prelude.{
  ℕ, zero, suc, ◌+◌, ◌-◌, ◌*◌, ◌/◌, ◌%◌, ◌^◌, String, Bool, true, false, ◌&&◌, ◌||◌, not, List, [],
  ◌∷◌, Option, none, some, Result, ok, err, ◌==◌, ◌=?◌, leb, if◌then◌else◌, trim_space, split_lines,
  fields, has_prefix, to_upper, ◌^^◌, ℤ, pos, is_zero, is_positive, sub_ℕ, show_int, show_nat, atoi,
}
use docker_swarm_cluster_con.Defaults.{keepalived_base_priority, keepalived_vip_scan_timeout}
use docker_swarm_cluster_con.Config.{Config, NodeConfig}
use docker_swarm_cluster_con.Config.Nodes.{
  is_auto_value, is_keepalived_enabled, get_keepalived_nodes,
}
use docker_swarm_cluster_con.IpDetect.{
  Ip, v4, v6, ip_number, is_rfc1918, Subnet, net4, net6, subnet_contains,
}
use docker_swarm_cluster_con.Ssh.{RunResult}

pub record KeepalivedNodeConfig : Type 0 where
  pub hostname : String
  pub priority : ℤ
  pub state : String
  pub interface : String
  pub vip : String

pub record KeepalivedDeployment : Type 0 where
  pub enabled : Bool
  pub vip : String
  pub vip_cidr : String
  pub interface : String
  pub router_id : ℤ
  pub auth_pass : String
  pub nodes : List KeepalivedNodeConfig

pub data KeepalivedError : Type 0 where
  list_failed no_rfc1918_interface details_failed no_address bad_cidr not_ipv4 no_usable_hosts :
      KeepalivedError
  arping_missing no_scan_interface loopback_interface scan_timeout no_unused_ip : KeepalivedError

-- `&KeepalivedDeployment{Enabled: false}`
abbrev pub disabled : KeepalivedDeployment
disabled = record {
  enabled = false;
  vip = "";
  vip_cidr = "";
  interface = "";
  router_id = pos 0;
  auth_pass = "";
  nodes = [];
}

-- IPv4 only: the program calls it on the addresses of an IPv4 network.
unfoldable pub ip_to_uint32 : Ip → ℕ
ip_to_uint32 (v4 a b c d) = a * 16777216 + b * 65536 + c * 256 + d
ip_to_uint32 v6 = 0

unfoldable pub uint32_to_ip : ℕ → Ip
uint32_to_ip n = v4 (n / 16777216 % 256) (n / 65536 % 256) (n / 256 % 256) (n % 256)

-- An IPv4 address as `net.IP` prints it; no other is ever printed here.
unfoldable pub show_ip : Ip → String
show_ip (v4 a b c d) =
    show_nat a ^^ ("." ^^ (show_nat b ^^ ("." ^^ (show_nat c ^^ ("." ^^ show_nat d)))))
show_ip v6 = "v6"

pub configured : String → Bool
configured text = not (is_auto_value text) && not (text == "")

own_priority : Option ℤ → ℤ → ℤ
own_priority none priority = priority
own_priority (some p) priority = p

unfoldable pub resolve_node_config :
    NodeConfig → ℕ → (iface vip_cidr : String) → KeepalivedNodeConfig
unfolding configured own_priority is_auto_value
resolve_node_config node index iface vip_cidr =
    let priority = sub_ℕ keepalived_base_priority index in
    let state = (if index =? 0 then "MASTER" else "BACKUP") in
    record {
      hostname = node.ssh_fqdn_or_ip;
      priority =
          if configured node.keepalived.priority
          then own_priority (atoi node.keepalived.priority) priority
          else priority;
      state = if configured node.keepalived.state then to_upper node.keepalived.state else state;
      interface = iface;
      vip = vip_cidr;
    }

unfoldable pub resolve_all :
    List NodeConfig → ℕ → (iface vip_cidr : String) → List KeepalivedNodeConfig
unfolding resolve_node_config
resolve_all [] index iface vip_cidr = []
resolve_all (n ∷ ns) index iface vip_cidr =
    resolve_node_config n index iface vip_cidr ∷ resolve_all ns (index + 1) iface vip_cidr

last_octet : Option Ip → ℕ
last_octet (some (v4 a b c d)) = d
last_octet _ = 0

parsed_id : Option ℤ → ℤ
parsed_id none = pos 51
parsed_id (some id) = id

unfoldable pub router_id_of : (parse_ip : String → Option Ip) → (configured_id vip : String) → ℤ
unfolding configured last_octet parsed_id
router_id_of parse_ip configured_id vip =
    let octet = last_octet (parse_ip vip) in
    if configured configured_id
    then parsed_id (atoi configured_id)
    else if octet =? 0
    then pos 51
    else pos octet
