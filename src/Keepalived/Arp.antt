-- ===== src/Keepalived/Arp.antt =====
-- `findUnusedVIP` of internal/services/keepalived.go: the search for an unused address by ARP.
pub mod Scan
use docker_swarm_cluster_con.Prelude.{
  ℕ, zero, suc, ◌+◌, ◌-◌, ◌*◌, ◌/◌, ◌%◌, ◌^◌, String, Bool, true, false, ◌&&◌, ◌||◌, not, List, [],
  ◌∷◌, Option, none, some, Result, ok, err, ◌==◌, ◌=?◌, leb, if◌then◌else◌, trim_space, split_lines,
  fields, has_prefix, to_upper, ◌^^◌, ℤ, pos, is_zero, is_positive, sub_ℕ, show_int, show_nat, atoi,
}
use docker_swarm_cluster_con.Defaults.{keepalived_base_priority, keepalived_vip_scan_timeout}
use docker_swarm_cluster_con.Config.{Config, NodeConfig}
use docker_swarm_cluster_con.Config.Nodes.{
  is_auto_value, is_keepalived_enabled, get_keepalived_nodes,
}
use docker_swarm_cluster_con.IpDetect.{
  Ip, v4, v6, ip_number, is_rfc1918, Subnet, net4, net6, subnet_contains,
}
use docker_swarm_cluster_con.Ssh.{RunResult}
use docker_swarm_cluster_con.Keepalived.{
  KeepalivedNodeConfig, KeepalivedDeployment, KeepalivedError, list_failed, no_rfc1918_interface,
  details_failed, no_address, bad_cidr, not_ipv4, no_usable_hosts, arping_missing,
  no_scan_interface, loopback_interface, scan_timeout, no_unused_ip, disabled, ip_to_uint32,
  uint32_to_ip, show_ip, configured, resolve_all, router_id_of,
}

unfoldable pub arp_cmd : String → Ip → String
unfolding show_ip
arp_cmd iface ip = "arping -D -c 1 -w 1 -I " ^^ (iface ^^ (" " ^^ show_ip ip))

abbrev install_arping_cmd : String
install_arping_cmd =
    "command -v arping >/dev/null 2>&1 || {\n\t\tif command -v apt-get >/dev/null 2>&1; then\n\t\t\tapt-get update -qq && apt-get install -y -qq iputils-arping 2>/dev/null\n\t\telif command -v dnf >/dev/null 2>&1; then\n\t\t\tdnf install -y -q arping 2>/dev/null\n\t\telif command -v yum >/dev/null 2>&1; then\n\t\t\tyum install -y -q arping 2>/dev/null\n\t\tfi\n\t}"

-- A node whose address could be had and is a private one of the network goes before the rest.

module _ {W : Type 0} (run : String → String → W → RunResult × W) where
  module _ (expired : W → Bool × W) (host : String) where
    -- The loop over the hosts `net + k`, ..., `net + 1`; `own` is the interface's address.
    unfoldable pub scan : (iface : String) → (own net k : ℕ) → W → Result KeepalivedError Ip × W
    unfolding uint32_to_ip arp_cmd
    scan iface own net zero w = (err no_unused_ip, w)
    scan iface own net (suc k) w =
        let (late, w₁) = expired w in
        elim late [
          | true ↦ (err scan_timeout, w₁)
          | false ↦ elim (net + suc k =? own) [
            | true ↦ scan iface own net k w₁
            | false ↦
                let (r, w₂) = run host (arp_cmd iface (uint32_to_ip (net + suc k))) w₁ in
                elim r.failed [
                  | false ↦ (ok (uint32_to_ip (net + suc k)), w₂)
                  | true ↦ scan iface own net k w₂
                ]
          ]
        ]

    -- The scan once the interface is known by the answer `r`.
    scan_on : RunResult → (own net k : ℕ) → W → Result KeepalivedError Ip × W
    unfolding scan
    scan_on r own net k w =
        let iface = trim_space r.stdout in
        elim (r.failed || (iface == "")) [
          | true ↦ (err no_scan_interface, w)
          | false ↦ elim (iface == "lo") [
            | true ↦ (err loopback_interface, w)
            | false ↦ scan iface own net k w
          ]
        ]

    -- arping is installed where it is missing, and the interface is that of the route to the highest host.
    prepared_scan : (own net k : ℕ) → W → Result KeepalivedError Ip × W
    unfolding scan_on uint32_to_ip show_ip
    prepared_scan own net k w =
        let (r₀, w₀) = run host install_arping_cmd w in
        let (r₁, w₁) = run host "command -v arping && arping -V 2>&1 | head -1" w₀ in
        let (r₂, w₂) =
          run host
            ("ip route get "
              ^^ (show_ip (uint32_to_ip (net + k))
                  ^^ " 2>/dev/null | grep -oP 'dev \\K\\S+' | head -1"))
            w₁ in
        elim r₁.failed [ true ↦ (err arping_missing, w₁) | false ↦ scan_on r₂ own net k w₂ ]

    unfoldable pub find_unused_vip : Ip → (prefix : ℕ) → W → Result KeepalivedError Ip × W
    unfolding prepared_scan ip_to_uint32
    find_unused_vip v6 prefix w = (err not_ipv4, w)
    find_unused_vip (v4 a b c d) prefix w =
        let own = ip_to_uint32 (v4 a b c d) in
        let size = 2 ^ (32 - prefix) in
        let net = own / size * size in
        elim (leb size 2) [
          | true ↦ (err no_usable_hosts, w)
          | false ↦ prepared_scan own net (size - 2) w
        ]
