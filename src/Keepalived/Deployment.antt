-- ===== src/Keepalived/Deployment.antt =====
-- `PrepareKeepalivedDeployment` of internal/services/keepalived.go and the questions it asks of hosts.
pub mod Prepare
use docker_swarm_cluster_con.Prelude.{
  ℕ, zero, suc, ◌+◌, ◌-◌, ◌*◌, ◌/◌, ◌%◌, ◌^◌, String, Bool, true, false, ◌&&◌, ◌||◌, not, List, [],
  ◌∷◌, Option, none, some, Result, ok, err, ◌==◌, ◌=?◌, leb, if◌then◌else◌, trim_space, split_lines,
  fields, has_prefix, to_upper, ◌^^◌, ℤ, pos, is_zero, is_positive, sub_ℕ, show_int, show_nat, atoi,
}
use docker_swarm_cluster_con.Defaults.{keepalived_base_priority, keepalived_vip_scan_timeout}
use docker_swarm_cluster_con.Config.{Config, NodeConfig}
use docker_swarm_cluster_con.Config.Nodes.{
  is_auto_value, is_keepalived_enabled, get_keepalived_nodes,
}
use docker_swarm_cluster_con.IpDetect.{
  Ip, v4, v6, ip_number, is_rfc1918, Subnet, net4, net6, subnet_contains,
}
use docker_swarm_cluster_con.Ssh.{RunResult}
use docker_swarm_cluster_con.Keepalived.{
  KeepalivedNodeConfig, KeepalivedDeployment, KeepalivedError, list_failed, no_rfc1918_interface,
  details_failed, no_address, bad_cidr, not_ipv4, no_usable_hosts, arping_missing,
  no_scan_interface, loopback_interface, scan_timeout, no_unused_ip, disabled, ip_to_uint32,
  uint32_to_ip, show_ip, configured, resolve_all, router_id_of,
}
use docker_swarm_cluster_con.Keepalived.Arp.{find_unused_vip}

skipped_interface : String → Bool
skipped_interface iface =
    has_prefix iface "docker"
    || has_prefix iface "br-"
    || has_prefix iface "veth"
    || has_prefix iface "wg"

module _ (parse_cidr : String → Option (Ip × ℕ)) where
  rfc1918_cidr : Option (Ip × ℕ) → Bool
  rfc1918_cidr none = false
  rfc1918_cidr (some (ip, ones)) = is_rfc1918 ip

  -- The interface of a line, if it is one to use.
  line_interface : List String → Option String
  unfolding skipped_interface rfc1918_cidr
  line_interface (iface ∷ cidr ∷ more) =
      if not (skipped_interface iface) && rfc1918_cidr (parse_cidr cidr) then some iface else none
  line_interface _ = none

  unfoldable pub first_interface : List String → Option String
  unfolding line_interface
  first_interface [] = none
  first_interface (l ∷ ls) = elim (line_interface (fields l)) [
    | some iface ↦ some iface
    | none ↦ first_interface ls
  ]

unfoldable pub admit :
    Subnet → NodeConfig → Result KeepalivedError (Ip × ℕ) → List NodeConfig → List NodeConfig
admit reference n (err e) rest = rest
admit reference n (ok (ip, ones)) rest =
    if is_rfc1918 ip && subnet_contains reference ip then n ∷ rest else rest

module _ {W : Type 0} (run : String → String → W → RunResult × W) where
  module _ (parse_cidr : String → Option (Ip × ℕ)) where
    detect_rfc1918_interface : String → W → Result KeepalivedError String × W
    unfolding first_interface
    detect_rfc1918_interface host w =
        let (r, w₁) = run host "ip -o -4 addr show | awk '{print $2, $4}' | grep -v '^lo '" w in
        let found : Result KeepalivedError String =
          elim (first_interface parse_cidr (split_lines (trim_space r.stdout))) [
            | none ↦ err no_rfc1918_interface
            | some iface ↦ ok iface
          ] in
        (if r.failed then err list_failed else found, w₁)

    unfoldable pub get_interface_details :
        (host iface : String) → W → Result KeepalivedError (Ip × ℕ) × W
    get_interface_details host iface w =
        let (r, w₁) = run host ("ip -o -4 addr show " ^^ (iface ^^ " | awk '{print $4}'")) w in
        let cidr = trim_space r.stdout in
        let parsed : Result KeepalivedError (Ip × ℕ) = elim (parse_cidr cidr) [
          | none ↦ err bad_cidr
          | some d ↦ ok d
        ] in
        (if r.failed then err details_failed else if cidr == "" then err no_address else parsed, w₁)

    -- The nodes with a private address of the reference network on the interface.
    pub eligible_nodes : (iface : String) → Subnet → List NodeConfig → W → List NodeConfig × W
    unfolding get_interface_details admit
    eligible_nodes iface reference [] w = ([], w)
    eligible_nodes iface reference (n ∷ ns) w =
        let (r, w₁) = get_interface_details n.ssh_fqdn_or_ip iface w in
        let (rest, w₂) = eligible_nodes iface reference ns w₁ in (admit reference n r rest, w₂)

  module _ (parse_ip : String → Option Ip) (parse_cidr : String → Option (Ip × ℕ)) where
    pub subnet_of : Ip × ℕ → Subnet
    unfolding ip_to_uint32
    subnet_of (v4 a b c d, ones) = net4 (ip_to_uint32 (v4 a b c d)) ones
    subnet_of (v6, ones) = net6

    module _ (expired : ℤ → W → Bool × W) (random : W → String × W) (c : Config) where
      abbrev scan_timeout_of : ℤ
      scan_timeout_of =
          let t = c.global_settings.keepalived.vip_scan_timeout in
          if is_positive t then t else keepalived_vip_scan_timeout

      choose_vip : (host : String) → Ip × ℕ → W → Result KeepalivedError String × W
      unfolding configured find_unused_vip show_ip
      choose_vip host (ip, ones) w =
          let vip = c.global_settings.keepalived.vip in
          elim (configured vip) [
            | true ↦ (ok vip, w)
            | false ↦
                let (r, w₁) = find_unused_vip run (expired scan_timeout_of) host ip ones w in
                elim r [ err e ↦ (err e, w₁) | ok found ↦ (ok (show_ip found), w₁) ]
          ]

      choose_password : W → String × W
      unfolding configured
      choose_password w =
          let pass = c.global_settings.keepalived.auth_pass in
          elim (configured pass) [ true ↦ (pass, w) | false ↦ random w ]

      choose_interface : String → W → Result KeepalivedError String × W
      unfolding configured detect_rfc1918_interface
      choose_interface host w =
          let iface = c.global_settings.keepalived.interface in
          elim (configured iface) [
            | true ↦ (ok iface, w)
            | false ↦ detect_rfc1918_interface parse_cidr host w
          ]

      -- Once the nodes that take part are known, and there is one.
      pub deploy_on :
          (iface host : String)
          → Ip × ℕ
          → List NodeConfig
          → W
          → Result KeepalivedError KeepalivedDeployment × W
      unfolding choose_vip choose_password resolve_all router_id_of
      deploy_on iface host details nodes w =
          let (r, w₁) = choose_vip host details w in
          elim r [
            | err e ↦ (err e, w₁)
            | ok vip ↦
                let (pass, w₂) = choose_password w₁ in
                let vip_cidr = vip ^^ ("/" ^^ show_nat details.1) in
                (
                  ok (record {
                    enabled = true;
                    vip = vip;
                    vip_cidr = vip_cidr;
                    interface = iface;
                    router_id = router_id_of parse_ip c.global_settings.keepalived.router_id vip;
                    auth_pass = pass;
                    nodes = resolve_all nodes 0 iface vip_cidr;
                  }),
                  w₂,
                )
          ]

      deploy_eligible :
          (iface host : String)
          → Ip × ℕ
          → List NodeConfig × W
          → Result KeepalivedError KeepalivedDeployment × W
      unfolding deploy_on
      deploy_eligible iface host details ([], w) = (ok disabled, w)
      deploy_eligible iface host details (n ∷ ns, w) = deploy_on iface host details (n ∷ ns) w

      -- The nodes with Keepalived, of which the first gives the reference network.
      prepare_nodes : List NodeConfig → W → Result KeepalivedError KeepalivedDeployment × W
      unfolding choose_interface get_interface_details subnet_of eligible_nodes deploy_eligible
      prepare_nodes [] w = (ok disabled, w)
      prepare_nodes (first ∷ more) w =
          let host = first.ssh_fqdn_or_ip in
          let (r, w₁) = choose_interface host w in
          elim r [
            | err e ↦ (err e, w₁)
            | ok iface ↦
                let (r, w₂) = get_interface_details parse_cidr host iface w₁ in
                elim r [
                  | err e ↦ (err e, w₂)
                  | ok details ↦
                      deploy_eligible iface host details
                        (eligible_nodes parse_cidr iface (subnet_of details) (first ∷ more) w₂)
                ]
          ]

      unfoldable pub prepare_keepalived_deployment :
          W → Result KeepalivedError KeepalivedDeployment × W
      unfolding prepare_nodes
      prepare_keepalived_deployment w = elim (is_keepalived_enabled c) [
        | false ↦ (ok disabled, w)
        | true ↦ prepare_nodes (get_keepalived_nodes c) w
      ]
