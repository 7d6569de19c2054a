-- ===== src/IpDetect/Remote.antt =====
-- internal/ipdetect/ssh.go: the address of a remote node, found by commands on it. `run` is the SSH
-- pool's `Run`.
pub mod Precedence
pub mod Tests
use docker_swarm_cluster_con.Prelude.{
  ℕ, String, Bool, true, false, ◌&&◌, ◌||◌, not, List, [], ◌∷◌, ◌++◌, Option, none, some, ◌==◌,
  if◌then◌else◌, to_lower, trim_space, fields, split_lines, before, trim_dot, show_nat, ◌^^◌,
}
use docker_swarm_cluster_con.Ssh.{RunResult}
use docker_swarm_cluster_con.IpDetect.{
  Ip, v4, v6, IpClass, class_cgnat, class_rfc1918, Subnet, classify_ip, is_in_docker_subnet,
  select_best_ip,
}
use docker_swarm_cluster_con.IpDetect.Networks.{
  Decoders, NetworkInfo, NetbirdStatus, TailscaleStatus, network_ids, all_subnets, scan_networks,
  prefer_overlay,
}

abbrev pub list_networks_cmd : String
list_networks_cmd = "docker network ls --format json 2>/dev/null || true"

abbrev addresses_cmd : String
addresses_cmd = "hostname -I 2>/dev/null || hostname -i 2>/dev/null || echo ''"

abbrev pub cidrs_cmd : String
cidrs_cmd = "ip -4 -o addr show | awk '{print $4}' | grep -v '^127\\.'"

abbrev hostname_cmd : String
hostname_cmd = "hostname -f 2>/dev/null || hostname 2>/dev/null || echo ''"

module _ (d : Decoders) where
  module _ {W : Type 0} (run : String → String → W → RunResult × W) where
    unfoldable pub inspect_networks : String → List String → W → List Subnet × W
    unfolding trim_space all_subnets
    inspect_networks node [] w = ([], w)
    inspect_networks node (id ∷ ids) w =
        let (r, w₁) =
          run node ("docker network inspect " ^^ (id ^^ " --format json 2>/dev/null || true")) w in
        let (rest, w₂) = inspect_networks node ids w₁ in
        (
          if r.failed || (trim_space r.stdout == "")
              then rest
              else (elim (d.inspect r.stdout) [ none ↦ rest | some ns ↦ all_subnets d ns ++ rest ]),
          w₂,
        )

    unfoldable pub get_docker_subnets_ssh : String → W → List Subnet × W
    unfolding trim_space split_lines network_ids inspect_networks
    get_docker_subnets_ssh node w =
        let (r, w₁) = run node list_networks_cmd w in
        elim (r.failed || (trim_space r.stdout == "")) [
          | true ↦ ([], w₁)
          | false ↦ inspect_networks node (network_ids d (split_lines (trim_space r.stdout))) w₁
        ]

    unfoldable pub detect_network_info_ssh : String → W → Option NetworkInfo × W
    unfolding get_docker_subnets_ssh trim_space split_lines scan_networks prefer_overlay
    detect_network_info_ssh node w =
        let (docker, w₁) = get_docker_subnets_ssh node w in
        let (r, w₂) = run node cidrs_cmd w₁ in
        (
          if r.failed
              then none
              else prefer_overlay
                  (scan_networks d docker (split_lines (trim_space r.stdout)) (none, none)),
          w₂,
        )

    -- The addresses of the node, where no overlay gives one.
    unfoldable pub best_own_ip : String → W → String × W
    unfolding get_docker_subnets_ssh trim_space fields select_best_ip
    best_own_ip node w =
        let (docker, w₁) = get_docker_subnets_ssh node w in
        let (r, w₂) = run node addresses_cmd w₁ in
        let best = select_best_ip d.parse_ip (fields (trim_space r.stdout)) docker in
        (if r.failed || (best == "") then node else best, w₂)

    -- Half of an overlay's answer: what it gives, if the command and the decoder succeed.
    unfoldable pub asked : {A : Type 0} → (String → Option A) → RunResult → Option A
    asked decode r = if r.failed then none else decode r.stdout

    netbird_ip_of : Option NetbirdStatus → Option String
    unfolding before
    netbird_ip_of none = none
    netbird_ip_of (some s) = if s.netbird_ip == "" then none else some (before 47 s.netbird_ip)

    tailscale_ip_of : Option TailscaleStatus → Option String
    tailscale_ip_of none = none
    tailscale_ip_of (some s) = elim s.tailscale_ips [ [] ↦ none | ip ∷ ips ↦ some ip ]

    -- An overlay's answer, or the next step.
    unfoldable pub or_else : Option String × W → (W → String × W) → String × W
    or_else (some s, w) next = (s, w)
    or_else (none, w) next = next w

    overlay_ip : String → String → W → Option String × W
    unfolding asked netbird_ip_of tailscale_ip_of
    overlay_ip overlay node w =
        if overlay == "netbird"
        then (let (r, w₁) = run node "netbird status --json" w in
            (netbird_ip_of (asked d.netbird r), w₁))
        else if overlay == "tailscale"
        then (let (r, w₁) = run node "tailscale status --json" w in
            (tailscale_ip_of (asked d.tailscale r), w₁))
        else (none, w)

    unfoldable pub detect_primary_ssh : (node overlay_provider : String) → W → String × W
    unfolding overlay_ip or_else best_own_ip to_lower trim_space
    detect_primary_ssh node overlay_provider w =
        or_else (overlay_ip (to_lower (trim_space overlay_provider)) node w) (best_own_ip node)

    netbird_name_of : Option NetbirdStatus → Option String
    unfolding netbird_ip_of
    netbird_name_of none = none
    netbird_name_of (some s) = if s.fqdn == "" then netbird_ip_of (some s) else some s.fqdn

    tailscale_name_of : Option TailscaleStatus → Option String
    unfolding tailscale_ip_of trim_dot
    tailscale_name_of none = none
    tailscale_name_of (some s) =
        if s.dns_name == "" then tailscale_ip_of (some s) else some (trim_dot s.dns_name)

    overlay_name : String → String → W → Option String × W
    unfolding asked netbird_name_of tailscale_name_of
    overlay_name overlay node w =
        if overlay == "netbird"
        then (let (r, w₁) = run node "netbird status --json" w in
            (netbird_name_of (asked d.netbird r), w₁))
        else if overlay == "tailscale"
        then (let (r, w₁) = run node "tailscale status --json" w in
            (tailscale_name_of (asked d.tailscale r), w₁))
        else (none, w)

    -- The system's name, unless there is none or it is "localhost".
    unfoldable pub own_name : String → W → Option String × W
    unfolding trim_space
    own_name node w =
        let (r, w₁) = run node hostname_cmd w in
        let name = trim_space r.stdout in
        (if r.failed || (name == "") || (name == "localhost") then none else some name, w₁)

    unfoldable pub resolve_node_address_ssh : (node overlay_provider : String) → W → String × W
    unfolding overlay_name own_name or_else detect_primary_ssh to_lower trim_space
    resolve_node_address_ssh node overlay_provider w =
        let overlay = to_lower (trim_space overlay_provider) in
        or_else (overlay_name overlay node w)
          λ w. or_else (own_name node w) (detect_primary_ssh node overlay)
