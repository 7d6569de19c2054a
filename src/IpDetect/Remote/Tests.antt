-- ===== src/IpDetect/Remote/Tests.antt =====
-- Runs of internal/ipdetect/ssh.go on a node with two overlay networks and one private network.
use docker_swarm_cluster_con.Prelude.{
  ℕ, ◌≡◌, ◌↔◌, List, refl, String, false, [], ◌∷◌, Option, none, some, ◌==◌, ◌=?◌, if◌then◌else◌,
  split_lines, trim_space,
}
use docker_swarm_cluster_con.Ssh.{RunResult}
use docker_swarm_cluster_con.IpDetect.Classes.{IsLine}
use docker_swarm_cluster_con.IpDetect.{IpClass, Ip, v4, v6, Subnet, net4, ip_number}
use docker_swarm_cluster_con.IpDetect.Networks.{Decoders, NetworkInfo, line_network}
use docker_swarm_cluster_con.IpDetect.Remote.{
  cidrs_cmd, get_docker_subnets_ssh, detect_network_info_ssh, resolve_node_address_ssh,
  detect_primary_ssh,
}
use docker_swarm_cluster_con.IpDetect.Remote.Precedence.{
  earlier, last_overlay, first_private, detect_network_info_precedence,
}

abbrev parse_cidr : String → Option (Ip × Subnet)
parse_cidr s =
    if s == "100.64.0.1/16"
    then some (v4 100 64 0 1, net4 (ip_number 100 64 0 0) 16)
    else if s == "100.65.0.1/16"
    then some (v4 100 65 0 1, net4 (ip_number 100 65 0 0) 16)
    else if s == "10.0.0.5/24"
    then some (v4 10 0 0 5, net4 (ip_number 10 0 0 0) 24)
    else none

abbrev ip_string : Ip → String
ip_string (v4 a b c d) =
    if b =? 64 then "100.64.0.1" else if b =? 65 then "100.65.0.1" else "10.0.0.5"
ip_string v6 = "::1"

abbrev decoders : Decoders
decoders = record {
  parse_ip = λ s.
      if s == "100.64.0.1"
      then some (v4 100 64 0 1)
      else if s == "100.65.0.1"
      then some (v4 100 65 0 1)
      else some (v4 10 0 0 5);
  parse_cidr = parse_cidr;
  ip_string = ip_string;
  subnet_ip = λ n. "10.0.0.0";
  mask_ones = λ n. 24;
  network_id = λ s. none;
  inspect = λ s. none;
  netbird = λ s. none;
  tailscale = λ s. some (record { dns_name = "n1.ts.net."; tailscale_ips = [] });
}

abbrev answer : String → RunResult
answer out = record { stdout = out; stderr = ""; failed = false }

abbrev run : String → String → ℕ → RunResult × ℕ
run host cmd w =
    if cmd == cidrs_cmd
    then (answer "10.0.0.5/24\n100.64.0.1/16\n 100.65.0.1/16\n", w)
    else if cmd == "tailscale status --json"
    then (answer "{}", w)
    else (answer "10.0.0.5 100.64.0.1 100.65.0.1", w)

last_overlay_run :
    (detect_network_info_ssh decoders run "n1" 0).0
    ≡ some (record { ip = "100.65.0.1"; cidr = "10.0.0.0/24" })
unfolding detect_network_info_ssh
last_overlay_run = refl

-- The other selection of the package takes the first overlay address of the same node.
first_overlay_run : (detect_primary_ssh decoders run "n1" "none" 0).0 ≡ "100.64.0.1"
unfolding detect_primary_ssh
first_overlay_run = refl

name_run : (resolve_node_address_ssh decoders run "n1" " Tailscale" 0).0 ≡ "n1.ts.net"
unfolding resolve_node_address_ssh
name_run = refl

detect_network_info_precedence_example :
    (detect_network_info_ssh decoders run "n1" 0 ≡ (
      earlier
          (last_overlay decoders [] ("10.0.0.5/24" ∷ ("100.64.0.1/16" ∷ (" 100.65.0.1/16" ∷ []))))
          (first_private decoders [] ("10.0.0.5/24" ∷ ("100.64.0.1/16" ∷ (" 100.65.0.1/16" ∷ [])))),
      0,
    ))
    × ((docker : List Subnet) (line : String) (k : IpClass) (info : NetworkInfo)
        → (line_network decoders docker line ≡ some (k, info)) ↔ IsLine decoders docker line k info)
unfolding get_docker_subnets_ssh split_lines trim_space
detect_network_info_precedence_example = detect_network_info_precedence decoders run "n1" 0
