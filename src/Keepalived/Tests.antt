-- ===== src/Keepalived/Tests.antt =====
-- Keepalived's theorems on a simulated host, and runs.
use docker_swarm_cluster_con.Prelude.{
  ℕ, ◌+◌, ◌≡◌, refl, arith, String, Bool, true, false, List, [], ◌∷◌, Option, none, some, ok, ◌==◌,
  if◌then◌else◌, pos, sub_ℕ, get_elem?, ◌=?◌, contains, trim_space, show_nat, fields, split_lines,
  has_prefix,
}
use docker_swarm_cluster_con.Config.{Config, NodeConfig}
use docker_swarm_cluster_con.Config.Samples.{m1, w1, settings}
use docker_swarm_cluster_con.Config.Nodes.{
  is_auto_value, is_keepalived_enabled, get_keepalived_nodes,
}
use docker_swarm_cluster_con.IpDetect.{Ip, v4, is_rfc1918, subnet_contains}
use docker_swarm_cluster_con.Ssh.{RunResult}
use docker_swarm_cluster_con.Keepalived.{
  KeepalivedNodeConfig, KeepalivedDeployment, uint32_to_ip, resolve_all, configured,
}
use docker_swarm_cluster_con.Keepalived.Arp.{arp_cmd, scan, find_unused_vip}
use docker_swarm_cluster_con.Keepalived.Deployment.{prepare_keepalived_deployment}
use docker_swarm_cluster_con.Keepalived.Arp.Scan.{Found, scan-Found, scan-finds}
use docker_swarm_cluster_con.Keepalived.Resolve.{resolve_all-auto}
use docker_swarm_cluster_con.Keepalived.Deployment.Prepare.{IsDeployed, prepare-Deployed}

abbrev answers : String → RunResult
answers out = record { stdout = out; stderr = ""; failed = false }

-- The interface "eth0" has 10.0.0.2/24, and 10.0.0.254 is in use.
abbrev lan : String → String → Unit {0} → RunResult × Unit {0}
lan host cmd w =
    if cmd == arp_cmd "eth0" (v4 10 0 0 254)
    then (record { stdout = ""; stderr = ""; failed = true }, w)
    else if contains cmd "addr show"
    then (answers "10.0.0.2/24\n", w)
    else (answers "eth0\n", w)

abbrev in_time : Unit {0} → Bool × Unit {0}
in_time w = (false, w)

vip_run : find_unused_vip lan in_time "m1" (v4 10 0 0 2) 24 tt ≡ (ok (v4 10 0 0 253), tt)
unfolding find_unused_vip trim_space show_nat arp_cmd contains
vip_run = refl

scan_run : scan lan in_time "m1" "eth0" 167772162 167772160 254 tt ≡ (ok (v4 10 0 0 253), tt)
unfolding scan show_nat contains
scan_run = refl

scan-Found_example : Found lan in_time "m1" "eth0" 167772162 167772160 254 (v4 10 0 0 253)
scan-Found_example =
    scan-Found lan in_time "m1" "eth0" 167772162 167772160 254 tt tt (v4 10 0 0 253) scan_run

free_253 : (lan "m1" (arp_cmd "eth0" (uint32_to_ip (167772160 + 253))) tt).0.failed ≡ false
unfolding show_nat uint32_to_ip contains arp_cmd
free_253 = refl

scan-finds_example :
    (ip : Ip) × (w : Unit {0}) × (scan lan in_time "m1" "eth0" 167772162 167772160 254 tt
      ≡ (ok ip, w))
scan-finds_example =
    scan-finds lan in_time "m1" "eth0" 167772162 167772160 254 253 tt (omega arith) (omega arith)
      (λ q. omega arith) (λ v. refl) (λ v. free_253)

abbrev ka_nodes : List NodeConfig
ka_nodes =
    record m1 { keepalived = record { enabled = true; priority = "auto"; state = "" } }
    ∷ record w1 { keepalived = record { enabled = true; priority = ""; state = "Automatic" } }
    ∷ []

resolve_all-auto_example :
    (c : KeepalivedNodeConfig) × (get_elem? (resolve_all ka_nodes 0 "eth0" "10.0.0.253/24") 1
      ≡ some c)
    × (c.hostname ≡ "w1")
    × (c.priority ≡ sub_ℕ 100 1)
    × (c.state ≡ (if 1 =? 0 then "MASTER" else "BACKUP"))
unfolding is_auto_value configured
resolve_all-auto_example =
    resolve_all-auto ka_nodes 1 "eth0" "10.0.0.253/24"
      (record w1 { keepalived = record { enabled = true; priority = ""; state = "Automatic" } })
      refl (refl, refl)

abbrev ka_cluster : Config
ka_cluster = record {
  global_settings = record settings {
    keepalived = record {
      enabled = true;
      vip = "10.0.0.250";
      interface = "auto";
      router_id = "";
      auth_pass = "";
      vip_scan_timeout = pos 0;
    };
  };
  nodes = ka_nodes;
}

abbrev parse_ip : String → Option Ip
parse_ip t = if t == "10.0.0.250" then some (v4 10 0 0 250) else none

abbrev parse_cidr : String → Option (Ip × ℕ)
parse_cidr t = if t == "10.0.0.2/24" then some (v4 10 0 0 2, 24) else none

abbrev ka_deployment : KeepalivedDeployment
ka_deployment = record {
  enabled = true;
  vip = "10.0.0.250";
  vip_cidr = "10.0.0.250/24";
  interface = "eth0";
  router_id = pos 250;
  auth_pass = "0a1b2c3d";
  nodes =
      record {
        hostname = "m1";
        priority = pos 100;
        state = "MASTER";
        interface = "eth0";
        vip = "10.0.0.250/24";
      }
      ∷ record {
        hostname = "w1";
        priority = pos 99;
        state = "BACKUP";
        interface = "eth0";
        vip = "10.0.0.250/24";
      }
      ∷ [];
}

-- lists the interfaces, of which docker0 is skipped
abbrev lan_hosts : String → String → Unit {0} → RunResult × Unit {0}
lan_hosts host cmd w =
    if contains cmd "grep -v"
    then (answers "docker0 10.0.0.2/24\neth0 10.0.0.2/24\n", w)
    else lan host cmd w

ka_run :
    prepare_keepalived_deployment lan_hosts parse_ip parse_cidr
      (λ t. in_time)
      (λ w. ("0a1b2c3d", w))
      ka_cluster
      tt
    ≡ (ok ka_deployment, tt)
unfolding prepare_keepalived_deployment trim_space show_nat contains is_auto_value split_lines
    fields has_prefix is_keepalived_enabled get_keepalived_nodes is_rfc1918 subnet_contains
ka_run = refl

prepare-Deployed_example :
    IsDeployed lan_hosts parse_cidr parse_ip
      (λ t. in_time)
      (λ w. ("0a1b2c3d", w))
      ka_cluster
      (get_keepalived_nodes ka_cluster)
      ka_deployment
prepare-Deployed_example =
    prepare-Deployed lan_hosts parse_cidr parse_ip (λ t. in_time) (λ w. ("0a1b2c3d", w)) ka_cluster
      tt tt ka_deployment ka_run refl
