-- ===== src/IpDetect/Tests.antt =====
-- The selection of addresses at concrete lists.
use docker_swarm_cluster_con.Prelude.{
  String, ◌≡◌, ◌≢◌, refl, true, ◌↔◌, ◌⊎◌, List, [], ◌∷◌, Option, none, some, ok, err, arith, All,
  ◌==◌, if◌then◌else◌,
}
use docker_swarm_cluster_con.IpDetect.{
  Ip, v4, v6, IpClass, Subnet, net4, ip_number, text_class, select_best_ip, primary_class,
  Interface, all_ips, detect_primary, DetectError, is_cgnat, is_rfc1918, subnet_contains,
}
use docker_swarm_cluster_con.IpDetect.Classes.{IsUsable}
use docker_swarm_cluster_con.IpDetect.Best.{Best, select_best_ip-Best, detect_primary-Best}
use docker_swarm_cluster_con.IpDetect.Ranges.{
  cgnat_net, ten_net, sixteen_net, private_net, classify_ip_ranges,
}

abbrev parse : String → Option Ip
parse s =
    if s == "10.0.0.5"
    then some (v4 10 0 0 5)
    else if s == "100.70.0.1"
    then some (v4 100 70 0 1)
    else if s == "8.8.8.8"
    then some (v4 8 8 8 8)
    else if s == "172.17.0.1"
    then some (v4 172 17 0 1)
    else none

abbrev docker : List Subnet
docker = net4 (ip_number 172 17 0 0) 16 ∷ []

abbrev ips : List String
ips = "8.8.8.8" ∷ "172.17.0.1" ∷ "10.0.0.5" ∷ "100.70.0.1" ∷ []

selected : select_best_ip parse ips docker ≡ "100.70.0.1"
unfolding select_best_ip
selected = refl

select_best_ip-Best_example :
    ((select_best_ip parse ips docker ≢ "")
      → (k : IpClass) × Best (text_class parse docker) ips k (select_best_ip parse ips docker))
    × ((select_best_ip parse ips docker ≡ "") → All (λ s. text_class parse docker s ≡ none) ips)
    × ((s : String) (k : IpClass)
        → (text_class parse docker s ≡ some k) ↔ IsUsable parse docker s k)
select_best_ip-Best_example = select_best_ip-Best parse ips docker refl

abbrev interfaces : List Interface
interfaces =
    record { up = true; addrs = some (v4 127 0 0 1 ∷ []) }
    ∷ record { up = true; addrs = some (v6 ∷ v4 192 168 1 2 ∷ []) }
    ∷ []

detect_primary-Best_run :
    ((ip : Ip)
      → detect_primary docker (some interfaces) ≡ ok ip
      → (k : IpClass) × Best (primary_class docker) (all_ips interfaces) k ip)
    × ((e : DetectError)
        → detect_primary docker (some interfaces) ≡ err e
        → All (λ ip. primary_class docker ip ≡ none) (all_ips interfaces))
detect_primary-Best_run = detect_primary-Best docker interfaces

detected : detect_primary docker (some interfaces) ≡ ok (v4 192 168 1 2)
unfolding detect_primary
detected = refl

classify_ip_ranges_run :
    ((is_cgnat (v4 100 70 0 1) ≡ true) ↔ (subnet_contains cgnat_net (v4 100 70 0 1) ≡ true))
    × ((is_rfc1918 (v4 100 70 0 1) ≡ true) ↔ (
        (subnet_contains ten_net (v4 100 70 0 1) ≡ true)
        ⊎ (subnet_contains sixteen_net (v4 100 70 0 1) ≡ true)
        ⊎ (subnet_contains private_net (v4 100 70 0 1) ≡ true)))
classify_ip_ranges_run = classify_ip_ranges 100 70 0 1 (omega arith) (omega arith) (omega arith)
