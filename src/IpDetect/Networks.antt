-- ===== src/IpDetect/Networks.antt =====
-- The networks of a remote node in internal/ipdetect/ssh.go: what the output of its commands says.
-- What the code takes out of JSON is a parameter, a decoder that fails where `json.Unmarshal` does.
-- `NetworkCIDR` is of internal/ipdetect/ipdetect.go.
use docker_swarm_cluster_con.Prelude.{
  ℕ, String, List, [], ◌∷◌, ◌++◌, Option, none, some, ◌==◌, if◌then◌else◌, trim_space, show_nat,
  ◌^^◌,
}
use docker_swarm_cluster_con.IpDetect.{
  Ip, v4, v6, IpClass, class_cgnat, class_rfc1918, Subnet, classify_ip, is_in_docker_subnet,
}

pub record NetworkInfo : Type 0 where
  pub ip : String
  pub cidr : String

pub record NetbirdStatus : Type 0 where
  pub fqdn : String
  pub netbird_ip : String

pub record TailscaleStatus : Type 0 where
  pub dns_name : String
  pub tailscale_ips : List String

-- Packages `net` and `encoding/json`. `inspect` gives the subnets of each network.
pub record Decoders : Type 0 where
  pub parse_ip : String → Option Ip
  pub parse_cidr : String → Option (Ip × Subnet)
  pub ip_string : Ip → String
  pub subnet_ip : Subnet → String
  pub mask_ones : Subnet → ℕ
  pub network_id : String → Option String
  pub inspect : String → Option (List (List String))
  pub netbird : String → Option NetbirdStatus
  pub tailscale : String → Option TailscaleStatus

-- What the loop over the lines has found: the last overlay address and the first private one.
abbrev pub FoundNetworks : Type 0
FoundNetworks = Option NetworkInfo × Option NetworkInfo

unfoldable pub file_network : FoundNetworks → Option (IpClass × NetworkInfo) → FoundNetworks
file_network (cgnat, private) (some (class_cgnat, info)) = (some info, private)
file_network (cgnat, none) (some (class_rfc1918, info)) = (cgnat, some info)
file_network found other = found

unfoldable pub prefer_overlay : FoundNetworks → Option NetworkInfo
prefer_overlay (some info, private) = some info
prefer_overlay (none, private) = private

module _ (d : Decoders) where
  unfoldable pub network_cidr : Option Subnet → String
  unfolding show_nat
  network_cidr none = ""
  network_cidr (some n) = d.subnet_ip n ^^ ("/" ^^ show_nat (d.mask_ones n))

  -- The IDs of the lines of `docker network ls`.
  unfoldable pub network_ids : List String → List String
  unfolding trim_space
  network_ids [] = []
  network_ids (l ∷ ls) =
      let rest = network_ids ls in
      let line = trim_space l in
      if line == ""
      then rest
      else elim (d.network_id line) [ none ↦ rest | some id ↦ if id == "" then rest else id ∷ rest ]

  unfoldable pub subnets_of : List String → List Subnet
  subnets_of [] = []
  subnets_of (t ∷ ts) =
      let rest = subnets_of ts in
      if t == "" then rest else elim (d.parse_cidr t) [ none ↦ rest | some (ip, n) ↦ n ∷ rest ]

  unfoldable pub all_subnets : List (List String) → List Subnet
  unfolding subnets_of
  all_subnets [] = []
  all_subnets (n ∷ ns) = subnets_of n ++ all_subnets ns

  -- The class of a line's address, where the address is an IPv4 one outside of Docker's networks.
  unfoldable pub line_network : List Subnet → String → Option (IpClass × NetworkInfo)
  unfolding trim_space is_in_docker_subnet classify_ip network_cidr
  line_network docker line =
      let host_cidr = trim_space line in
      if host_cidr == "" then none else elim (d.parse_cidr host_cidr) [
        | none ↦ none
        | some (v6, n) ↦ none
        | some (v4 a b c e, n) ↦
            let ip = v4 a b c e in
            if is_in_docker_subnet ip docker
            then none
            else some (classify_ip ip, record { ip = d.ip_string ip; cidr = network_cidr (some n) })
      ]

  unfoldable pub scan_networks : List Subnet → List String → FoundNetworks → FoundNetworks
  unfolding line_network file_network
  scan_networks docker [] found = found
  scan_networks docker (l ∷ ls) found =
      scan_networks docker ls (file_network found (line_network docker l))
