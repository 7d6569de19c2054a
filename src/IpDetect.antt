-- ===== src/IpDetect.antt =====
-- internal/ipdetect/ipdetect.go: which address of a node the cluster uses. An address is four bytes,
-- or an IPv6 address that no code here looks into. `net.ParseIP` is the parameter `parse_ip`.
pub mod Best
pub mod Classes
pub mod Samples
pub mod Ranges
pub mod Networks
pub mod Remote
pub mod Tests
use docker_swarm_cluster_con.Prelude.{
  ℕ, ◌+◌, ◌-◌, ◌*◌, ◌/◌, ◌^◌, String, Bool, true, false, ◌&&◌, ◌||◌, not, List, [], ◌∷◌, ◌++◌,
  Option, none, some, Result, ok, err, leb, ◌=?◌, if◌then◌else◌,
}

pub data Ip : Type 0 where
  v4 : ℕ → ℕ → ℕ → ℕ → Ip
  v6 : Ip

pub data IpClass : Type 0 where
  class_other class_loopback class_rfc1918 class_cgnat : IpClass

unfoldable pub is_loopback : Ip → Bool
is_loopback (v4 a b c d) = a =? 127
is_loopback v6 = false

unfoldable pub classify_ip : Ip → IpClass
unfolding is_loopback
classify_ip v6 = class_other
classify_ip (v4 a b c d) =
    if is_loopback (v4 a b c d)
    then class_loopback
    else if (a =? 100) && leb 64 b && leb b 127
    then class_cgnat
    else if a =? 10
    then class_rfc1918
    else if (a =? 172) && leb 16 b && leb b 31
    then class_rfc1918
    else if (a =? 192) && (b =? 168)
    then class_rfc1918
    else class_other

unfoldable pub is_cgnat : Ip → Bool
unfolding classify_ip
is_cgnat ip = elim (classify_ip ip) [ class_cgnat ↦ true | _ ↦ false ]

unfoldable pub is_rfc1918 : Ip → Bool
unfolding classify_ip
is_rfc1918 ip = elim (classify_ip ip) [ class_rfc1918 ↦ true | _ ↦ false ]

-- The number that an IPv4 address stands for.
abbrev pub ip_number : ℕ → ℕ → ℕ → ℕ → ℕ
ip_number a b c d = ((a * 256 + b) * 256 + c) * 256 + d

-- An IPv4 network, by any of its addresses and its prefix length, or an IPv6 network.
pub data Subnet : Type 0 where
  net4 : (base ones : ℕ) → Subnet
  net6 : Subnet

-- `IPNet.Contains`: the addresses agree in the bits of the mask.
unfoldable pub subnet_contains : Subnet → Ip → Bool
subnet_contains net6 (v4 a b c d) = false
subnet_contains net6 v6 = false
subnet_contains (net4 base ones) v6 = false
subnet_contains (net4 base ones) (v4 a b c d) =
    (ip_number a b c d / 2 ^ (32 - ones)) =? (base / 2 ^ (32 - ones))

unfoldable pub is_in_docker_subnet : Ip → List Subnet → Bool
unfolding subnet_contains
is_in_docker_subnet ip [] = false
is_in_docker_subnet ip (n ∷ ns) = subnet_contains n ip || is_in_docker_subnet ip ns

-- The lists that both selections fill in their loop.
pub record Buckets {ℓ} (A : Type ℓ) : Type ℓ where
  pub cgnat : List A
  pub rfc1918 : List A
  pub other : List A
  pub loopback : List A

module _ {ℓ} {A : Type ℓ} where
  abbrev pub no_buckets : Buckets A
  no_buckets = record { cgnat = []; rfc1918 = []; other = []; loopback = [] }

  pub put : IpClass → A → Buckets A → Buckets A
  put class_cgnat x b = record b { cgnat = x ∷ b.cgnat }
  put class_rfc1918 x b = record b { rfc1918 = x ∷ b.rfc1918 }
  put class_loopback x b = record b { loopback = x ∷ b.loopback }
  put class_other x b = record b { other = x ∷ b.other }

  -- The loop, where `class` says what is skipped and into which list the rest goes.
  unfoldable pub fill : (A → Option IpClass) → List A → Buckets A
  unfolding put
  fill class [] = no_buckets
  fill class (x ∷ xs) =
      let rest = fill class xs in elim (class x) [ none ↦ rest | some k ↦ put k x rest ]

  -- The first of the first list that is not empty.
  unfoldable pub pick : Buckets A → Option A
  pick b = elim b.cgnat [
    | x ∷ _ ↦ some x
    | [] ↦ elim b.rfc1918 [
      | x ∷ _ ↦ some x
      | [] ↦ elim b.other [ x ∷ _ ↦ some x | [] ↦ elim b.loopback [ x ∷ _ ↦ some x | [] ↦ none ] ]
    ]
  ]

-- How `detectPrimaryWithExclusions` files an address: loopback before Docker's networks.
unfoldable pub primary_class : List Subnet → Ip → Option IpClass
unfolding is_loopback is_in_docker_subnet classify_ip
primary_class docker v6 = none
primary_class docker (v4 a b c d) =
    let ip = v4 a b c d in
    if is_loopback ip
    then some class_loopback
    else if is_in_docker_subnet ip docker
    then none
    else some (classify_ip ip)

-- A network interface: whether it is up, and its addresses unless they cannot be had. An address
-- that is no IP address is left out.
pub record Interface : Type 0 where
  pub up : Bool
  pub addrs : Option (List Ip)

interface_ips : Interface → List Ip
interface_ips i = if i.up then (elim i.addrs [ none ↦ [] | some ips ↦ ips ]) else []

pub all_ips : List Interface → List Ip
unfolding interface_ips
all_ips [] = []
all_ips (i ∷ is) = interface_ips i ++ all_ips is

pub data DetectError : Type 0 where
  no_interfaces no_ipv4_address : DetectError

pub or_no_address : Option Ip → Result DetectError Ip
or_no_address none = err no_ipv4_address
or_no_address (some ip) = ok ip

-- `net.Interfaces` gave the interfaces, or an error.
unfoldable pub detect_primary : List Subnet → Option (List Interface) → Result DetectError Ip
unfolding all_ips primary_class fill pick or_no_address
detect_primary docker none = err no_interfaces
detect_primary docker (some is) = or_no_address (pick (fill (primary_class docker) (all_ips is)))

module _ (parse_ip : String → Option Ip) where
  skip_loopback : List Subnet → Ip → Option IpClass
  skip_loopback docker v6 = none
  skip_loopback docker (v4 a b c d) =
      let ip = v4 a b c d in
      if is_loopback ip
      then none
      else if is_in_docker_subnet ip docker
      then none
      else some (classify_ip ip)

  -- How `SelectBestIP` files a text: loopback addresses and what is no IPv4 address are skipped.
  unfoldable pub text_class : List Subnet → String → Option IpClass
  unfolding skip_loopback is_loopback is_in_docker_subnet classify_ip
  text_class docker s = elim (parse_ip s) [ none ↦ none | some ip ↦ skip_loopback docker ip ]

  unfoldable pub select_best_ip : List String → List Subnet → String
  unfolding text_class fill pick
  select_best_ip ips docker = elim (pick (fill (text_class docker) ips)) [ none ↦ "" | some s ↦ s ]
