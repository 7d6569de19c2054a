-- ===== src/IpDetect/Classes.antt =====
-- What the tests of internal/ipdetect/ipdetect.go say of an address: its class by its bytes, and that
-- it lies in none of Docker's networks.
use docker_swarm_cluster_con.Prelude.{
  ℕ, ◌≤◌, ◌=?◌, ◌≡◌, ◌≢◌, refl, String, false, List, [], ◌∷◌, Option, none, some, arith, ◌↔◌, ◌⊎◌,
  inl, inr, All, Bool-cases, ◌==◌, trim_space, show_nat, ◌^^◌, eq_iff,
}
use docker_swarm_cluster_con.IpDetect.{
  Ip, v4, v6, IpClass, class_other, class_loopback, class_rfc1918, class_cgnat, Subnet, classify_ip,
  subnet_contains, is_in_docker_subnet, text_class, skip_loopback, is_loopback,
}
use docker_swarm_cluster_con.IpDetect.Networks.{Decoders, NetworkInfo, line_network, network_cidr}

abbrev pub IsOverlay : (a b : ℕ) → Type 0
IsOverlay a b = (a ≡ 100) × (64 ≤ b) × (b ≤ 127)

abbrev pub IsPrivate : (a b : ℕ) → Type 0
IsPrivate a b = (a ≡ 10) ⊎ ((a ≡ 172) × (16 ≤ b) × (b ≤ 31)) ⊎ ((a ≡ 192) × (b ≡ 168))

-- The networks 127/8, 100.64/10, and 10/8, 172.16/12 and 192.168/16, and everything else.
abbrev pub HasClass : IpClass → (a b : ℕ) → Type 0
HasClass class_loopback a b = a ≡ 127
HasClass class_cgnat a b = IsOverlay a b
HasClass class_rfc1918 a b = IsPrivate a b
HasClass class_other a b = (a ≢ 127) × (¬ IsOverlay a b) × (¬ IsPrivate a b)

network_eq :
    (j k : IpClass) (x y : NetworkInfo)
    → ◌≡◌ {A = Option (IpClass × NetworkInfo)} (some (j, x)) (some (k, y))
    → y ≡ x
network_eq j k x y h = cc

class_cases :
    (k : IpClass)
    → (k ≡ class_loopback) ⊎ (k ≡ class_cgnat) ⊎ (k ≡ class_rfc1918) ⊎ (k ≡ class_other)
class_cases class_loopback = inl refl
class_cases class_cgnat = inr (inl refl)
class_cases class_rfc1918 = inr (inr (inl refl))
class_cases class_other = inr (inr (inr refl))

module _ (a b c d : ℕ) where
  loopback_iff : (classify_ip (v4 a b c d) ≡ class_loopback) ↔ (a ≡ 127)
  unfolding classify_ip
  loopback_iff = (λ h. ground arith, λ h. ground arith)

  classify_ip-IsOverlay : (classify_ip (v4 a b c d) ≡ class_cgnat) ↔ IsOverlay a b
  unfolding classify_ip
  classify_ip-IsOverlay = (λ h. (ground arith, ground arith, ground arith), λ h. ground arith)

  classify_ip-IsPrivate : (classify_ip (v4 a b c d) ≡ class_rfc1918) ↔ IsPrivate a b
  unfolding classify_ip
  classify_ip-IsPrivate = (λ h. ground arith, λ h. ground arith)

  classify_ip_iff : (k : IpClass) → (classify_ip (v4 a b c d) ≡ k) ↔ HasClass k a b
  classify_ip_iff class_loopback = loopback_iff
  classify_ip_iff class_cgnat = classify_ip-IsOverlay
  classify_ip_iff class_rfc1918 = classify_ip-IsPrivate
  classify_ip_iff class_other = (
    λ h. (
      (λ e. cc (h, loopback_iff.1 e)),
      (λ e. cc (h, classify_ip-IsOverlay.1 e)),
      (λ e. cc (h, classify_ip-IsPrivate.1 e)),
    ),
    λ (p, q, r). elim (class_cases (classify_ip (v4 a b c d))) [
      | inl e ↦ absurd (p (loopback_iff.0 e))
      | inr (inl e) ↦ absurd (q (classify_ip-IsOverlay.0 e))
      | inr (inr (inl e)) ↦ absurd (r (classify_ip-IsPrivate.0 e))
      | inr (inr (inr e)) ↦ e
    ],
  )

-- The address lies in none of the networks.
abbrev pub IsOutside : List Subnet → Ip → Type 0
IsOutside docker ip = All (λ n. subnet_contains n ip ≡ false) docker

is_in_docker_subnet-IsOutside :
    (docker : List Subnet) (ip : Ip) → (is_in_docker_subnet ip docker ≡ false) ↔ IsOutside docker ip
unfolding is_in_docker_subnet
is_in_docker_subnet-IsOutside [] ip = (λ h. tt, λ h. refl)
is_in_docker_subnet-IsOutside (n ∷ ns) ip =
    let ih = is_in_docker_subnet-IsOutside ns ip in
    (λ h. (ground arith, ih.0 (ground arith)), λ (a, b). let q = ih.1 b in ground arith)

-- The text is an IPv4 address of the class that is neither a loopback address nor Docker's.
abbrev pub IsUsable : (String → Option Ip) → List Subnet → String → IpClass → Type 0
IsUsable parse_ip docker s k =
    (a : ℕ) × (b : ℕ) × (c : ℕ) × (d : ℕ) × (parse_ip s ≡ some (v4 a b c d))
    × (a ≢ 127)
    × IsOutside docker (v4 a b c d)
    × HasClass k a b

module _ (docker : List Subnet) (a b c d : ℕ) (k : IpClass) where
  skip_iff :
      (parse_ip : String → Option Ip)
      → (skip_loopback parse_ip docker (v4 a b c d) ≡ some k)
        ↔ ((a ≢ 127) × IsOutside docker (v4 a b c d) × HasClass k a b)
  unfolding skip_loopback is_loopback
  skip_iff parse_ip = (
    λ h. elim (Bool-cases (a =? 127)) [
      | inl t ↦ ground arith
      | inr f ↦ elim (Bool-cases (is_in_docker_subnet (v4 a b c d) docker)) [
        | inl t ↦ ground arith
        | inr g ↦ (
          (λ e. ground arith),
          (is_in_docker_subnet-IsOutside docker (v4 a b c d)).0 g,
          (classify_ip_iff a b c d k).0 (ground arith),
        )
      ]
    ],
    λ (p, q, r).
        let f : (a =? 127) ≡ false = ground (arith, p) in
        rw
          (
            f,
            (is_in_docker_subnet-IsOutside docker (v4 a b c d)).1 q,
            (classify_ip_iff a b c d k).1 r,
          )
          refl,
  )

module _ (parse_ip : String → Option Ip) (docker : List Subnet) (s : String) (k : IpClass) where
  class_iff :
      (o : Option Ip)
      → parse_ip s ≡ o
      → (text_class parse_ip docker s ≡ some k) ↔ IsUsable parse_ip docker s k
  unfolding text_class
  class_iff none e = (λ h. ground (arith, e, h), λ (a, b, c, d, q, x, y, z). ground (arith, e, q))
  class_iff (some v6) e =
      (λ h. ground (arith, e, h), λ (a, b, c, d, q, x, y, z). ground (arith, e, q))
  class_iff (some (v4 a b c d)) e = (
    λ h.
        let (p, q, r) = (skip_iff docker a b c d k parse_ip).0 (rw (e, text_class) at h) in
        (a, b, c, d, e, p, q, r),
    λ (a', b', c', d', e', p, q, r).
        rw (e', text_class) ((skip_iff docker a' b' c' d' k parse_ip).1 (p, q, r)),
  )

  pub text_class_iff : (text_class parse_ip docker s ≡ some k) ↔ IsUsable parse_ip docker s k
  text_class_iff = class_iff (parse_ip s) refl

-- The line is an IPv4 address with a prefix, of the class and outside of Docker's networks, and the
-- network is given by the address and its network in CIDR notation.
abbrev pub IsLine : Decoders → List Subnet → String → IpClass → NetworkInfo → Type 0
IsLine d docker line k info =
    (a : ℕ) × (b : ℕ) × (c : ℕ) × (e : ℕ) × (n : Subnet) × (trim_space line ≢ "")
    × (d.parse_cidr (trim_space line) ≡ some (v4 a b c e, n))
    × IsOutside docker (v4 a b c e)
    × HasClass k a b
    × (info ≡ record {
      ip = d.ip_string (v4 a b c e);
      cidr = d.subnet_ip n ^^ ("/" ^^ show_nat (d.mask_ones n));
    })

module _ (d : Decoders) (docker : List Subnet) (line : String) (k : IpClass)
    (info : NetworkInfo) where
  shown : (a b c e : ℕ) → Subnet → NetworkInfo
  shown a b c e n = record {
    ip = d.ip_string (v4 a b c e);
    cidr = d.subnet_ip n ^^ ("/" ^^ show_nat (d.mask_ones n));
  }

  parsed_iff :
      (o : Option (Ip × Subnet))
      → d.parse_cidr (trim_space line) ≡ o
      → (trim_space line == "") ≡ false
      → (line_network d docker line ≡ some (k, info)) ↔ IsLine d docker line k info
  unfolding line_network network_cidr shown
  parsed_iff none q f =
      ((λ h. ground (arith, f, q, h)), (λ (a, b, c, e, n, t, q', x, y, z). ground (arith, q, q')))
  parsed_iff (some (v6, n)) q f =
      ((λ h. ground (arith, f, q, h)), (λ (a, b, c, e, n, t, q', x, y, z). ground (arith, q, q')))
  parsed_iff (some (v4 a b c e, n)) q f = (
    λ h. elim (Bool-cases (is_in_docker_subnet (v4 a b c e) docker)) [
      | inl t ↦ ground (arith, f, q, t, h)
      | inr g ↦
          let same : some (classify_ip (v4 a b c e), shown a b c e n) ≡ some (k, info) =
            rw (f, q, g, line_network) at h in
          (
            a,
            b,
            c,
            e,
            n,
            (λ t. ground (arith, f, t, eq_iff (trim_space line) "")),
            q,
            (is_in_docker_subnet-IsOutside docker (v4 a b c e)).0 g,
            (classify_ip_iff a b c e k).0 (ground (arith, same)),
            network_eq (classify_ip (v4 a b c e)) k (shown a b c e n) info same,
          )
    ],
    λ (a', b', c', e', n', t, q', o, kl, i).
        rw
          (
            f,
            q',
            (is_in_docker_subnet-IsOutside docker (v4 a' b' c' e')).1 o,
            (classify_ip_iff a' b' c' e' k).1 kl,
            i,
            line_network,
          )
          refl,
  )

  pub line_network_iff : (line_network d docker line ≡ some (k, info)) ↔ IsLine d docker line k info
  unfolding line_network
  line_network_iff = elim (Bool-cases (trim_space line == "")) [
    | inr f ↦ parsed_iff (d.parse_cidr (trim_space line)) refl f
    | inl t ↦ (
      (λ h. ground (arith, t, h)),
      (λ (a, b, c, e, n, ne, q, x, y, z). ground (arith, t, ne, eq_iff (trim_space line) "")),
    )
  ]
