-- ===== src/IpDetect/Ranges.antt =====
-- The byte tests of `ClassifyIP` against the networks that internal/ipdetect/ipdetect.go names.
use docker_swarm_cluster_con.Prelude.{ℕ, ◌≤◌, ◌<◌, ◌≡◌, true, arith, ◌↔◌, ◌⊎◌, inl, inr}
use docker_swarm_cluster_con.IpDetect.{
  Ip, v4, Subnet, net4, subnet_contains, ip_number, is_cgnat, is_rfc1918,
}

-- 100.64.0.0/10, 10.0.0.0/8, 172.16.0.0/12 and 192.168.0.0/16
abbrev pub cgnat_net : Subnet
cgnat_net = net4 (ip_number 100 64 0 0) 10

abbrev pub ten_net : Subnet
ten_net = net4 (ip_number 10 0 0 0) 8

abbrev pub sixteen_net : Subnet
sixteen_net = net4 (ip_number 172 16 0 0) 12

abbrev pub private_net : Subnet
private_net = net4 (ip_number 192 168 0 0) 16

module _ (a b c d : ℕ) (hb : b < 256) (hc : c < 256) (hd : d < 256) where
  in_cgnat : (subnet_contains cgnat_net (v4 a b c d) ≡ true) ↔ ((a ≡ 100) × (64 ≤ b) × (b ≤ 127))
  unfolding subnet_contains
  in_cgnat = (λ h. (ground arith, ground arith, ground arith), λ h. ground arith)

  in_ten : (subnet_contains ten_net (v4 a b c d) ≡ true) ↔ (a ≡ 10)
  unfolding subnet_contains
  in_ten = (λ h. ground arith, λ h. ground arith)

  in_sixteen : (subnet_contains sixteen_net (v4 a b c d) ≡ true) ↔ ((a ≡ 172) × (16 ≤ b) × (b ≤ 31))
  unfolding subnet_contains
  in_sixteen = (λ h. (ground arith, ground arith, ground arith), λ h. ground arith)

  in_private : (subnet_contains private_net (v4 a b c d) ≡ true) ↔ ((a ≡ 192) × (b ≡ 168))
  unfolding subnet_contains
  in_private = (λ h. (ground arith, ground arith), λ h. ground arith)

  abbrev address : Ip
  address = v4 a b c d

  -- An IPv4 address is classified as an overlay address exactly if it lies in 100.64.0.0/10, and as
  -- a private one exactly if it lies in 10.0.0.0/8, 172.16.0.0/12 or 192.168.0.0/16.
  pub classify_ip_ranges :
      ((is_cgnat (v4 a b c d) ≡ true) ↔ (subnet_contains cgnat_net (v4 a b c d) ≡ true))
      × ((is_rfc1918 (v4 a b c d) ≡ true) ↔ (
          (subnet_contains ten_net (v4 a b c d) ≡ true)
          ⊎ (subnet_contains sixteen_net (v4 a b c d) ≡ true)
          ⊎ (subnet_contains private_net (v4 a b c d) ≡ true)))
  unfolding is_cgnat is_rfc1918
  classify_ip_ranges = (
    (
      λ h. in_cgnat.1 (ground arith, ground arith, ground arith),
      λ h. let p = in_cgnat.0 h in ground (arith, p),
    ),
    (
      λ h.
          let bytes : (a ≡ 10) ⊎ ((a ≡ 172) × (16 ≤ b) × (b ≤ 31)) ⊎ ((a ≡ 192) × (b ≡ 168)) =
            ground arith in
          elim bytes [
            | inl p ↦ inl (in_ten.1 p)
            | inr (inl p) ↦ inr (inl (in_sixteen.1 p))
            | inr (inr p) ↦ inr (inr (in_private.1 p))
          ],
      elim [
        | inl h ↦ let p = in_ten.0 h in ground (arith, p)
        | inr (inl h) ↦ let p = in_sixteen.0 h in ground (arith, p)
        | inr (inr h) ↦ let p = in_private.0 h in ground (arith, p)
      ],
    ),
  )
