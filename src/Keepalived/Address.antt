-- ===== src/Keepalived/Address.antt =====
-- The conversions of internal/services/keepalived.go between addresses and numbers.
use docker_swarm_cluster_con.Prelude.{ℕ, ◌+◌, ◌*◌, ◌<◌, ◌/◌, ◌%◌, ◌≡◌, refl, arith}
use docker_swarm_cluster_con.IpDetect.{v4}
use docker_swarm_cluster_con.Keepalived.{ip_to_uint32, uint32_to_ip}

-- An address of four bytes comes back from its number, and a number of 32 bits from its address.
pub uint32_round_trip :
    ((a b c d : ℕ)
      → a < 256
      → b < 256
      → c < 256
      → d < 256
      → uint32_to_ip (ip_to_uint32 (v4 a b c d)) ≡ v4 a b c d)
    × ((n : ℕ) → n < 4294967296 → ip_to_uint32 (uint32_to_ip n) ≡ n)
unfolding ip_to_uint32 uint32_to_ip
uint32_round_trip = (
  λ a b c d ha hb hc hd.
      let m : ℕ = a * 16777216 + b * 65536 + c * 256 + d in
      let ea : m / 16777216 % 256 ≡ a = omega arith in
      let eb : m / 65536 % 256 ≡ b = omega arith in
      let ec : m / 256 % 256 ≡ c = omega arith in
      let ed : m % 256 ≡ d = omega arith in rw (ea, eb, ec, ed) refl,
  λ n h. omega arith,
)
