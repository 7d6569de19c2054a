-- ===== src/Keepalived/Arp/Scan.antt =====
-- The scan of internal/services/keepalived.go for an unused address.
use docker_swarm_cluster_con.Prelude.{
  ℕ, zero, suc, ◌+◌, ◌≤◌, ◌<◌, ◌≡◌, ◌≢◌, ◌⊎◌, inl, inr, ◌∙◌, subst, arith, String, Bool, true,
  false, Result, ok, Bool-cases, ◌=?◌,
}
use docker_swarm_cluster_con.IpDetect.{Ip}
use docker_swarm_cluster_con.Ssh.{RunResult}
use docker_swarm_cluster_con.Keepalived.{KeepalivedError, uint32_to_ip}
use docker_swarm_cluster_con.Keepalived.Arp.{arp_cmd, scan}

module _ {W : Type 0} (run : String → String → W → RunResult × W) (expired : W → Bool × W)
    (host iface : String) where
  -- The probe of the address numbered `m` ended with the flag `failed`, in some state.
  abbrev pub Probed : ℕ → Bool → Type 0
  Probed m failed = (w : W) × ((run host (arp_cmd iface (uint32_to_ip m)) w).0.failed ≡ failed)

  abbrev pub InUse : (own m : ℕ) → Type 0
  InUse own m = (m ≡ own) ⊎ Probed m true

  -- The address that a scan from `net + k` down may return.
  abbrev pub Found : (own net k : ℕ) → Ip → Type 0
  Found own net k ip =
      (j : ℕ) × (1 ≤ j)
      × (j ≤ k)
      × (ip ≡ uint32_to_ip (net + j))
      × (net + j ≢ own)
      × Probed (net + j) false
      × ((i : ℕ) → j < i → i ≤ k → InUse own (net + i))

  extend :
      (own net k : ℕ) (ip : Ip)
      → InUse own (net + suc k)
      → Found own net k ip
      → Found own net (suc k) ip
  extend own net k ip used (j, l, u, e, n, p, higher) = (
    j,
    l,
    omega arith,
    e,
    n,
    p,
    λ i a b. elim (Bool-cases (i =? suc k)) [
      | inl t ↦ let q : suc k ≡ i = ground arith in subst (λ i. InUse own (net + i)) q used
      | inr f ↦ higher i a (ground arith)
    ],
  )

  -- An address that `scan` returns is one of the k hosts above the network's address, not the
  -- interface's own, a probe of it had no reply, and every higher host was the interface's own or had
  -- a probe that failed.
  pub scan-Found :
      (own net k : ℕ) (w w' : W) (ip : Ip)
      → scan run expired host iface own net k w ≡ (ok ip, w')
      → Found own net k ip
  unfolding scan
  scan-Found own net zero w w' ip h = ground arith
  scan-Found own net (suc k) w w' ip h =
      let m : ℕ = net + suc k in
      let w₁ : W = (expired w).1 in
      elim (Bool-cases (expired w).0) [
        | inl t ↦ ground arith
        | inr f ↦ elim (Bool-cases (m =? own)) [
          | inl t ↦
              extend own net k ip (inl (ground arith))
                (scan-Found own net k w₁ w' ip (ground arith))
          | inr d ↦ elim (Bool-cases (run host (arp_cmd iface (uint32_to_ip m)) w₁).0.failed) [
            | inl t ↦ extend own net k ip (inr (w₁, t)) (
                scan-Found own net k (run host (arp_cmd iface (uint32_to_ip m)) w₁).1 w' ip
                  (ground arith))
            | inr p ↦ (
              suc k,
              omega arith,
              omega arith,
              ground arith,
              ground arith,
              (w₁, p),
              λ i a b. absurd (omega arith),
            )
          ]
        ]
      ]

  -- one round of the loop
  scan-own :
      (own net k : ℕ) (w : W)
      → (expired w).0 ≡ false
      → (net + suc k =? own) ≡ true
      → scan run expired host iface own net (suc k) w
        ≡ scan run expired host iface own net k (expired w).1
  unfolding scan
  scan-own own net k w f t = ground arith

  abbrev probe : (m : ℕ) → W → RunResult × W
  probe m w = run host (arp_cmd iface (uint32_to_ip m)) (expired w).1

  scan-probe :
      (own net k : ℕ) (w : W) (b : Bool)
      → (expired w).0 ≡ false
      → (net + suc k =? own) ≡ false
      → (probe (net + suc k) w).0.failed ≡ b
      → scan run expired host iface own net (suc k) w
        ≡ elim b as (λ _. Result KeepalivedError Ip × W) [
          | false ↦ (ok (uint32_to_ip (net + suc k)), (probe (net + suc k) w).1)
          | true ↦ scan run expired host iface own net k (probe (net + suc k) w).1
        ]
  unfolding scan
  scan-probe own net k w true f n p = ground arith
  scan-probe own net k w false f n p = ground arith

  -- The scan finds an address whenever time does not run out and some host other than the interface's
  -- own has a free address: a probe of it ends without failing in every state.
  pub scan-finds :
      (own net k j : ℕ) (w : W)
      → 1 ≤ j
      → j ≤ k
      → net + j ≢ own
      → ((v : W) → (expired v).0 ≡ false)
      → ((v : W) → (run host (arp_cmd iface (uint32_to_ip (net + j))) v).0.failed ≡ false)
      → (ip : Ip) × (w' : W) × (scan run expired host iface own net k w ≡ (ok ip, w'))
  unfolding scan
  scan-finds own net zero j w l u d time free = absurd (omega arith)
  scan-finds own net (suc k) j w l u d time free =
      let m : ℕ = net + suc k in
      let w₁ : W = (expired w).1 in
      let p : RunResult × W = run host (arp_cmd iface (uint32_to_ip m)) w₁ in
      elim (Bool-cases (m =? own)) [
        | inl t ↦
            let (ip, w', e) = scan-finds own net k j w₁ l (ground arith) d time free in
            (ip, w', scan-own own net k w (time w) t ∙ e)
        | inr n ↦ elim (Bool-cases p.0.failed) [
          | inr f ↦ (uint32_to_ip m, p.1, scan-probe own net k w false (time w) n f)
          | inl t ↦
              let ne : j ≢ suc k = (λ q.
                let fm : p.0.failed ≡ false =
                  subst
                    (λ j. (run host (arp_cmd iface (uint32_to_ip (net + j))) w₁).0.failed ≡ false) q
                    (free w₁) in
                ground arith) in
              let (ip, w', e) = scan-finds own net k j p.1 l (omega arith) d time free in
              (ip, w', scan-probe own net k w true (time w) n t ∙ e)
        ]
      ]
