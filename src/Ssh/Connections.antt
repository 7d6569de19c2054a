-- ===== src/Ssh/Connections.antt =====
-- The connections that the pool of internal/ssh/pool.go keeps.
use docker_swarm_cluster_con.Prelude.{
  ◌≡◌, refl, ap, ◌∙◌, subst, arith, eq_refl, String, List, ◌∷◌, Option, some, ok, Option-cases, inl,
  inr,
}
use docker_swarm_cluster_con.Ssh.{AuthConfig, Pool, of_host, connect, get}

module _ {Client W : Type 0} (new_client : String → AuthConfig → W → Option Client × W) where
  get-known :
      (host : String) (p : Pool Client) (c : Client) (v : W)
      → of_host host p.clients ≡ some c
      → get new_client host (p, v) ≡ (ok c, (p, v))
  unfolding get
  get-known host p c v e = rw (get, e) refl

  of_host-first :
      (host : String) (c : Client) (cs : List (String × Client))
      → of_host host ((host, c) ∷ cs) ≡ some c
  unfolding of_host
  of_host-first host c cs = rw (eq_refl host) refl

  -- Once `get` has given a client, every later `get` for the host gives the same one, and neither
  -- connects again nor changes the pool, in whatever state the world is by then.
  pub get_again :
      (host : String) (p p' : Pool Client) (w w' : W) (c : Client)
      → get new_client host (p, w) ≡ (ok c, (p', w'))
      → (v : W) → get new_client host (p', v) ≡ (ok c, (p', v))
  unfolding get connect
  get_again host p p' w w' c h v = elim (Option-cases (of_host host p.clients)) [
    | inr (d, e) ↦
        let q : p ≡ p' = ground arith in
        let k : of_host host p.clients ≡ some c = ground arith in
        get-known host p' c v (subst (λ p. of_host host p.clients ≡ some c) q k)
    | inl e ↦ elim (Option-cases (of_host host p.auth_configs)) [
      | inl f ↦ ground arith
      | inr (auth, f) ↦ elim (Option-cases (new_client host auth w).0) [
        | inl n ↦ ground arith
        | inr (d, n) ↦
            let q : record p { clients = (host, d) ∷ p.clients } ≡ p' = ground arith in
            let k : d ≡ c = ground arith in
            let first : of_host host ((host, d) ∷ p.clients) ≡ some c =
              of_host-first host d p.clients ∙ ap some k in
            get-known host p' c v (subst (λ p. of_host host p.clients ≡ some c) q first)
      ]
    ]
  ]
