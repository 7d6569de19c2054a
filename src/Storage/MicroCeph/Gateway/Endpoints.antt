-- ===== src/Storage/MicroCeph/Gateway/Endpoints.antt =====
-- How many endpoints `EnableRadosGateway` of internal/storage/microceph.go reports.
use docker_swarm_cluster_con.Prelude.{
  ℕ, suc, ◌⊎◌, ◌*◌, ◌≤◌, ◌≡◌, refl, ap, subst, arith, String, List, [], ◌∷◌, Option, some, ok,
  length, ℤ, Bool-cases, inl, inr, Result-cases,
}
use docker_swarm_cluster_con.Retry.{second}
use docker_swarm_cluster_con.Ssh.{RunResult}
use docker_swarm_cluster_con.IpDetect.Networks.{Decoders}
use docker_swarm_cluster_con.IpDetect.Remote.{resolve_node_address_ssh}
use docker_swarm_cluster_con.Storage.Types.{RadosGatewayInfo}
use docker_swarm_cluster_con.Storage.MicroCeph.Gateway.{
  enable_on, enable_each, endpoints_of, gateway_user, enable_rados_gateway, or_default_port,
  parse_rados_gw_user_keys, user_cmd,
}

List-cases : (xs : List String) → (xs ≡ []) ⊎ ((x : String) × (ys : List String) × (xs ≡ x ∷ ys))
List-cases [] = inl refl
List-cases (x ∷ ys) = inr (x, ys, refl)

module _ {W : Type 0} (d : Decoders) (user_keys : String → Option (List (String × String)))
    (run : String → String → W → RunResult × W) (sleep : ℕ → W → W) where
  enable_each-length :
      (port : ℤ) (nodes : List String) (w : W)
      → length (enable_each d user_keys run sleep port nodes w).0 ≤ length nodes
  unfolding enable_each
  enable_each-length port [] w = omega arith
  enable_each-length port (n ∷ ns) w =
      let (enabled, w₁) = enable_on d user_keys run sleep port n w in
      let ih = enable_each-length port ns w₁ in
      elim (Bool-cases (enable_on d user_keys run sleep port n w).0) [
        | inl t ↦ rw t (omega (arith, ih))
        | inr f ↦ rw f (omega (arith, ih))
      ]

  endpoints_of-length :
      (port : ℤ) (overlay : String) (nodes : List String) (w : W)
      → length (endpoints_of d user_keys run sleep port overlay nodes w).0 ≡ length nodes
  unfolding endpoints_of
  endpoints_of-length port overlay [] w = refl
  endpoints_of-length port overlay (n ∷ ns) w =
      let (address, w₁) = resolve_node_address_ssh d run n overlay w in
      ap suc (endpoints_of-length port overlay ns w₁)

  user_endpoints :
      (port : ℤ) (overlay primary : String) (enabled : List String) (w w' : W)
      (info : RadosGatewayInfo)
      → gateway_user d user_keys run sleep port overlay primary enabled w ≡ (ok (some info), w')
      → length info.endpoints ≡ length enabled
  unfolding gateway_user
  user_endpoints port overlay primary enabled w w' info h =
      let (r, w₁) = run primary (user_cmd) (sleep (10 * second) w) in
      elim (Bool-cases r.failed) [
        | inl t ↦ ground arith
        | inr f ↦ elim (Result-cases (parse_rados_gw_user_keys user_keys r.stdout)) [
          | inr (e, q) ↦ ground arith
          | inl (k, q) ↦ ground (arith, endpoints_of-length port overlay enabled w₁)
        ]
      ]

  -- If enabling the gateway reports its data, there is an endpoint for at least one and for at most each of
  -- the nodes given.
  pub enable_rados_gateway_bounds :
      (nodes : List String) (port : ℤ) (overlay : String) (w w' : W) (info : RadosGatewayInfo)
      → enable_rados_gateway d user_keys run sleep nodes port overlay w ≡ (ok (some info), w')
      → (1 ≤ length info.endpoints) × (length info.endpoints ≤ length nodes)
  unfolding enable_rados_gateway
  enable_rados_gateway_bounds [] port overlay w w' info h = ground arith
  enable_rados_gateway_bounds (n ∷ ns) port overlay w w' info h =
      let (enabled, w₁) = enable_each d user_keys run sleep (or_default_port port) (n ∷ ns) w in
      let le = enable_each-length (or_default_port port) (n ∷ ns) w in
      elim (List-cases enabled) [
        | inl e ↦ ground arith
        | inr (p, ps, e) ↦
            let same =
              user_endpoints (or_default_port port) overlay p (p ∷ ps) w₁ w' info (ground arith) in
            let most = subst (λ es. length es ≤ length (n ∷ ns)) e le in
            (omega (arith, same), omega (arith, same, most))
      ]
