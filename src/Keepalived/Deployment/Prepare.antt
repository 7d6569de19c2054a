-- ===== src/Keepalived/Deployment/Prepare.antt =====
-- Which nodes `PrepareKeepalivedDeployment` of internal/services/keepalived.go lets take part.
use docker_swarm_cluster_con.Prelude.{
  ℕ, ◌≡◌, ◌≢◌, refl, arith, String, Bool, true, ◌&&◌, List, [], ◌∷◌, Option, Result, ok, err,
  Bool-cases, Result-cases, inl, inr, ℤ, All,
}
use docker_swarm_cluster_con.Config.{Config, NodeConfig}
use docker_swarm_cluster_con.Config.Nodes.{is_keepalived_enabled, get_keepalived_nodes}
use docker_swarm_cluster_con.IpDetect.{Ip, is_rfc1918, Subnet, subnet_contains}
use docker_swarm_cluster_con.Ssh.{RunResult}
use docker_swarm_cluster_con.Keepalived.{KeepalivedError, KeepalivedDeployment, resolve_all}
use docker_swarm_cluster_con.Keepalived.Deployment.{
  get_interface_details, admit, eligible_nodes, subnet_of, choose_interface, choose_vip, deploy_on,
  deploy_eligible, prepare_nodes, prepare_keepalived_deployment,
}

module _ {W : Type 0} (run : String → String → W → RunResult × W)
    (parse_cidr : String → Option (Ip × ℕ)) where
  -- The node answered with a private address of the reference network on the interface.
  abbrev pub Eligible : (iface : String) → Subnet → NodeConfig → Type 0
  Eligible iface reference n =
      (w : W) × (ip : Ip) × (ones : ℕ) × ((get_interface_details run parse_cidr n.ssh_fqdn_or_ip
          iface w).0
        ≡ ok (ip, ones))
      × (is_rfc1918 ip ≡ true)
      × (subnet_contains reference ip ≡ true)

  admit-All :
      (iface : String) (reference : Subnet) (n : NodeConfig) (w : W)
      (r : Result KeepalivedError (Ip × ℕ)) (rest : List NodeConfig)
      → (get_interface_details run parse_cidr n.ssh_fqdn_or_ip iface w).0 ≡ r
      → All (Eligible iface reference) rest
      → All (Eligible iface reference) (admit reference n r rest)
  unfolding admit
  admit-All iface reference n w (err e) rest h ih = ih
  admit-All iface reference n w (ok (ip, ones)) rest h ih =
      elim (Bool-cases (is_rfc1918 ip && subnet_contains reference ip)) [
        | inl t ↦ rw t ((w, ip, ones, h, ground arith, ground arith), ih)
        | inr f ↦ rw f ih
      ]

  eligible_nodes-All :
      (iface : String) (reference : Subnet) (ns : List NodeConfig) (w : W)
      → All (Eligible iface reference) (eligible_nodes run parse_cidr iface reference ns w).0
  unfolding eligible_nodes
  eligible_nodes-All iface reference [] w = tt
  eligible_nodes-All iface reference (n ∷ ns) w =
      let (r, w₁) = get_interface_details run parse_cidr n.ssh_fqdn_or_ip iface w in
      admit-All iface reference n w r (eligible_nodes run parse_cidr iface reference ns w₁).0 refl
        (eligible_nodes-All iface reference ns w₁)

  module _ (parse_ip : String → Option Ip) (expired : ℤ → W → Bool × W) (random : W → String × W)
      (c : Config) where
    -- The entries are those of nodes, at least one, that are eligible in the network.
    abbrev pub IsDeployedOn : (iface : String) → Subnet → KeepalivedDeployment → Type 0
    IsDeployedOn iface reference d =
        (ns : List NodeConfig) × (ns ≢ [])
        × All (Eligible iface reference) ns
        × (d.nodes ≡ resolve_all ns 0 iface d.vip_cidr)

    -- The network is that of the answer of the first of the candidates.
    abbrev pub IsDeployed : List NodeConfig → KeepalivedDeployment → Type 0
    IsDeployed candidates d =
        (first : NodeConfig) × (more : List NodeConfig) × (candidates ≡ first ∷ more)
        × (iface : String) × (w : W) × (details : Ip × ℕ) × ((get_interface_details run parse_cidr
              first.ssh_fqdn_or_ip iface w).0
            ≡ ok details)
        × IsDeployedOn iface (subnet_of run parse_ip parse_cidr details) d

    deploy_on-nodes :
        (iface host : String) (details : Ip × ℕ) (ns : List NodeConfig) (w w' : W)
        (d : KeepalivedDeployment)
        → deploy_on run parse_ip parse_cidr expired random c iface host details ns w ≡ (ok d, w')
        → d.nodes ≡ resolve_all ns 0 iface d.vip_cidr
    unfolding deploy_on
    deploy_on-nodes iface host details ns w w' d h =
        let (r, w₁) = choose_vip run parse_ip parse_cidr expired random c host details w in
        elim (Result-cases (choose_vip run parse_ip parse_cidr expired random c host details w).0) [
          | inr (x, e) ↦ ground arith
          | inl (vip, e) ↦ ground arith
        ]

    deploy_eligible-Deployed :
        (iface host : String) (details : Ip × ℕ) (reference : Subnet) (ns : List NodeConfig)
        (w w' : W) (d : KeepalivedDeployment)
        → All (Eligible iface reference) ns
        → deploy_eligible run parse_ip parse_cidr expired random c iface host details (ns, w)
          ≡ (ok d, w')
        → d.enabled ≡ true
        → IsDeployedOn iface reference d
    unfolding deploy_eligible
    deploy_eligible-Deployed iface host details reference [] w w' d all h on = ground arith
    deploy_eligible-Deployed iface host details reference (n ∷ ns) w w' d all h on =
        (n ∷ ns, (λ q. ground arith), all, deploy_on-nodes iface host details (n ∷ ns) w w' d h)

    prepare_nodes-Deployed :
        (ns : List NodeConfig) (w w' : W) (d : KeepalivedDeployment)
        → prepare_nodes run parse_ip parse_cidr expired random c ns w ≡ (ok d, w')
        → d.enabled ≡ true
        → IsDeployed ns d
    unfolding prepare_nodes
    prepare_nodes-Deployed [] w w' d h on = ground arith
    prepare_nodes-Deployed (n ∷ ns) w w' d h on =
        let host = n.ssh_fqdn_or_ip in
        let w₁ : W = (choose_interface run parse_ip parse_cidr expired random c host w).1 in
        elim (Result-cases (choose_interface run parse_ip parse_cidr expired random c host w).0) [
          | inr (x, e) ↦ ground arith
          | inl (iface, e) ↦
              elim (Result-cases (get_interface_details run parse_cidr host iface w₁).0) [
                | inr (x, e') ↦ ground arith
                | inl (details, e') ↦
                    let w₂ : W = (get_interface_details run parse_cidr host iface w₁).1 in
                    let reference = subnet_of run parse_ip parse_cidr details in
                    let (es, w₃) = eligible_nodes run parse_cidr iface reference (n ∷ ns) w₂ in
                    (
                      n,
                      ns,
                      refl,
                      iface,
                      w₁,
                      details,
                      e',
                      deploy_eligible-Deployed iface host details reference es w₃ w' d
                          (eligible_nodes-All iface reference (n ∷ ns) w₂) (ground arith) on,
                    )
              ]
        ]

    -- A deployment that is enabled has a node, and its entries are those of its nodes, each of which
    -- answered with a private address on the chosen interface. All these addresses lie in one
    -- network: that of the address with which the first of the configuration's nodes with Keepalived
    -- answered on the same interface.
    pub prepare-Deployed :
        (w w' : W) (d : KeepalivedDeployment)
        → prepare_keepalived_deployment run parse_ip parse_cidr expired random c w ≡ (ok d, w')
        → d.enabled ≡ true
        → IsDeployed (get_keepalived_nodes c) d
    unfolding prepare_keepalived_deployment
    prepare-Deployed w w' d h on = elim (Bool-cases (is_keepalived_enabled c)) [
      | inl t ↦ prepare_nodes-Deployed (get_keepalived_nodes c) w w' d (ground arith) on
      | inr f ↦ ground arith
    ]
