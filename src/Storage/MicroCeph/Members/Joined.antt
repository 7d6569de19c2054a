-- ===== src/Storage/MicroCeph/Members/Joined.antt =====
-- What `Bootstrap`, `GenerateJoinToken` and `Join` of internal/storage/microceph.go say of the
-- membership of a node.
use docker_swarm_cluster_con.Prelude.{
  ℕ, ◌≡◌, refl, subst, arith, String, true, false, List, [], ◌∷◌, Option, none, some, ok, ◌==◌,
  ◌^^◌, Bool-cases, inl, inr, trim_space, split_lines, ◌||◌, ◌⊎◌,
}
use docker_swarm_cluster_con.Prelude.Action.{
  return, fail, Keeps, Gives, keeps_rules, bind-Gives, bind-Gives_kept,
}
use docker_swarm_cluster_con.Config.{Config}
use docker_swarm_cluster_con.Ssh.{RunResult}
use docker_swarm_cluster_con.IpDetect.Networks.{Decoders, NetworkInfo, network_ids}
use docker_swarm_cluster_con.IpDetect.Remote.{
  detect_network_info_ssh, get_docker_subnets_ssh, inspect_networks, list_networks_cmd, cidrs_cmd,
}
use docker_swarm_cluster_con.Storage.MicroCeph.{status_cmd, exec}
use docker_swarm_cluster_con.Storage.MicroCeph.Members.{
  bootstrap, check_status, detect, set_networks, disk_list_cmd, join, join_member, send_join,
  accept_join, join_cmd, was_joined,
}

-- Commands that take no node out of the cluster.
pub data Harmless : String → Type 0 where
  networks : Harmless list_networks_cmd
  inspect :
      (id : String)
      → Harmless ("docker network inspect " ^^ (id ^^ " --format json 2>/dev/null || true"))
  cidrs : Harmless cidrs_cmd
  cluster_network : (cidr : String) → Harmless ("ceph config set global cluster_network " ^^ cidr)
  public_network : (cidr : String) → Harmless ("ceph config set global public_network " ^^ cidr)
  disk_list : Harmless disk_list_cmd

module _ {W : Type 0} (run : String → String → W → RunResult × W)
    (Member : String → W → Type 0) where
  -- `microceph status` succeeds only on a member, and the harmless commands take no node out.
  pub record IsMicroCeph : Type 0 where
    pub status_member :
        (n : String) (w : W)
        → (run n status_cmd w).0.failed ≡ false
        → Member n (run n status_cmd w).1
    pub kept :
        {cmd : String} (host n : String) (w : W)
        → Harmless cmd
        → Member n w
        → Member n (run host cmd w).1

module _ {W : Type 0} (d : Decoders) (run : String → String → W → RunResult × W) (sleep : ℕ → W → W)
    (c : Config) (Member : String → W → Type 0)
    (status : (n : String) (w : W)
      → (run n status_cmd w).0.failed ≡ false
      → Member n (run n status_cmd w).1) where
  check-Member : (n : String) → Gives (check_status d run sleep c n) (λ _. Member n)
  unfolding check_status
  check-Member n = record {
    at = λ w w' a h. elim (Bool-cases (run n status_cmd w).0.failed) [
      | inl t ↦ ground arith
      | inr f ↦ subst (Member n) (ground arith) (status n w f)
    ];
  }

  -- Where what is shown holds of a refused join too.
  module _
      (refusals : (n token ip : String) (w : W)
        → (run n (join_cmd token ip) w).0.failed ≡ true
        → was_joined (run n (join_cmd token ip) w).0 ≡ true
        → Member n (run n (join_cmd token ip) w).1) where
    send-Member :
        (n token ip : String)
        → Gives (send_join d run sleep c n (join_cmd token ip)) (λ _. Member n)
    unfolding send_join accept_join fail return
    send-Member n token ip = record {
      at = λ w w' a h.
          let (r, w₁) = run n (join_cmd token ip) w in
          elim (Bool-cases (run n (join_cmd token ip) w).0.failed) [
            | inr f ↦ (check-Member n).at w₁ w' a (ground arith)
            | inl t ↦ elim (Bool-cases (was_joined (run n (join_cmd token ip) w).0)) [
              | inr g ↦ ground arith
              | inl g ↦ subst (Member n) (ground arith) (refusals n token ip w t g)
            ]
          ];
    }

    fresh-Member : (n token : String) → Gives (join_member d run sleep c n token) (λ _. Member n)
    unfolding join_member
    fresh-Member n token = search (bind-Gives, send-Member)

    join-Gives : (n token : String) → Gives (join d run sleep c n token) (λ _. Member n)
    unfolding join
    join-Gives n token = record {
      at = λ w w' a h.
          let (r, w₁) = run n status_cmd w in
          elim (Bool-cases (run n status_cmd w).0.failed) [
            | inr f ↦ subst (Member n) (ground arith) (status n w f)
            | inl t ↦ elim (Bool-cases (token == "")) [
              | inl e ↦ ground arith
              | inr e ↦ (fresh-Member n token).at w₁ w' a (ground arith)
            ]
          ];
    }

module _ {W : Type 0} (d : Decoders) (run : String → String → W → RunResult × W) (sleep : ℕ → W → W)
    (c : Config) (Member : String → W → Type 0) (laws : IsMicroCeph run Member) where
  module _ (n : String) where
    exec-Keeps :
        {E : Type 0} {cmd : String} (host : String)
        → Harmless cmd
        → Keeps (Member n) (exec run {E = E} host cmd)
    unfolding exec
    exec-Keeps host h = record { at = λ w m. laws.kept host n w h m }

    inspect-kept :
        (host : String) (ids : List String) (w : W)
        → Member n w
        → Member n (inspect_networks d run host ids w).1
    unfolding inspect_networks
    inspect-kept host [] w m = m
    inspect-kept host (id ∷ ids) w m = inspect-kept host ids _ (laws.kept host n w (inspect id) m)

    subnets-kept :
        (host : String) (w : W) → Member n w → Member n (get_docker_subnets_ssh d run host w).1
    unfolding get_docker_subnets_ssh
    subnets-kept host w m =
        let k = laws.kept host n w networks m in
        let r = (run host list_networks_cmd w).0 in
        elim (Bool-cases (r.failed || (trim_space r.stdout == ""))) [
          | inl e ↦ rw (e, get_docker_subnets_ssh) k
          | inr e ↦
              rw (e, get_docker_subnets_ssh)
                (inspect-kept host (network_ids d (split_lines (trim_space r.stdout))) _ k)
        ]

    detect-Keeps : (host : String) → Keeps (Member n) (detect d run sleep c host)
    unfolding detect detect_network_info_ssh
    detect-Keeps host = record { at = λ w m. laws.kept host n _ cidrs (subnets-kept host w m) }

    set-Keeps :
        (host : String) (net : Option NetworkInfo)
        → Keeps (Member n) (set_networks d run sleep c host net)
    unfolding set_networks
    set-Keeps host none = search keeps_rules
    set-Keeps host (some net) = elim (Bool-cases (net.cidr == "")) [
      | inl e ↦ rw (e, set_networks) (search keeps_rules)
      | inr e ↦
          rw (e, set_networks) (search (keeps_rules, exec-Keeps, cluster_network, public_network))
    ]

  bootstrap-Gives : (n : String) → Gives (bootstrap d run sleep c n) (λ _. Member n)
  unfolding bootstrap
  bootstrap-Gives n = bind-Gives _ _ λ net. bind-Gives _ _ λ _.
      bind-Gives_kept _ _ (check-Member d run sleep c Member laws.status_member n)
        λ _. search (keeps_rules, detect-Keeps, set-Keeps, exec-Keeps, disk_list)

  -- If `microceph status` succeeds only on members, and reading the networks, setting Ceph's network
  -- configuration and listing the disks take no node out of the cluster, then a node whose
  -- `bootstrap` succeeds is a member, also where the bootstrap command itself was refused as a
  -- repeated one.
  pub bootstrap-Member :
      (n : String) (w w' : W) → bootstrap d run sleep c n w ≡ (ok tt, w') → Member n w'
  bootstrap-Member n w w' h = (bootstrap-Gives n).at w w' tt h

module _ {W : Type 0} (d : Decoders) (run : String → String → W → RunResult × W) (sleep : ℕ → W → W)
    (c : Config) (Member : String → W → Type 0) where
  -- The last command was a join that the node refused, with words that say that it or its address is
  -- in a cluster.
  abbrev pub Refused : String → W → Type 0
  Refused n w' =
      (token : String) × (ip : String) × (w : W) × ((run n (join_cmd token ip) w).1 ≡ w')
      × ((run n (join_cmd token ip) w).0.failed ≡ true)
      × (was_joined (run n (join_cmd token ip) w).0 ≡ true)

  -- If `microceph status` succeeds only on members, and the commands that only read or configure take
  -- no node out of the cluster, then a node whose `join` succeeds is a member, or
  -- the last command of the join was refused with words that the code takes for those of a repeated
  -- join. Nothing else succeeds: an empty token on a node that is no member does not, nor does a join
  -- after which the status fails.
  pub join-Member :
      IsMicroCeph run Member
      → (n token : String) (w w' : W) → join d run sleep c n token w ≡ (ok tt, w')
      → Member n w' ⊎ Refused n w'
  join-Member laws n token w w' h =
      (join-Gives d run sleep c (λ n w. Member n w ⊎ Refused n w)
          (λ n w f. inl (laws.status_member n w f))
          (λ n token ip w f g. inr (token, ip, w, refl, f, g)) n token).at
        w w' tt h
