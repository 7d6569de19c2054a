-- ===== src/Orchestrator/Verified.antt =====
-- What `SwarmSetup` of internal/orchestrator/swarm.go has seen when it reports success, and what
-- `joinNodes` does with an empty cluster ID.
use docker_swarm_cluster_con.Prelude.{
  ℕ, suc, ◌+◌, All, Bool, not, filter, contains_empty, ◌≡◌, refl, arith, String, true, false, ◌||◌,
  List, [], ◌∷◌, Option, ok, contains, ltb, Bool-cases, Result-cases, inl, inr, ◌=?◌, length,
  trim_space, split_lines, text_length,
}
use docker_swarm_cluster_con.Ssh.{RunResult}
use docker_swarm_cluster_con.Orchestrator.{
  check_cmd, list_cmd, count_lines, init_swarm, get_join_tokens, join_turn, join_node, join_each,
  with_port, join_nodes, verify_swarm, verify_manager_ready, join_all, phases, swarm_setup,
}

-- The listing shows a manager that leads or can be reached.
abbrev pub names_manager : String → Bool
names_manager line = contains line "Leader" || contains line "Reachable"

abbrev pub listing : RunResult → List String
listing r = split_lines (trim_space r.stdout)

count_lines-length :
    (ls : List String)
    → (length (filter names_manager ls) ≡ (count_lines ls).0)
      × (length (filter (λ l. not (names_manager l)) ls) ≡ (count_lines ls).1)
unfolding count_lines
count_lines-length [] = (refl, refl)
count_lines-length (l ∷ ls) =
    let ih = count_lines-length ls in
    elim (Bool-cases (names_manager l)) [
      | inl t ↦ rw t (ground (arith, ih), ground (arith, ih))
      | inr f ↦ rw f (ground (arith, ih), ground (arith, ih))
    ]

module _ {C W : Type 0} (run : String → String → W → RunResult × W)
    (wait : ℕ → W → Option C × W) where
  -- The primary's last answer has exactly so many lines that name a leader or a reachable manager, and
  -- so many other lines.
  abbrev pub Listed : String → (managers workers : ℕ) → W → Type 0
  Listed primary managers workers w' =
      (w : W) × ((run primary list_cmd w).1 ≡ w')
      × ((run primary list_cmd w).0.failed ≡ false)
      × (length (filter names_manager (listing (run primary list_cmd w).0)) ≡ managers)
      × (length (filter (λ l. not (names_manager l)) (listing (run primary list_cmd w).0))
          ≡ workers)

  abbrev answer : String → W → RunResult
  answer primary w = (run primary list_cmd w).0

  verify_swarm-ok :
      (primary : String) (managers workers : ℕ) (w w' : W)
      → verify_swarm run wait primary managers workers w ≡ (ok tt, w')
      → Listed primary managers workers w'
  unfolding verify_swarm
  verify_swarm-ok primary managers workers w w' h =
      let c = count_lines-length (listing (run primary list_cmd w).0) in
      (w, ground arith, ground arith, ground (arith, c), ground (arith, c))

  join_all-ok :
      (primary addr : String) (managers workers : List String) (tokens : String × (String × String))
      (w w' : W)
      → join_all run wait primary addr managers workers tokens w ≡ (ok tt, w')
      → Listed primary (length managers + 1) (length workers) w'
  unfolding join_all
  join_all-ok primary addr managers workers (mt, (wt, id)) w w' h =
      let (r, w₁) = join_nodes run wait managers mt addr id w in
      elim (Result-cases (join_nodes run wait managers mt addr id w).0) [
        | inr (x, e) ↦ ground arith
        | inl (tt, e) ↦ elim (Result-cases (join_nodes run wait workers wt addr id w₁).0) [
          | inr (x, e) ↦ ground arith
          | inl (tt, e') ↦
              verify_swarm-ok primary (length managers + 1) (length workers)
                (join_nodes run wait workers wt addr id w₁).1 w' (ground arith)
        ]
      ]

  phases-ok :
      (primary : String) (managers workers : List String) (advertise_addr join_addr : String)
      (w w' : W)
      → phases run wait primary managers workers advertise_addr join_addr w ≡ (ok tt, w')
      → Listed primary (length managers + 1) (length workers) w'
  unfolding phases
  phases-ok primary managers workers advertise_addr join_addr w w' h =
      let (r₁, w₁) = init_swarm run wait primary advertise_addr w in
      let (r₂, w₂) = verify_manager_ready run wait primary w₁ in
      let (r₃, w₃) = get_join_tokens run wait primary w₂ in
      elim (Result-cases (init_swarm run wait primary advertise_addr w).0) [
        | inr (x, e) ↦ ground arith
        | inl (tt, e) ↦ elim (Result-cases (verify_manager_ready run wait primary w₁).0) [
          | inr (x, e) ↦ ground arith
          | inl (tt, e') ↦ elim (Result-cases (get_join_tokens run wait primary w₂).0) [
            | inr (x, e) ↦ ground arith
            | inl (tokens, e'') ↦
                elim (Bool-cases
                  (ltb (text_length tokens.0) 20 || ltb (text_length tokens.1.0) 20)) [
                    | inl t ↦ ground arith
                    | inr f ↦
                        join_all-ok primary join_addr managers workers tokens w₃ w' (ground arith)
                  ]
          ]
        ]
      ]

  -- If `swarm_setup` reports success, each list of hosts was as long as its list of addresses, and the
  -- last command, on the primary manager, succeeded and listed exactly as many nodes with "Leader" or
  -- "Reachable" in their lines as there are manager hosts, and exactly as many other lines, of nodes
  -- in whatever state, as there are worker hosts.
  pub swarm_setup-ok :
      (primary : String) (managers workers manager_addrs worker_addrs : List String)
      (advertise_addr join_addr : String) (w w' : W)
      → swarm_setup run wait
          (primary ∷ managers)
          workers
          manager_addrs
          worker_addrs
          advertise_addr
          join_addr
          w
        ≡ (ok tt, w')
      → (length (primary ∷ managers) ≡ length manager_addrs)
        × (length workers ≡ length worker_addrs)
        × Listed primary (length (primary ∷ managers)) (length workers) w'
  unfolding swarm_setup
  swarm_setup-ok primary managers workers manager_addrs worker_addrs advertise_addr join_addr w w'
        h =
      elim (Bool-cases (length managers + 1 =? length manager_addrs)) [
        | inr f ↦ ground arith
        | inl t ↦ elim (Bool-cases (length workers =? length worker_addrs)) [
          | inr f ↦ ground arith
          | inl t' ↦
              let e : suc (length managers) ≡ length managers + 1 = omega arith in
              (
                ground arith,
                ground arith,
                rw e (
                    phases-ok primary managers workers advertise_addr join_addr w w'
                      (ground arith)),
              )
        ]
      ]

  -- The check on a node changes nothing and answers a text with "active" in it, as a node's that is
  -- inactive does.
  abbrev pub SaysActive : W → String → Type 0
  SaysActive w node =
      (r : RunResult) × (run node check_cmd w ≡ (r, w))
      × (r.failed ≡ false)
      × (contains r.stdout "active" ≡ true)

  join_node-empty :
      (token addr node : String) (w : W)
      → SaysActive w node
      → join_node run wait token addr "" node w ≡ (ok tt, w)
  unfolding join_node join_turn
  join_node-empty token addr node w (r, e, f, a) = rw (e, f, a, contains_empty r.stdout) refl

  join_each-empty :
      (token addr : String) (nodes : List String) (w : W)
      → All (SaysActive w) nodes
      → join_each run wait token addr "" nodes w ≡ (ok tt, w)
  unfolding join_each
  join_each-empty token addr [] w h = refl
  join_each-empty token addr (n ∷ ns) w (h, hs) =
      ground (arith, join_node-empty token addr n w h, join_each-empty token addr ns w hs)

  -- With an empty cluster ID, `join_nodes` reports success without a single join where every node's
  -- check answers a text with "active" in it: every text contains the empty one, and "inactive"
  -- contains "active".
  pub join_nodes_empty_id :
      (nodes : List String) (token manager_addr : String) (w : W)
      → All (SaysActive w) nodes
      → join_nodes run wait nodes token manager_addr "" w ≡ (ok tt, w)
  unfolding join_nodes
  join_nodes_empty_id nodes token manager_addr w h =
      join_each-empty token (with_port manager_addr) nodes w h
