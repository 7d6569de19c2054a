-- ===== src/Controller/Handler/Status.antt =====
-- When the controller tells a node to go on: the response of internal/controller/server.go.
use docker_swarm_cluster_con.Prelude.{
  ℕ, length, filter, ◌==◌, Bool-cases, inl, inr, ◌+◌, ◌≤◌, String, ◌≡◌, ◌≢◌, refl, true, false,
  ◌&&◌, List, [], ◌∷◌, ok, arith, eq_iff, ◌↔◌, ◌⊎◌, All,
}
use docker_swarm_cluster_con.Swarm.{Docker, join_token}
use docker_swarm_cluster_con.Controller.Types.{
  ServeOptions, NodeRegistration, NodeResponse, NodeResponseStatus, ready, waiting, ClusterState,
}
use docker_swarm_cluster_con.Controller.Handler.{
  count_roles, first_status, swarm_roles, issue_token, respond, with_storage,
}

abbrev pub count_of : (role : String) → List NodeRegistration → ℕ
count_of role nodes = length (filter (λ n. n.role == role) nodes)

count_roles-count :
    (nodes : List NodeRegistration)
    → ((count_roles nodes).0 ≡ count_of "manager" nodes)
      × ((count_roles nodes).1 ≡ count_of "worker" nodes)
unfolding count_roles
count_roles-count [] = (refl, refl)
count_roles-count (n ∷ ns) =
    let ih = count_roles-count ns in
    elim (Bool-cases (n.role == "manager")) [
      | inl t ↦
          let m = (eq_iff n.role "manager").0 t in rw m (ground (arith, ih), ground (arith, ih))
      | inr f ↦ elim (Bool-cases (n.role == "worker")) [
        | inl t ↦ rw (f, t) (ground (arith, ih), ground (arith, ih))
        | inr g ↦ rw (f, g) (ground (arith, ih), ground (arith, ih))
      ]
    ]

-- The nodes that the controller waits for have registered, or it does not wait for them.
abbrev pub Enough : ServeOptions → String → List NodeRegistration → Type 0
Enough opts action nodes =
    (action ≡ "deregister")
    ⊎ (opts.wait_for_minimum ≡ false)
    ⊎ ((opts.min_managers ≤ count_of "manager" nodes + 1)
        × (opts.min_workers ≤ count_of "worker" nodes))

-- A node that takes part in the storage has to wait for it.
abbrev pub StorageClear : NodeRegistration → ClusterState → Type 0
StorageClear reg state =
    (reg.storage_enabled ≡ false)
    ⊎ (state.storage_enabled ≡ false)
    ⊎ (state.storage_ready ≡ true)
    ⊎ (swarm_roles reg.role ≡ false)

first_status_iff :
    (opts : ServeOptions) (action : String) (nodes : List NodeRegistration)
    → (first_status opts action nodes ≡ ready) ↔ Enough opts action nodes
unfolding first_status
first_status_iff opts action nodes =
    let (m, k) = count_roles-count nodes in
    (
      λ h. ground (arith, h, m, k, eq_iff action "deregister"),
      λ h. ground (arith, h, m, k, eq_iff action "deregister"),
    )

module _ {W : Type 0} (docker : Docker W) (opts : ServeOptions) (key action : String)
    (reg : NodeRegistration) (state : ClusterState) (w : W) where
  issue_token_lem :
      (status : NodeResponseStatus)
      → (issue_token docker opts key action status reg w).0 ≢ ""
      → (action ≡ "register")
        × (status ≡ ready)
        × (swarm_roles reg.role ≡ true)
        × ((join_token docker reg.role w).0
            ≡ ok (issue_token docker opts key action status reg w).0)
  unfolding issue_token
  issue_token_lem status h = (
    ground (arith, h, eq_iff action "register"),
    ground (arith, h),
    ground (arith, h),
    ground (arith, h),
  )

  storage-token :
      (resp : NodeResponse) → (with_storage reg state resp).swarm_join_token ≡ resp.swarm_join_token
  unfolding with_storage
  storage-token resp = ground arith

  abbrev response : NodeResponse
  response = (respond docker opts key action reg state w).0

  -- A response says "ready" exactly when, first, the action is "deregister", or the controller does not
  -- wait, or there are enough registrations in the role "manager", the primary counted as one more,
  -- and in the role "worker" (one in the role "both" counts as neither); and, second, the storage
  -- does not hold the node back: it takes no part in the storage, the cluster has none or a ready
  -- one, or the node's role is none of the swarm's.
  pub respond_ready_iff :
      ((respond docker opts key action reg state w).0.status ≡ ready)
      ↔ (Enough opts action state.nodes × StorageClear reg state)
  unfolding respond
  respond_ready_iff =
      let f = first_status_iff opts action state.nodes in
      (
        λ h. (f.0 (ground (arith, h)), ground (arith, h)),
        λ h. let e = f.1 h.0 in ground (arith, e, h.1),
      )

  -- A response carries a join token only for a registration in a swarm role, once enough nodes have
  -- registered, and it is then the token that docker gives for the role.
  pub respond_token :
      response.swarm_join_token ≢ ""
      → (action ≡ "register")
        × Enough opts action state.nodes
        × (swarm_roles reg.role ≡ true)
        × ((join_token docker reg.role w).0 ≡ ok response.swarm_join_token)
  unfolding respond
  respond_token h =
      let (r, q, role, t) =
        issue_token_lem (first_status opts action state.nodes) (rw storage-token at h) in
      (r, (first_status_iff opts action state.nodes).0 q, role, rw storage-token t)

  -- The storage fields of a response report the cluster's storage, for nodes that take part in it.
  pub respond_storage :
      (response.storage_enabled ≡ (reg.storage_enabled && state.storage_enabled))
      × (response.storage_ready
          ≡ (reg.storage_enabled && (state.storage_enabled && state.storage_ready)))
  unfolding respond
  respond_storage = (ground arith, ground arith)

abbrev pub AllBoth : List NodeRegistration → Type 0
AllBoth nodes = All (λ n. n.role ≡ "both") nodes

count_roles-both : (nodes : List NodeRegistration) → AllBoth nodes → count_roles nodes ≡ (0, 0)
unfolding count_roles
count_roles-both [] h = refl
count_roles-both (n ∷ ns) h = rw (h.0, count_roles-both ns h.1) refl

-- Nodes in the role "both", which join as managers, are not counted: a controller that waits for
-- two managers or more, or for a worker, never lets such a node go on, however many of them
-- register.
pub both_wait :
    (opts : ServeOptions) (action : String) (nodes : List NodeRegistration)
    → opts.wait_for_minimum ≡ true
    → action ≢ "deregister"
    → (2 ≤ opts.min_managers) ⊎ (1 ≤ opts.min_workers)
    → AllBoth nodes
    → first_status opts action nodes ≡ waiting
unfolding first_status
both_wait opts action nodes wait act min all =
    rw (count_roles-both nodes all, wait) (ground (arith, act, min, eq_iff action "deregister"))
