-- ===== src/Controller/Handler/Effects.antt =====
-- What a connection to the controller changes: `handleConn` of internal/controller/server.go.
use docker_swarm_cluster_con.Prelude.{
  ℕ, String, ◌≡◌, ◌≢◌, refl, List, [], ◌∷◌, Option, some, Result, ok, err, arith, ◌⊎◌, ◌==◌, inl,
  inr, Bool-cases, Option-cases, ne→eq_false,
}
use docker_swarm_cluster_con.Swarm.{Docker}
use docker_swarm_cluster_con.Controller.Types.{
  ServeOptions, NodeRegistration, NodeResponse, ClusterState,
}
use docker_swarm_cluster_con.Controller.Store.{
  FileStore, Faults, json, get_last_response, set_last_response,
}
use docker_swarm_cluster_con.Controller.Store.Keys.{find, Unique}
use docker_swarm_cluster_con.Controller.Store.Durable.{
  operate, remember, Reach, here, next, IsSound, Reach-IsSound, Reach-trans,
}
use docker_swarm_cluster_con.Controller.Handler.{
  Incoming, closed, tls, malformed, request, HandlerError, unknown_action, action_of, perform,
  finish, remembered, respond, handle_conn, has_response_changed,
}
use docker_swarm_cluster_con.Controller.Handler.Performed.{
  op_of, perform-op, Kept, perform-Kept, entry_after, perform-find,
}

module _ {W : Type 0} (docker : Docker W) (opts : ServeOptions) (key : String) where
  remembered-Reach :
      (action : String) (reg : NodeRegistration) (resp : NodeResponse) (s : FileStore)
      → Reach s (remembered docker opts key action reg resp s)
  unfolding remembered
  remembered-Reach action reg resp s = elim (Bool-cases (action == "check-status")) [
    | inr n ↦ rw n here
    | inl e ↦ rw e (elim (Option-cases (get_last_response s reg.hostname reg.role)) [
      | inl fresh ↦ rw fresh (next here (remember reg.hostname reg.role resp refl))
      | inr (last, old) ↦ rw old (elim (Bool-cases (has_response_changed last resp)) [
        | inl c ↦ rw c (next here (remember reg.hostname reg.role resp refl))
        | inr c ↦ rw c here
      ])
    ])
  ]

  remembered-state :
      (action : String) (reg : NodeRegistration) (resp : NodeResponse) (s : FileStore)
      → ((remembered docker opts key action reg resp s).state ≡ s.state)
        × ((remembered docker opts key action reg resp s).file ≡ s.file)
  unfolding remembered set_last_response
  remembered-state action reg resp s = (ground arith, ground arith)

  finish-Reach :
      (action : String) (reg : NodeRegistration) (r : Result HandlerError ClusterState × FileStore)
      (w : W) {s : FileStore}
      → Reach s r.1
      → Reach s (finish docker opts key action reg r w).1
  unfolding finish
  finish-Reach action reg (err e, t) w h = h
  finish-Reach action reg (ok c, t) w h =
      Reach-trans h (remembered-Reach action reg (respond docker opts key action reg c w).0 t)

  finish-state :
      (action : String) (reg : NodeRegistration) (r : Result HandlerError ClusterState × FileStore)
      (w : W)
      → ((finish docker opts key action reg r w).1.state ≡ r.1.state)
        × ((finish docker opts key action reg r w).1.file ≡ r.1.file)
  unfolding finish
  finish-state action reg (err e, t) w = (refl, refl)
  finish-state action reg (ok c, t) w =
      remembered-state action reg (respond docker opts key action reg c w).0 t

  finish-answer :
      (action : String) (reg : NodeRegistration) (s : FileStore)
      (r : Result HandlerError ClusterState × FileStore) (w : W)
      → Kept s r
      → ((x : HandlerError) × ((finish docker opts key action reg r w).0 ≡ err x)
          × ((finish docker opts key action reg r w).1.file ≡ s.file))
        ⊎ ((resp : NodeResponse) × ((finish docker opts key action reg r w).0 ≡ ok (some resp))
            × (((finish docker opts key action reg r w).1.file
                  ≡ json (finish docker opts key action reg r w).1.state)
                ⊎ (((finish docker opts key action reg r w).1.file ≡ s.file)
                    × ((finish docker opts key action reg r w).1.state ≡ s.state))))
  unfolding finish
  finish-answer action reg s (err e, t) w (inl (x, h, k)) = inl (e, refl, k)
  finish-answer action reg s (err e, t) w (inr (c, h, k)) = ground arith
  finish-answer action reg s (ok c, t) w (inl (x, h, k)) = ground arith
  finish-answer action reg s (ok c, t) w (inr (a, h, k)) =
      let resp = (respond docker opts key action reg c w).0 in
      let (st, fl) = remembered-state action reg resp t in inr (resp, refl, rw (st, fl) k)

  perform-Reach :
      (f : Faults) (action : String) (reg : NodeRegistration) (s : FileStore)
      → Reach s (perform f action reg s).1
  perform-Reach f action reg s = rw perform-op (elim (Option-cases (op_of action reg)) [
    | inl n ↦ rw n here
    | inr (op, e) ↦ rw e (next here (operate f op refl))
  ])

  -- A connection changes the store only by the store's steps, whatever arrives on it and whichever
  -- saves fail.
  handle_conn-Reach :
      (f : Faults) (now : ℕ) (i : Incoming) (s : FileStore) (w : W)
      → Reach s (handle_conn docker opts key f now i s w).1
  unfolding handle_conn
  handle_conn-Reach f now closed s w = here
  handle_conn-Reach f now tls s w = here
  handle_conn-Reach f now malformed s w = here
  handle_conn-Reach f now (request reg) s w =
      finish-Reach (action_of reg) (record reg { timestamp = now })
        (perform f (action_of reg) (record reg { timestamp = now }) s) w
        (perform-Reach f (action_of reg) (record reg { timestamp = now }) s)

  -- The connections of a server, one after the other, each with its faults and its time.
  pub serve : List (Faults × ℕ × Incoming) → FileStore → W → FileStore
  serve [] s w = s
  serve ((f, now, i) ∷ rest) s w =
      serve rest (handle_conn docker opts key f now i s w).1
        (handle_conn docker opts key f now i s w).2

  serve-Reach : (cs : List (Faults × ℕ × Incoming)) (s : FileStore) (w : W) → Reach s (serve cs s w)
  unfolding serve
  serve-Reach [] s w = here
  serve-Reach ((f, now, i) ∷ rest) s w = Reach-trans (handle_conn-Reach f now i s w) (
      serve-Reach rest (handle_conn docker opts key f now i s w).1
        (handle_conn docker opts key f now i s w).2)

  -- After any connections, of whatever content and with any failing saves, a store that was sound
  -- still is: no node is registered twice in a role, in memory or on disk, and the file loads.
  pub serve-IsSound :
      (cs : List (Faults × ℕ × Incoming)) (s : FileStore) (w : W)
      → IsSound s
      → IsSound (serve cs s w)
  serve-IsSound cs s w v = Reach-IsSound v (serve-Reach cs s w)

  module _ (f : Faults) (now : ℕ) (reg : NodeRegistration) (s : FileStore) (w : W) where
    abbrev result : Result HandlerError (Option NodeResponse) × FileStore × W
    result = handle_conn docker opts key f now (request reg) s w

    -- In a store whose keys are distinct, a request changes the registrations by its action alone: to
    -- register puts the registration, with the time of its arrival, under its name and role, to
    -- deregister leaves nothing there, and no other key and no other action changes any. If the answer
    -- is an error the file is as it was; if a response is sent, the file holds the state in memory, or
    -- neither file nor state has changed.
    pub handle_conn-effects :
        (h r : String)
        → Unique s.state.nodes
        → (find h r result.1.state.nodes
            ≡ entry_after
                (action_of reg)
                (record reg { timestamp = now })
                h
                r
                (find h r s.state.nodes))
          × (((x : HandlerError) × (result.0 ≡ err x) × (result.1.file ≡ s.file))
              ⊎ ((resp : NodeResponse) × (result.0 ≡ ok (some resp))
                  × ((result.1.file ≡ json result.1.state)
                      ⊎ ((result.1.file ≡ s.file) × (result.1.state ≡ s.state)))))
    unfolding handle_conn
    handle_conn-effects h r u =
        let stamped : NodeRegistration = record reg { timestamp = now } in
        let done = perform f (action_of reg) stamped s in
        (
          rw (finish-state (action_of reg) stamped done w).0
              (perform-find f (action_of reg) stamped s h r u),
          finish-answer (action_of reg) stamped s done w (perform-Kept f (action_of reg) stamped s),
        )

    -- A status query changes neither the state in memory nor the file.
    pub handle_conn-check_status :
        action_of reg ≡ "check-status" → (result.1.state ≡ s.state) × (result.1.file ≡ s.file)
    unfolding handle_conn
    handle_conn-check_status e =
        let stamped : NodeRegistration = record reg { timestamp = now } in
        rw
          (
            (finish-state (action_of reg) stamped (perform f (action_of reg) stamped s) w).0,
            (finish-state (action_of reg) stamped (perform f (action_of reg) stamped s) w).1,
            perform-op,
            e,
          )
          (refl, refl)

    -- Any action but the four known ones is an error that changes nothing.
    pub handle_conn-unknown :
        action_of reg ≢ "register"
        → action_of reg ≢ "deregister"
        → action_of reg ≢ "storage-ready"
        → action_of reg ≢ "check-status"
        → result ≡ (err unknown_action, s, w)
    unfolding handle_conn finish perform
    handle_conn-unknown a b c d =
        rw (ne→eq_false _ _ a, ne→eq_false _ _ b, ne→eq_false _ _ c, ne→eq_false _ _ d) refl
