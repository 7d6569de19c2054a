-- ===== src/Controller/Handler/Performed.antt =====
-- What an action does to the store: the switch over `action` in `handleConn` of
-- internal/controller/server.go.
use docker_swarm_cluster_con.Prelude.{
  String, ◌≡◌, refl, ap, true, ◌&&◌, Option, none, some, Result, ok, err, arith, ◌⊎◌, ◌==◌,
  if◌then◌else◌, inl, inr, Bool-cases, Result-cases,
}
use docker_swarm_cluster_con.Controller.Types.{NodeRegistration, ClusterState}
use docker_swarm_cluster_con.Controller.Store.{FileStore, Faults, StoreError, save_locked, json}
use docker_swarm_cluster_con.Controller.Store.Keys.{find, Unique}
use docker_swarm_cluster_con.Controller.Store.Durable.{
  Op, add, remove, storage_ready, run_op, run_op-state, run_op_error, find-add, find-remove,
}
use docker_swarm_cluster_con.Controller.Handler.{unknown_action, fail_store, perform}

-- The operation on the store that an action stands for.
abbrev pub op_of : String → NodeRegistration → Option Op
op_of action reg =
    if action == "register"
    then some (add reg)
    else if action == "deregister"
    then some (remove reg.hostname reg.role)
    else if action == "storage-ready"
    then some (storage_ready true)
    else none

abbrev pub after_op : Faults → Option Op → FileStore → FileStore
after_op f none s = s
after_op f (some op) s = (run_op f op s).1

fail_store-state : (r : Result StoreError ClusterState × FileStore) → (fail_store r).1 ≡ r.1
unfolding fail_store
fail_store-state (ok c, s) = refl
fail_store-state (err e, s) = refl

pub perform-op :
    (f : Faults) (action : String) (reg : NodeRegistration) (s : FileStore)
    → (perform f action reg s).1 ≡ after_op f (op_of action reg) s
unfolding perform run_op
perform-op f action reg s = elim (Bool-cases (action == "register")) [
  | inl e ↦ rw e (fail_store-state _)
  | inr n ↦ rw n (elim (Bool-cases (action == "deregister")) [
    | inl e ↦ rw e (fail_store-state _)
    | inr n ↦ rw n (elim (Bool-cases (action == "storage-ready")) [
      | inl e ↦ rw e (fail_store-state _)
      | inr n ↦ rw n (ground arith)
    ])
  ])
]

-- What a call on the store says of the file: it failed and the file is as it was, or it succeeded and
-- the file holds the state in memory, or nothing has changed.
abbrev pub Kept : {E A : Type 0} → FileStore → Result E A × FileStore → Type 0
Kept {E} {A} s r =
    ((x : E) × (r.0 ≡ err x) × (r.1.file ≡ s.file))
    ⊎ ((a : A) × (r.0 ≡ ok a)
        × ((r.1.file ≡ json r.1.state) ⊎ ((r.1.file ≡ s.file) × (r.1.state ≡ s.state))))

result-Kept :
    {E A : Type 0} (s : FileStore) (r : Result E A × FileStore)
    → ((x : E) → r.0 ≡ err x → r.1.file ≡ s.file)
    → ((a : A)
        → r.0 ≡ ok a
        → (r.1.file ≡ json r.1.state) ⊎ ((r.1.file ≡ s.file) × (r.1.state ≡ s.state)))
    → Kept s r
result-Kept s r bad good = elim (Result-cases r.0) [
  | inl (a, e) ↦ inr (a, e, good a e)
  | inr (x, e) ↦ inl (x, e, bad x e)
]

run_op-saved :
    (f : Faults) (op : Op) (s : FileStore) (c : ClusterState)
    → (run_op f op s).0 ≡ ok c
    → ((run_op f op s).1.file ≡ json (run_op f op s).1.state)
      ⊎ (((run_op f op s).1.file ≡ s.file) × ((run_op f op s).1.state ≡ s.state))
unfolding run_op save_locked
run_op-saved f (remove h r) s c e = ground arith
run_op-saved f op s c e = ground arith

run_op-Kept : (f : Faults) (op : Op) (s : FileStore) → Kept s (run_op f op s)
run_op-Kept f op s =
    result-Kept s (run_op f op s) (λ x e. (run_op_error f op s e).0) (run_op-saved f op s)

fail_store-Kept :
    (s : FileStore) (r : Result StoreError ClusterState × FileStore)
    → Kept s r
    → Kept s (fail_store r)
unfolding fail_store
fail_store-Kept s (ok c, t) k =
    result-Kept s (fail_store (ok c, t)) (λ x e. ground (arith, e)) (λ a e. ground (arith, e, k))
fail_store-Kept s (err e, t) k =
    result-Kept s (fail_store (err e, t)) (λ x h. ground (arith, k)) (λ a h. ground (arith, h))

pub perform-Kept :
    (f : Faults) (action : String) (reg : NodeRegistration) (s : FileStore)
    → Kept s (perform f action reg s)
unfolding perform run_op
perform-Kept f action reg s = elim (Bool-cases (action == "register")) [
  | inl e ↦ rw e (fail_store-Kept s (run_op f (add reg) s) (run_op-Kept f (add reg) s))
  | inr n ↦ rw n (elim (Bool-cases (action == "deregister")) [
    | inl e ↦ rw e (
        fail_store-Kept s (run_op f (remove reg.hostname reg.role) s)
          (run_op-Kept f (remove reg.hostname reg.role) s))
    | inr n ↦ rw n (elim (Bool-cases (action == "storage-ready")) [
      | inl e ↦ rw e (
          fail_store-Kept s (run_op f (storage_ready true) s)
            (run_op-Kept f (storage_ready true) s))
      | inr n ↦ rw n (elim (Bool-cases (action == "check-status")) [
        | inl e ↦ rw e (inr (s.state, refl, inr (refl, refl)))
        | inr n ↦ rw n (inl (unknown_action, refl, refl))
      ])
    ])
  ])
]

-- What a registration or deregistration leaves under a key that had `before`, and every other action.
abbrev pub entry_after :
    String
    → NodeRegistration
    → (h r : String) (before : Option NodeRegistration) → Option NodeRegistration
entry_after action reg h r before =
    let mine = reg.hostname == h && reg.role == r in
    if action == "register"
    then if mine then some reg else before
    else if action == "deregister"
    then if mine then none else before
    else before

pub perform-find :
    (f : Faults) (action : String) (reg : NodeRegistration) (s : FileStore) (h r : String)
    → Unique s.state.nodes
    → find h r (perform f action reg s).1.state.nodes
      ≡ entry_after action reg h r (find h r s.state.nodes)
perform-find f action reg s h r u = elim (Bool-cases (action == "register")) [
  | inl e ↦ rw (perform-op, e) (find-add f reg s h r)
  | inr n ↦ elim (Bool-cases (action == "deregister")) [
    | inl e ↦ rw (perform-op, n, e) (find-remove f reg.hostname reg.role s h r u)
    | inr m ↦ elim (Bool-cases (action == "storage-ready")) [
      | inl e ↦
          rw (perform-op, n, m, e)
            (ap (λ c. find h r c.nodes) (run_op-state f (storage_ready true) s))
      | inr k ↦ rw (perform-op, n, m, k) refl
    ]
  ]
]
