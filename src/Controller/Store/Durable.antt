-- ===== src/Controller/Store/Durable.antt =====
-- What a sequence of store operations leaves in memory and on disk, when any save may fail:
-- internal/controller/store.go.
use docker_swarm_cluster_con.Prelude.{
  String, ◌≡◌, ◌≢◌, refl, Bool, List, [], ◌∷◌, none, some, Result, ok, err, arith, ◌==◌, ◌&&◌,
  if◌then◌else◌, Option-cases, inl, inr, ◌⊎◌, eq_refl, subst, sym, ◌∙◌,
}
use docker_swarm_cluster_con.Controller.Types.{
  NodeRegistration, NodeResponse, ClusterState, zero_state,
}
use docker_swarm_cluster_con.Controller.Store.{
  FileStore, json, Faults, StoreError, load_state, save_locked, upsert, remove_first,
  add_registration, remove_registration, reset, set_storage_config, set_storage_ready,
  set_portainer_deployer, set_storage_orchestrated, set_swarm_orchestrated, set_last_response,
}
use docker_swarm_cluster_con.Controller.Store.Keys.{
  find, Unique, find-upsert_list, upsert-Unique, without, find-without_list, without-Unique,
}

-- The calls that change the store.
pub data Op : Type 0 where
  add : NodeRegistration → Op
  remove : String → String → Op
  clear : Op
  storage_config : Bool → String → Op
  storage_ready : Bool → Op
  portainer_deployer : String → Op
  storage_orchestrated : Bool → Op
  swarm_orchestrated : Bool → Op

unfoldable pub run_op : Faults → Op → FileStore → Result StoreError ClusterState × FileStore
unfolding add_registration remove_registration reset set_storage_config set_storage_ready
    set_portainer_deployer set_storage_orchestrated set_swarm_orchestrated
run_op f (add reg) s = add_registration f reg s
run_op f (remove h r) s = remove_registration f h r s
run_op f clear s = reset f s
run_op f (storage_config b t) s = set_storage_config f b t s
run_op f (storage_ready b) s = set_storage_ready f b s
run_op f (portainer_deployer h) s = set_portainer_deployer f h s
run_op f (storage_orchestrated b) s = set_storage_orchestrated f b s
run_op f (swarm_orchestrated b) s = set_swarm_orchestrated f b s

-- What an operation means for the state, independently of the disk.
abbrev pub meaning : Op → ClusterState → ClusterState
meaning (add reg) c = record c { nodes = upsert reg c.nodes }
meaning (remove h r) c = record c { nodes = without h r c.nodes }
meaning clear c = zero_state
meaning (storage_config b t) c = record c { storage_enabled = b; storage_type = t }
meaning (storage_ready b) c = record c { storage_ready = b }
meaning (portainer_deployer h) c = record c { portainer_deployer_hostname = h }
meaning (storage_orchestrated b) c = record c { storage_orchestrated = b }
meaning (swarm_orchestrated b) c = record c { swarm_orchestrated = b }

-- A removal writes to disk only if it finds something.
abbrev pub Saves : Op → FileStore → Type 0
Saves (remove h r) s = find h r s.state.nodes ≢ none
Saves _ s = Unit

remove_first-none :
    (h r : String) (ns : List NodeRegistration) → remove_first h r ns ≡ none → find h r ns ≡ none
unfolding remove_first find
remove_first-none h r [] e = refl
remove_first-none h r (n ∷ ns) e = ground (arith, remove_first-none h r ns)

find-none-remove :
    (h r : String) (ns : List NodeRegistration) → find h r ns ≡ none → remove_first h r ns ≡ none
unfolding remove_first find
find-none-remove h r [] e = refl
find-none-remove h r (n ∷ ns) e = ground (arith, find-none-remove h r ns)

-- The memory has the operation's effect whether or not the save succeeded.
pub run_op-state :
    (f : Faults) (op : Op) (s : FileStore) → (run_op f op s).1.state ≡ meaning op s.state
unfolding run_op save_locked
run_op-state f (remove h r) s = ground arith
run_op-state f op s = ground arith

-- An operation that returns without an error has written its result to the file, provided that it
-- saves at all: a removal that finds no registration does not.
pub run_op_durable :
    (f : Faults) (op : Op) (s : FileStore) {c : ClusterState}
    → Saves op s
    → (run_op f op s).0 ≡ ok c
    → (c ≡ meaning op s.state) × ((run_op f op s).1.file ≡ json c)
unfolding run_op save_locked
run_op_durable f (remove h r) s {c} saves e = elim (Option-cases (remove_first h r s.state.nodes)) [
  | inl gone ↦ absurd (saves (remove_first-none h r s.state.nodes gone))
  | inr (ns, found) ↦ ground (arith, found)
]
run_op_durable f op s saves e = ground arith

-- An operation that returns an error has left the file as it was, and has changed the memory.
pub run_op_error :
    (f : Faults) (op : Op) (s : FileStore) {x : StoreError}
    → (run_op f op s).0 ≡ err x
    → ((run_op f op s).1.file ≡ s.file) × ((run_op f op s).1.state ≡ meaning op s.state)
unfolding run_op save_locked
run_op_error f (remove h r) s e = ground arith
run_op_error f op s e = ground arith

-- The registrations in memory have distinct keys, and so do those that a restart would read.
pub record IsSound (s : FileStore) : Type 0 where
  pub unique : Unique s.state.nodes
  pub on_disk : ClusterState
  pub loads : load_state s.file ≡ ok on_disk
  pub disk_unique : Unique on_disk.nodes

meaning-Unique : (op : Op) (c : ClusterState) → Unique c.nodes → Unique (meaning op c).nodes
meaning-Unique (add reg) c u = upsert-Unique reg c.nodes u
meaning-Unique (remove h r) c u = without-Unique h r c.nodes u
meaning-Unique clear c u = tt
meaning-Unique _ c u = u

-- After any operation, failing or not, the file is as it was or holds the new state.
run_op-file :
    (f : Faults) (op : Op) (s : FileStore)
    → ((run_op f op s).1.file ≡ s.file) ⊎ ((run_op f op s).1.file ≡ json (meaning op s.state))
unfolding run_op save_locked
run_op-file f (remove h r) s = ground arith
run_op-file f op s = ground arith

run_op-IsSound : (f : Faults) (op : Op) (s : FileStore) → IsSound s → IsSound (run_op f op s).1
unfolding load_state
run_op-IsSound f op s v =
    let u : Unique (run_op f op s).1.state.nodes =
      rw (run_op-state f op s) (meaning-Unique op s.state v.unique) in
    elim (run_op-file f op s) [
      | inl same ↦ record {
        unique = u;
        on_disk = v.on_disk;
        loads = rw same v.loads;
        disk_unique = v.disk_unique;
      }
      | inr new ↦ record {
        unique = u;
        on_disk = meaning op s.state;
        loads = rw new refl;
        disk_unique = meaning-Unique op s.state v.unique;
      }
    ]

-- One step of the controller's connections and background work, in any interleaving: an operation
-- with any faults, or a response that is remembered.
pub data Step (s : FileStore) : FileStore → Type 0 where
  operate : (f : Faults) (op : Op) {t : FileStore} → t ≡ (run_op f op s).1 → Step s t
  remember :
      (h r : String) (resp : NodeResponse) {t : FileStore}
      → t ≡ set_last_response h r resp s
      → Step s t

pub data Reach (s : FileStore) : FileStore → Type 0 where
  here : Reach s s
  next : {t u : FileStore} → Reach s t → Step t u → Reach s u

pub Reach-trans : {s t u : FileStore} → Reach s t → Reach t u → Reach s u
Reach-trans p here = p
Reach-trans p (next q st) = next (Reach-trans p q) st

Step-IsSound : {s t : FileStore} → Step s t → IsSound s → IsSound t
unfolding set_last_response
Step-IsSound {s} (operate f op e) v = subst IsSound (sym e) (run_op-IsSound f op s v)
Step-IsSound (remember h r resp e) v = subst IsSound (sym e) (record {
  unique = v.unique;
  on_disk = v.on_disk;
  loads = v.loads;
  disk_unique = v.disk_unique;
})

-- Whatever the interleaving of operations and whichever saves fail, a store that was sound stays
-- sound: no node is registered twice in a role, in memory or on disk, and the file can be read back.
pub Reach-IsSound : {s t : FileStore} → IsSound s → Reach s t → IsSound t
Reach-IsSound v here = v
Reach-IsSound v (next r st) = Step-IsSound st (Reach-IsSound v r)

-- A registration is found under its key after it was added, and no other key is affected, whether
-- or not the save succeeded.
pub find-add :
    (f : Faults) (reg : NodeRegistration) (s : FileStore) (h r : String)
    → find h r (run_op f (add reg) s).1.state.nodes
      ≡ (if reg.hostname == h && reg.role == r then some reg else find h r s.state.nodes)
find-add f reg s h r = rw (run_op-state f (add reg) s) (find-upsert_list reg s.state.nodes h r)

-- Where keys are distinct, a removed key is found no more, and no other key is affected.
pub find-remove :
    (f : Faults) (a b : String) (s : FileStore) (h r : String)
    → Unique s.state.nodes
    → find h r (run_op f (remove a b) s).1.state.nodes
      ≡ (if a == h && b == r then none else find h r s.state.nodes)
find-remove f a b s h r u =
    rw (run_op-state f (remove a b) s) (find-without_list a b s.state.nodes h r u)

remove-absent :
    (f : Faults) (h r : String) (s : FileStore)
    → find h r s.state.nodes ≡ none
    → run_op f (remove h r) s ≡ (ok s.state, s)
unfolding run_op
remove-absent f h r s e = ground (arith, find-none-remove h r s.state.nodes e)

-- Where keys are distinct, a removal whose save failed is not made up for by repeating it: the
-- repetition finds nothing in memory and reports success, and the file still loads what it loaded
-- before both, so that a restart brings the registration back.
pub remove_again_not_durable :
    (f g : Faults) (h r : String) (s : FileStore) {x : StoreError} {c : ClusterState}
    → Unique s.state.nodes
    → load_state s.file ≡ ok c
    → (run_op f (remove h r) s).0 ≡ err x
    → let t = (run_op f (remove h r) s).1 in
      ((run_op g (remove h r) t).0 ≡ ok t.state)
      × (find h r (run_op g (remove h r) t).1.state.nodes ≡ none)
      × (load_state (run_op g (remove h r) t).1.file ≡ ok c)
remove_again_not_durable f g h r s {x} un loads failed =
    let t = (run_op f (remove h r) s).1 in
    let gone : find h r t.state.nodes ≡ none =
      find-remove f h r s h r un ∙ rw (eq_refl h, eq_refl r) refl in
    rw (remove-absent g h r t gone)
      (refl, gone, rw ((run_op_error f (remove h r) s {x = x} failed).0) loads)
