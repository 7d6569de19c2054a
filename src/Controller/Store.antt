-- ===== src/Controller/Store.antt =====
-- internal/controller/store.go. Each method holds the store's mutex from beginning to end, so
-- that it is one step. The file holds what `json.MarshalIndent` wrote, and `json.Unmarshal` reads
-- that back. A write to disk fails where the given faults say so.
pub mod Keys
pub mod Commit
pub mod Durable
use docker_swarm_cluster_con.Prelude.{
  String, Bool, true, false, ◌&&◌, ◌||◌, not, List, [], ◌∷◌, Option, none, some, Result, ok, err,
  ◌==◌, if◌then◌else◌, filter, ◌^^◌,
}
use docker_swarm_cluster_con.Controller.Types.{
  NodeRegistration, NodeResponse, ClusterState, zero_state,
}

pub data FileContent : Type 0 where
  absent empty corrupt unreadable : FileContent
  json : ClusterState → FileContent

-- Which calls of a save fail.
pub record Faults : Type 0 where
  pub write_fails : Bool
  pub rename_fails : Bool

pub data StoreError : Type 0 where
  no_state_dir corrupt_state write_failed rename_failed mkdir_failed read_failed keys_failed
        remove_failed :
      StoreError

-- `file` is state.json and `tmp` the temporary file beside it.
pub record FileStore : Type 0 where
  pub state : ClusterState
  pub last_responses : List (String × NodeResponse)
  pub file : FileContent
  pub tmp : FileContent

-- `loadLocked` on the file's content
unfoldable pub load_state : FileContent → Result StoreError ClusterState
load_state absent = ok zero_state
load_state empty = ok zero_state
load_state corrupt = err corrupt_state
load_state unreadable = err read_failed
load_state (json s) = ok s

opened : FileContent → FileContent → Result StoreError ClusterState → Result StoreError FileStore
opened file tmp (ok s) = ok (record { state = s; last_responses = []; file = file; tmp = tmp })
opened file tmp (err e) = err e

-- `newFileStore`: the state directory's name, whether it cannot be made, and what is in it
unfoldable pub new_file_store :
    String → (mkdir_fails : Bool) → (file tmp : FileContent) → Result StoreError FileStore
unfolding load_state opened
new_file_store dir mkdir_fails file tmp =
    if dir == ""
    then err no_state_dir
    else if mkdir_fails
    then err mkdir_failed
    else opened file tmp (load_state file)

unfoldable pub save_locked : Faults → FileStore → Option StoreError × FileStore
save_locked f s =
    if f.write_fails
    then (some write_failed, record s { tmp = corrupt })
    else if f.rename_fails
    then (some rename_failed, record s { tmp = json s.state })
    else (none, record s { file = json s.state; tmp = absent })

-- How every mutator ends: the zero state beside an error, and else the state.
saved : Option StoreError × FileStore → Result StoreError ClusterState × FileStore
saved (some e, s) = (err e, s)
saved (none, s) = (ok s.state, s)

-- A change of the state in memory that is then saved.
unfoldable pub commit :
    Faults → (ClusterState → ClusterState) → FileStore → Result StoreError ClusterState × FileStore
unfolding save_locked saved
commit f change s = saved (save_locked f (record s { state = change s.state }))

unfoldable pub is_node : String → String → NodeRegistration → Bool
is_node hostname role n = n.hostname == hostname && n.role == role

-- The first registration of the same node is replaced, and else the new one is appended.
unfoldable pub upsert : NodeRegistration → List NodeRegistration → List NodeRegistration
unfolding is_node
upsert reg [] = reg ∷ []
upsert reg (n ∷ ns) = if is_node reg.hostname reg.role n then reg ∷ ns else n ∷ upsert reg ns

unfoldable pub add_registration :
    Faults → NodeRegistration → FileStore → Result StoreError ClusterState × FileStore
unfolding commit upsert
add_registration f reg = commit f (λ c. record c { nodes = upsert reg c.nodes })

-- none if no registration has the name and the role
unfoldable pub remove_first :
    String → String → List NodeRegistration → Option (List NodeRegistration)
unfolding is_node
remove_first hostname role [] = none
remove_first hostname role (n ∷ ns) =
    let rest = remove_first hostname role ns in
    if is_node hostname role n
    then some ns
    else elim rest [ none ↦ none | some ns' ↦ some (n ∷ ns') ]

unfoldable pub remove_registration :
    Faults → String → String → FileStore → Result StoreError ClusterState × FileStore
unfolding commit remove_first
remove_registration f hostname role s = elim (remove_first hostname role s.state.nodes) [
  | none ↦ (ok s.state, s)
  | some ns ↦ commit f (λ c. record c { nodes = ns }) s
]

unfoldable pub reset : Faults → FileStore → Result StoreError ClusterState × FileStore
unfolding commit
reset f = commit f (λ c. zero_state)

unfoldable pub set_storage_config :
    Faults → Bool → String → FileStore → Result StoreError ClusterState × FileStore
unfolding commit
set_storage_config f enabled type =
    commit f (λ c. record c { storage_enabled = enabled; storage_type = type })

unfoldable pub set_storage_ready :
    Faults → Bool → FileStore → Result StoreError ClusterState × FileStore
unfolding commit
set_storage_ready f ready = commit f (λ c. record c { storage_ready = ready })

unfoldable pub set_portainer_deployer :
    Faults → String → FileStore → Result StoreError ClusterState × FileStore
unfolding commit
set_portainer_deployer f hostname =
    commit f (λ c. record c { portainer_deployer_hostname = hostname })

unfoldable pub set_storage_orchestrated :
    Faults → Bool → FileStore → Result StoreError ClusterState × FileStore
unfolding commit
set_storage_orchestrated f b = commit f (λ c. record c { storage_orchestrated = b })

unfoldable pub set_swarm_orchestrated :
    Faults → Bool → FileStore → Result StoreError ClusterState × FileStore
unfolding commit
set_swarm_orchestrated f b = commit f (λ c. record c { swarm_orchestrated = b })

unfoldable pub get_storage_nodes : FileStore → List NodeRegistration
get_storage_nodes s = filter (λ n. n.storage_enabled || n.gluster_capable) s.state.nodes

response_key : String → String → String
response_key hostname role = hostname ^^ (":" ^^ role)

lookup_response : String → List (String × NodeResponse) → Option NodeResponse
lookup_response k [] = none
lookup_response k ((j, r) ∷ rest) = if j == k then some r else lookup_response k rest

unfoldable pub get_last_response : FileStore → String → String → Option NodeResponse
unfolding response_key lookup_response
get_last_response s hostname role = lookup_response (response_key hostname role) s.last_responses

-- The newest entry of a key stands first.
unfoldable pub set_last_response : String → String → NodeResponse → FileStore → FileStore
unfolding response_key
set_last_response hostname role resp s = record s {
  last_responses = (response_key hostname role, resp) ∷ s.last_responses;
}
