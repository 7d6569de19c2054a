-- ===== src/Controller/Handler.antt =====
-- `handleConn`, `countRoles` and `hasResponseChanged` of internal/controller/server.go. What is only
-- logged is left out (the resolved address, the counts), and so are the connection's deadline and
-- the failure to write the response, after which nothing else happens.
pub mod Status
pub mod Performed
pub mod Effects
pub mod Tests
use docker_swarm_cluster_con.Prelude.{
  ℕ, zero, suc, ◌+◌, String, Bool, true, false, ◌&&◌, ◌||◌, not, List, [], ◌∷◌, Option, none, some,
  Result, ok, err, ◌==◌, leb, if◌then◌else◌, contains, ◌^^◌,
}
use docker_swarm_cluster_con.Swarm.{Docker, SwarmError, join_token}
use docker_swarm_cluster_con.Controller.Types.{
  ServeOptions, NodeRegistration, NodeResponse, NodeResponseStatus, ready, waiting, other,
  ClusterState,
}
use docker_swarm_cluster_con.Controller.Store.{
  FileStore, Faults, StoreError, add_registration, remove_registration, set_storage_ready,
  get_last_response, set_last_response,
}

-- What a connection delivers: nothing, the first byte of a TLS greeting, something that is not a
-- registration, or one.
pub data Incoming : Type 0 where
  closed tls malformed : Incoming
  request : NodeRegistration → Incoming

pub data HandlerError : Type 0 where
  peek_failed decode_failed unknown_action : HandlerError
  store_failed : StoreError → HandlerError

abbrev pub action_of : NodeRegistration → String
action_of reg = if reg.action == "" then "register" else reg.action

-- managers, then workers
unfoldable pub count_roles : List NodeRegistration → ℕ × ℕ
count_roles [] = (0, 0)
count_roles (n ∷ ns) =
    let (managers, workers) = count_roles ns in
    if n.role == "manager"
    then (managers + 1, workers)
    else if n.role == "worker"
    then (managers, workers + 1)
    else (managers, workers)

status_changed : NodeResponseStatus → NodeResponseStatus → Bool
status_changed ready ready = false
status_changed waiting waiting = false
status_changed (other a) (other b) = not (a == b)
status_changed _ _ = true

bool_changed : Bool → Bool → Bool
bool_changed true b = not b
bool_changed false b = b

unfoldable pub has_response_changed : NodeResponse → NodeResponse → Bool
unfolding status_changed bool_changed
has_response_changed old new =
    status_changed old.status new.status
    || not (old.swarm_join_token == new.swarm_join_token)
    || bool_changed old.storage_enabled new.storage_enabled
    || bool_changed old.storage_ready new.storage_ready

fail_store :
    Result StoreError ClusterState × FileStore → Result HandlerError ClusterState × FileStore
fail_store (ok c, s) = (ok c, s)
fail_store (err e, s) = (err (store_failed e), s)

-- The switch on the action.
unfoldable pub perform :
    Faults → String → NodeRegistration → FileStore → Result HandlerError ClusterState × FileStore
unfolding fail_store
perform f action reg s =
    if action == "register"
    then fail_store (add_registration f reg s)
    else if action == "deregister"
    then fail_store (remove_registration f reg.hostname reg.role s)
    else if action == "storage-ready"
    then fail_store (set_storage_ready f true s)
    else if action == "check-status"
    then (ok s.state, s)
    else (err unknown_action, s)

manager_address : String → String
manager_address addr =
    if addr == "" then addr else if contains addr ":" then addr else addr ^^ ":2377"

-- The status before storage is looked at. The primary master counts as one more manager.
unfoldable pub first_status : ServeOptions → String → List NodeRegistration → NodeResponseStatus
unfolding count_roles
first_status opts action nodes =
    let (managers, workers) = count_roles nodes in
    if action == "deregister"
    then ready
    else if not opts.wait_for_minimum
    then ready
    else if leb opts.min_managers (managers + 1) && leb opts.min_workers workers
    then ready
    else waiting

abbrev pub is_ready : NodeResponseStatus → Bool
is_ready ready = true
is_ready _ = false

abbrev pub swarm_roles : String → Bool
swarm_roles role = role == "manager" || role == "worker" || role == "both"

token_or_empty : Result SwarmError String → String
token_or_empty (ok t) = t
token_or_empty (err e) = ""

-- The part of the response that depends on storage.
with_storage : NodeRegistration → ClusterState → NodeResponse → NodeResponse
with_storage reg state resp =
    if reg.storage_enabled && state.storage_enabled
    then record resp {
      storage_enabled = true;
      storage_ready = state.storage_ready;
      status = if swarm_roles reg.role && not state.storage_ready then waiting else resp.status;
    }
    else resp

module _ {W : Type 0} (docker : Docker W) (opts : ServeOptions) (ssh_public_key : String) where
  -- The join token that a response carries, the empty text if none is issued.
  issue_token : String → NodeResponseStatus → NodeRegistration → W → String × W
  unfolding token_or_empty
  issue_token action status reg w =
      let (r, w₁) = join_token docker reg.role w in
      if action == "register" && is_ready status && swarm_roles reg.role
      then (token_or_empty r, w₁)
      else ("", w)

  unfoldable pub respond : String → NodeRegistration → ClusterState → W → NodeResponse × W
  unfolding issue_token first_status manager_address with_storage
  respond action reg state w =
      let status = first_status opts action state.nodes in
      let (token, w₁) = issue_token action status reg w in
      let resp : NodeResponse = record {
        status = status;
        swarm_role = reg.role;
        swarm_join_token = token;
        swarm_manager_addr = manager_address opts.advertise_addr;
        overlay_type = "";
        overlay_payload = "";
        storage_enabled = false;
        storage_type = "";
        storage_ready = false;
        storage_nodes = [];
        deploy_portainer = false;
        ssh_public_key = ssh_public_key;
      } in
      (with_storage reg state resp, w₁)

  -- A response to a status query is remembered if it differs from the last one.
  remembered : String → NodeRegistration → NodeResponse → FileStore → FileStore
  remembered action reg resp s =
      let changed : Bool = elim (get_last_response s reg.hostname reg.role) [
        | none ↦ true
        | some last ↦ has_response_changed last resp
      ] in
      if action == "check-status" && changed
      then set_last_response reg.hostname reg.role resp s
      else s

  finish :
      String
      → NodeRegistration
      → Result HandlerError ClusterState × FileStore
      → W
      → Result HandlerError (Option NodeResponse) × FileStore × W
  unfolding respond remembered
  finish action reg (err e, s) w = (err e, s, w)
  finish action reg (ok state, s) w =
      let (resp, w₁) = respond action reg state w in
      (ok (some resp), remembered action reg resp s, w₁)

  -- The result is the response that is written, none for an ignored connection.
  unfoldable pub handle_conn :
      Faults
      → (now : ℕ) → Incoming
      → FileStore
      → W
      → Result HandlerError (Option NodeResponse) × FileStore × W
  unfolding finish perform
  handle_conn f now closed s w = (err peek_failed, s, w)
  handle_conn f now tls s w = (ok none, s, w)
  handle_conn f now malformed s w = (err decode_failed, s, w)
  handle_conn f now (request reg) s w =
      let stamped = record reg { timestamp = now } in
      finish (action_of reg) stamped (perform f (action_of reg) stamped s) w
