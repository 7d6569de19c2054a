-- ===== src/Swarm/Calls.antt =====
-- The functions of internal/swarm/swarm.go.
use docker_swarm_cluster_con.Prelude.{
  String, Bool, true, false, ◌||◌, List, [], ◌∷◌, ◌++◌, Result, ok, err, ◌==◌, if◌then◌else◌,
  trim_space, contains,
}
use docker_swarm_cluster_con.Defaults.{NetworkConfig, all_networks}

pub data SwarmError : Type 0 where
  ensure_failed docker_failed empty_token arguments_required name_required : SwarmError
  invalid_role : String → SwarmError

-- The docker installation: `ensure` is `deps.EnsureDockerWithCompose`, `run` a docker command with
-- its arguments, which ends in an error with some output or in success with its output.
pub record Docker (W : Type 0) : Type 0 where
  pub ensure : W → Bool × W
  pub run : List String → W → Result String String × W

-- The output of `join-token`, which may not be empty.
token_of : Result SwarmError String → Result SwarmError String
token_of (err e) = err e
token_of (ok token) = if token == "" then err empty_token else ok token

-- "both" nodes join as managers.
unfoldable pub token_role : String → String
token_role role = if role == "both" then "manager" else role

create_args : NetworkConfig → List String
create_args spec =
    ("network" ∷ "create" ∷ "--driver" ∷ "overlay" ∷ "--attachable" ∷ [])
    ++ ((if spec.internal then "--internal" ∷ [] else [])
        ++ ((if spec.subnet == "" then [] else "--subnet" ∷ spec.subnet ∷ [])
            ++ ((if spec.gateway == "" then [] else "--gateway" ∷ spec.gateway ∷ [])
                ++ (spec.name ∷ []))))

module _ {W : Type 0} (docker : Docker W) where
  -- A command whose output is wanted: `cmd.Output()` behind `EnsureDockerWithCompose`.
  query : List String → W → Result SwarmError String × W
  query args w =
      let (fine, w₁) = docker.ensure w in
      elim fine [
        | false ↦ (err ensure_failed, w₁)
        | true ↦
            let (r, w₂) = docker.run args w₁ in
            elim r [ err _ ↦ (err docker_failed, w₂) | ok out ↦ (ok (trim_space out), w₂) ]
      ]

  -- A command whose success alone is wanted: `cmd.CombinedOutput()`.
  command : List String → W → Result SwarmError (Unit {0}) × W
  command args w =
      let (r, w₁) = docker.run args w in
      elim r [ err _ ↦ (err docker_failed, w₁) | ok _ ↦ (ok tt, w₁) ]

  unfoldable pub is_active : W → Result SwarmError Bool × W
  unfolding query
  is_active w =
      let (r, w₁) = query ("info" ∷ "--format" ∷ "{{.Swarm.LocalNodeState}}" ∷ []) w in
      elim r [ err e ↦ (err e, w₁) | ok state ↦ (ok (state == "active"), w₁) ]

  -- `Init`, `Join` and `Leave` go on where the state could not be asked for.
  unfoldable pub init : String → W → Result SwarmError (Unit {0}) × W
  unfolding is_active command
  init advertise_addr w =
      let (active, w₁) = is_active w in
      let args =
        (if advertise_addr == ""
          then "swarm" ∷ "init" ∷ []
          else "swarm" ∷ "init" ∷ "--advertise-addr" ∷ advertise_addr ∷ []) in
      elim active [ ok true ↦ (ok tt, w₁) | _ ↦ command args w₁ ]

  unfoldable pub join : String → String → W → Result SwarmError (Unit {0}) × W
  unfolding is_active command
  join token manager_addr w =
      let (active, w₁) = is_active w in
      let joined : Result SwarmError (Unit {0}) × W = elim active [
        | ok true ↦ (ok tt, w₁)
        | _ ↦ command ("swarm" ∷ "join" ∷ "--token" ∷ token ∷ manager_addr ∷ []) w₁
      ] in
      if token == "" || manager_addr == "" then (err arguments_required, w) else joined

  unfoldable pub leave : Bool → W → Result SwarmError (Unit {0}) × W
  unfolding is_active command
  leave force w =
      let (active, w₁) = is_active w in
      let args = "swarm" ∷ "leave" ∷ (if force then "--force" ∷ [] else []) in
      elim active [ ok false ↦ (ok tt, w₁) | _ ↦ command args w₁ ]

  unfoldable pub join_token : String → W → Result SwarmError String × W
  unfolding query token_of token_role
  join_token role w =
      let tr = token_role role in
      let asked = query ("swarm" ∷ "join-token" ∷ "-q" ∷ tr ∷ []) w in
      if tr == "manager" || tr == "worker"
      then (token_of asked.0, asked.1)
      else (err (invalid_role role), w)

  -- The subnet of a network, the empty text if it cannot be had.
  get_network_subnet : String → W → String × W
  get_network_subnet name w =
      let (r, w₁) =
        docker.run
          ("network" ∷ "inspect" ∷ name ∷ "--format" ∷ "{{range .IPAM.Config}}{{.Subnet}}{{end}}"
            ∷ [])
          w in
      elim r [ err _ ↦ ("", w₁) | ok out ↦ (trim_space out, w₁) ]

  -- A network that is not there counts as removed.
  remove_network : String → W → Result SwarmError (Unit {0}) × W
  remove_network name w =
      let (r, w₁) = docker.run ("network" ∷ "rm" ∷ name ∷ []) w in
      elim r [
        | ok _ ↦ (ok tt, w₁)
        | err out ↦ (
          if contains out "not found" || contains out "No such network"
              then ok tt
              else err docker_failed,
          w₁,
        )
      ]

  replace_network : NetworkConfig → W → Result SwarmError (Unit {0}) × W
  unfolding remove_network create_args command
  replace_network spec w =
      let (r, w₁) = remove_network spec.name w in
      elim r [ err e ↦ (err e, w₁) | ok _ ↦ command (create_args spec) w₁ ]

  -- After `EnsureDockerWithCompose`: an existing network is kept if its subnet is right.
  converge_network : NetworkConfig → W → Result SwarmError (Unit {0}) × W
  unfolding get_network_subnet replace_network
  converge_network spec w =
      let (existing, w₁) = get_network_subnet spec.name w in
      if existing == ""
      then command (create_args spec) w₁
      else if existing == spec.subnet
      then (ok tt, w₁)
      else replace_network spec w₁

  unfoldable pub ensure_overlay_network : NetworkConfig → W → Result SwarmError (Unit {0}) × W
  unfolding converge_network
  ensure_overlay_network spec w =
      let (fine, w₁) = docker.ensure w in
      let converged = (if fine then converge_network spec w₁ else (err ensure_failed, w₁)) in
      if spec.name == "" then (err name_required, w) else converged

  -- The loop over the networks: the first error ends it.
  pub ensure_networks : List NetworkConfig → W → Result SwarmError (Unit {0}) × W
  unfolding ensure_overlay_network
  ensure_networks [] w = (ok tt, w)
  ensure_networks (n ∷ ns) w =
      let (r, w₁) = ensure_overlay_network n w in
      elim r [ err e ↦ (err e, w₁) | ok _ ↦ ensure_networks ns w₁ ]

  unfoldable pub ensure_default_networks : W → Result SwarmError (Unit {0}) × W
  unfolding ensure_networks
  ensure_default_networks w = ensure_networks all_networks w
