-- ===== src/Storage/MicroCeph/Members.antt =====
-- `Install`, `Bootstrap`, `GenerateJoinToken` and `Join` of internal/storage/microceph.go.
pub mod Joined
pub mod Tests
use docker_swarm_cluster_con.Prelude.{
  ℕ, suc, zero, ◌*◌, String, Bool, true, false, ◌&&◌, ◌||◌, not, List, [], ◌∷◌, Option, none, some,
  ok, err, ◌==◌, if◌then◌else◌, contains, to_lower, trim_space, ◌^^◌,
}
use docker_swarm_cluster_con.Prelude.Action.{Action, ◌>>=◌, ◌>>◌, return, fail, best_effort, each}
use docker_swarm_cluster_con.Config.{Config}
use docker_swarm_cluster_con.Defaults.{micro_ceph_snap_channel}
use docker_swarm_cluster_con.Retry.{second}
use docker_swarm_cluster_con.Ssh.{RunResult}
use docker_swarm_cluster_con.IpDetect.Networks.{Decoders, NetworkInfo}
use docker_swarm_cluster_con.IpDetect.Remote.{detect_network_info_ssh, resolve_node_address_ssh}
use docker_swarm_cluster_con.Storage.MicroCeph.{
  CephError, install_failed, bootstrap_failed, status_failed, no_address, add_failed, no_token,
  join_failed, status_cmd, exec,
}

abbrev pub hold_cmd : String
hold_cmd = "snap refresh --hold microceph"

abbrev pub daemon_cmd : String
daemon_cmd =
    "systemctl status snap.microceph.daemon.service --no-pager 2>/dev/null | grep -q \"active (running)\" && echo \"running\" || echo \"not running\""

abbrev pub disk_list_cmd : String
disk_list_cmd = "microceph disk list --json"

install_cmd : Config → String
install_cmd c =
    let channel = c.global_settings.distributed_storage.microceph.snap_channel in
    "snap install microceph --channel="
    ^^ (if channel == "" then micro_ceph_snap_channel else channel)

bootstrap_cmd : Option NetworkInfo → String
bootstrap_cmd none = "microceph cluster bootstrap"
bootstrap_cmd (some n) =
    "microceph cluster bootstrap --microceph-ip "
    ^^ (n.ip ^^ (" --mon-ip " ^^ (n.ip ^^ (" --cluster-network " ^^ n.cidr))))

-- What a failed command says where the work had been done before.
unfoldable pub was_bootstrapped : RunResult → Bool
unfolding contains
was_bootstrapped r =
    contains r.stderr "already"
    || (contains r.stderr "exists"
        || (contains r.stderr "initialized"
            || contains r.stderr "This node is already part of a MicroCeph cluster"))

unfoldable pub was_added : RunResult → Bool
unfolding contains
was_added r =
    contains r.stderr "already"
    || (contains r.stderr "exists" || contains r.stderr "is already a cluster member")

unfoldable pub was_joined : RunResult → Bool
unfolding contains to_lower
was_joined r =
    let lower = to_lower r.stderr in
    contains lower "already"
    || (contains lower "member"
        || (contains lower "remote with address" || contains lower "already exists"))

unfoldable pub join_cmd : (token ip : String) → String
join_cmd token ip =
    if ip == ""
    then "microceph cluster join " ^^ token
    else "microceph cluster join " ^^ (token ^^ (" --microceph-ip '" ^^ (ip ^^ "'")))

module _ {W : Type 0} (d : Decoders) (run : String → String → W → RunResult × W) (sleep : ℕ → W → W)
    (c : Config) where
  hold : (node : String) → Action W CephError (Unit {0})
  unfolding exec
  hold node =
      if c.global_settings.distributed_storage.microceph.enable_updates
      then return tt
      else do r ← exec run node hold_cmd; return tt

  after_install : (node : String) → RunResult → Action W CephError (Unit {0})
  unfolding hold contains
  after_install node r =
      if r.failed && not (contains r.stderr "already installed")
      then fail install_failed
      else hold node

  unfoldable pub install : (node : String) → Action W CephError (Unit {0})
  unfolding exec after_install install_cmd
  install node = do r ← exec run node (install_cmd c); after_install node r

  -- The loop with so many attempts left; it sleeps after each failure, the last one too.
  unfoldable pub bootstrap_attempts :
      (left : ℕ) → (node cmd : String) → Action W CephError (Unit {0})
  unfolding was_bootstrapped
  bootstrap_attempts zero node cmd w = (err bootstrap_failed, w)
  bootstrap_attempts (suc left) node cmd w =
      let (r, w₁) = run node cmd w in
      elim (not r.failed || was_bootstrapped r) [
        | true ↦ (ok tt, w₁)
        | false ↦ bootstrap_attempts left node cmd (sleep (5 * second) w₁)
      ]

  -- `microceph status`, which must succeed.
  unfoldable pub check_status : (node : String) → Action W CephError (Unit {0})
  check_status node w =
      let (r, w₁) = run node status_cmd w in
      elim r.failed [ true ↦ (err status_failed, w₁) | false ↦ (ok tt, w₁) ]

  detect : (node : String) → Action W CephError (Option NetworkInfo)
  unfolding detect_network_info_ssh
  detect node w = let (n, w₁) = detect_network_info_ssh d run node w in (ok n, w₁)

  set_networks : (node : String) → Option NetworkInfo → Action W CephError (Unit {0})
  unfolding exec
  set_networks node none = return tt
  set_networks node (some n) = if n.cidr == "" then return tt else do
    r ← exec run node ("ceph config set global cluster_network " ^^ n.cidr)
    r ← exec run node ("ceph config set global public_network " ^^ n.cidr)
    return tt

  unfoldable pub bootstrap : (primary : String) → Action W CephError (Unit {0})
  unfolding exec detect bootstrap_cmd bootstrap_attempts check_status set_networks
  bootstrap primary = do
    net ← detect primary
    bootstrap_attempts 3 primary (bootstrap_cmd net)
    check_status primary
    net ← detect primary
    set_networks primary net
    r ← exec run primary disk_list_cmd
    return tt

  unfoldable pub resolve : (node : String) → Action W CephError String
  unfolding resolve_node_address_ssh trim_space
  resolve node w =
      let (s, w₁) = resolve_node_address_ssh d run node c.global_settings.overlay_provider w in
      (ok (trim_space s), w₁)

  unfoldable pub token_from : RunResult → Action W CephError String
  unfolding trim_space was_added
  token_from r =
      if r.failed
      then (if was_added r then return "" else fail add_failed)
      else if trim_space r.stdout == ""
      then fail no_token
      else return (trim_space r.stdout)

  unfoldable pub add_address : (primary address : String) → Action W CephError String
  unfolding exec token_from
  add_address primary address =
      if address == ""
      then fail no_address
      else do r ← exec run primary ("microceph cluster add " ^^ address); token_from r

  -- A node that is no member yet.
  unfoldable pub add_member : (primary joining : String) → Action W CephError String
  unfolding resolve add_address
  add_member primary joining = do address ← resolve joining; add_address primary address

  unfoldable pub generate_join_token : (primary joining : String) → Action W CephError String
  unfolding add_member
  generate_join_token primary joining w =
      let (r, w₁) = run joining status_cmd w in
      elim r.failed [ false ↦ (ok "", w₁) | true ↦ add_member primary joining w₁ ]

  -- The value of `--microceph-ip`.
  join_ip : Option NetworkInfo → (preferred : String) → String
  join_ip (some n) preferred = n.ip
  join_ip none preferred =
      if preferred == ""
      then ""
      else elim (d.parse_ip preferred) [ none ↦ "" | some ip ↦ d.ip_string ip ]

  unfoldable pub accept_join : (node : String) → RunResult → Action W CephError (Unit {0})
  unfolding was_joined check_status
  accept_join node r = elim r.failed [
    | false ↦ check_status node
    | true ↦ elim (was_joined r) [ true ↦ return tt | false ↦ fail join_failed ]
  ]

  unfoldable pub send_join : (node cmd : String) → Action W CephError (Unit {0})
  unfolding accept_join
  send_join node cmd w = let (r, w₁) = run node cmd w in accept_join node r w₁

  -- A node that is no member yet, with a token.
  unfoldable pub join_member : (node token : String) → Action W CephError (Unit {0})
  unfolding exec resolve detect join_cmd send_join join_ip
  join_member node token = do
    daemon ← exec run node daemon_cmd
    preferred ← resolve node
    net ← detect node
    send_join node (join_cmd token (join_ip net preferred))

  unfoldable pub join : (node token : String) → Action W CephError (Unit {0})
  unfolding join_member
  join node token w =
      let (r, w₁) = run node status_cmd w in
      elim r.failed [
        | false ↦ (ok tt, w₁)
        | true ↦ elim (token == "") [
          | true ↦ (err no_token, w₁)
          | false ↦ join_member node token w₁
        ]
      ]
