-- ===== src/Storage/MicroCeph/Pools.antt =====
-- `CreatePool`, `GetClusterCredentials`, `removeOSDsForNode` and `Teardown` of
-- internal/storage/microceph.go. Where a command fails without a word, the code looks into the text
-- of the SSH error, an exit status, which has none of the words it looks for.
pub mod Listed
pub mod Tests
use docker_swarm_cluster_con.Prelude.{
  ℕ, ◌*◌, String, Bool, true, false, ◌&&◌, ◌||◌, not, List, [], ◌∷◌, Option, none, some, Result, ok,
  err, ◌==◌, if◌then◌else◌, contains, trim_space, short_host, show_int, filter, ◌^^◌,
}
use docker_swarm_cluster_con.Prelude.Action.{Action, ◌>>=◌, ◌>>◌, return, fail, wrap, each}
use docker_swarm_cluster_con.Retry.{second}
use docker_swarm_cluster_con.Ssh.{RunResult}
use docker_swarm_cluster_con.IpDetect.Networks.{Decoders}
use docker_swarm_cluster_con.IpDetect.Remote.{detect_primary_ssh}
use docker_swarm_cluster_con.Storage.Types.{ClusterCredentials}
use docker_swarm_cluster_con.Storage.MicroCeph.{exec}
use docker_swarm_cluster_con.Storage.MicroCeph.Polling.{PollError}
use docker_swarm_cluster_con.Storage.MicroCeph.Health.{wait_for_ceph_fs}
use docker_swarm_cluster_con.Storage.MicroCeph.Disks.{ConfiguredDisk, disk_list_cmd}

pub data CephPoolError : Type 0 where
  pool_failed : (pool : String) → CephPoolError
  fs_failed key_failed empty_key no_monitors : CephPoolError
  fs_not_ready : PollError → CephPoolError

unfoldable pub pool_exists : RunResult → Bool
unfolding contains trim_space
pool_exists r =
    contains (trim_space r.stderr) "already exists" || contains (trim_space r.stderr) "EEXIST"

unfoldable pub fs_exists : RunResult → Bool
unfolding contains trim_space
fs_exists r = contains (trim_space r.stderr) "already exists"

-- strings.Join
unfoldable pub join_texts : (separator : String) → List String → String
join_texts separator [] = ""
join_texts separator (s ∷ ss) =
    let rest = join_texts separator ss in elim ss [ [] ↦ s | _ ∷ _ ↦ s ^^ (separator ^^ rest) ]

-- What is taken out of the JSON of `ceph auth get`, an object or a list of them.
pub record KeyDecoders : Type 0 where
  pub single_key : String → Option String
  pub first_key : String → Option String
  pub fs_names : String → Option (List String)

unfoldable pub given : Option String → String
given none = ""
given (some s) = s

first_name : Option (List String) → String
first_name none = ""
first_name (some []) = ""
first_name (some (n ∷ ns)) = n

module _ {W : Type 0} (d : Decoders) (keys : KeyDecoders)
    (run : String → String → W → RunResult × W) (now : W → ℕ) (cancelled : W → Bool)
    (sleep : ℕ → W → W) where
  unfoldable pub make_pool : (primary pool : String) → Action W CephPoolError (Unit {0})
  unfolding pool_exists
  make_pool primary pool w =
      let (r, w₁) = run primary ("ceph osd pool create " ^^ (pool ^^ " 64")) w in
      elim (r.failed && not (pool_exists r)) [
        | true ↦ (err (pool_failed pool), w₁)
        | false ↦ (ok tt, w₁)
      ]

  unfoldable pub make_fs : (primary pool : String) → Action W CephPoolError (Unit {0})
  unfolding fs_exists
  make_fs primary pool w =
      let (r, w₁) =
        run primary
          ("ceph fs new " ^^ (pool ^^ (" " ^^ (pool ^^ ("-metadata " ^^ (pool ^^ "-data")))))) w in
      elim (r.failed && not (fs_exists r)) [ true ↦ (err fs_failed, w₁) | false ↦ (ok tt, w₁) ]

  pause : ℕ → Action W CephPoolError (Unit {0})
  pause d w = (ok tt, sleep d w)

  unfoldable pub create_pool : (primary pool : String) → Action W CephPoolError (Unit {0})
  unfolding exec pause make_pool make_fs wait_for_ceph_fs
  create_pool primary pool = do
    r ← exec run primary "microceph enable mds"
    pause (5 * second)
    each (make_pool primary) ((pool ^^ "-data") ∷ ((pool ^^ "-metadata") ∷ []))
    make_fs primary pool
    wrap fs_not_ready (wait_for_ceph_fs run now cancelled sleep keys.fs_names primary pool)

  -- The key in the JSON output, empty if there is none.
  unfoldable pub json_key : RunResult → String
  unfolding given trim_space
  json_key r =
      let output = trim_space r.stdout in
      if r.failed || (output == "")
      then ""
      else (let key = given (keys.single_key output) in
          if key == "" then given (keys.first_key output) else key)

  -- The admin key: that of the JSON output, or else that of the older command.
  unfoldable pub admin_key_of : (primary key : String) → Action W CephPoolError String
  unfolding trim_space
  admin_key_of primary key w = elim (key == "") [
    | false ↦ (ok key, w)
    | true ↦
        let (r, w₁) = run primary "ceph auth get-key client.admin 2>/dev/null" w in
        (
          if r.failed
              then err key_failed
              else if trim_space r.stdout == ""
              then err empty_key
              else ok (trim_space r.stdout),
          w₁,
        )
  ]

  unfoldable pub mon_addresses : (overlay : String) → List String → W → List String × W
  unfolding detect_primary_ssh
  mon_addresses overlay [] w = ([], w)
  mon_addresses overlay (n ∷ ns) w =
      let (address, w₁) = detect_primary_ssh d run n overlay w in
      let (rest, w₂) = mon_addresses overlay ns w₁ in ((address ^^ ":6789") ∷ rest, w₂)

  unfoldable pub monitors : (overlay : String) → List String → Action W CephPoolError (List String)
  unfolding mon_addresses
  monitors overlay mons w =
      let (addresses, w₁) = mon_addresses overlay mons w in
      elim addresses [ [] ↦ (err no_monitors, w₁) | a ∷ others ↦ (ok (a ∷ others), w₁) ]

  unfoldable pub get_cluster_credentials :
      (primary : String) (mons : List String) (overlay : String)
      → Action W CephPoolError ClusterCredentials
  unfolding exec json_key admin_key_of monitors first_name join_texts trim_space
  get_cluster_credentials primary mons overlay = do
    r ← exec run primary "ceph auth get client.admin -f json 2>/dev/null"
    key ← admin_key_of primary (json_key r)
    addresses ← monitors overlay mons
    fsid ← exec run primary "ceph fsid 2>/dev/null | tr -d '\\n'"
    names ← exec run primary "ceph fs ls -f json 2>/dev/null"
    return (record {
      admin_key = key;
      mon_addrs = join_texts "," addresses;
      fsid = trim_space fsid.stdout;
      fs_name = if names.failed then "" else first_name (keys.fs_names names.stdout);
      mon_addr_opt = join_texts "/" addresses;
    })

-- Teardown: the disks of a node, as MicroCeph's list locates them.
unfoldable pub located : (full node : String) → ConfiguredDisk → Bool
unfolding short_host
located full node d =
    not (d.location == "")
    && ((not (full == "") && d.location == full)
        || ((not (short_host full == "") && d.location == short_host full) || d.location == node))

module _ {W : Type 0} (run : String → String → W → RunResult × W)
    (decode : String → Option (List ConfiguredDisk)) where
  remove_disks : (node : String) → List ConfiguredDisk → W → W
  unfolding show_int
  remove_disks node [] w = w
  remove_disks node (d ∷ ds) w =
      remove_disks node ds
        (run node
          ("timeout 30 microceph disk remove "
            ^^ (show_int d.osd ^^ " --bypass-safety-checks 2>&1 || echo 'TIMEOUT_OR_ERROR'"))
          w).1

  -- The disks in the list, if it can be had.
  listed : RunResult → List ConfiguredDisk
  listed r = if r.failed then [] else (elim (decode r.stdout) [ none ↦ [] | some ds ↦ ds ])

  unfoldable pub remove_osds_for_node : (node : String) → W → W
  unfolding trim_space located listed remove_disks
  remove_osds_for_node node w =
      let (h, w₁) = run node "hostname -f 2>/dev/null || hostname" w in
      let (r, w₂) = run node disk_list_cmd w₁ in
      remove_disks node (filter (located (trim_space h.stdout) node) (listed r)) w₂

  unfoldable pub teardown : (node : String) → W → W
  unfolding contains remove_osds_for_node
  teardown node w =
      let (r, w₁) = run node "snap list microceph 2>/dev/null" w in
      elim (contains r.stdout "microceph") [
        | false ↦ w₁
        | true ↦
            let w₂ = (run node "snap stop microceph 2>/dev/null || true" w₁).1 in
            let w₃ = remove_osds_for_node node w₂ in
            let w₄ = (run node "snap remove microceph --purge 2>/dev/null || true" w₃).1 in
            let w₅ = (run node "rm -rf /var/snap/microceph 2>/dev/null || true" w₄).1 in
            (run node "rm -rf /var/lib/ceph 2>/dev/null || true" w₅).1
      ]
