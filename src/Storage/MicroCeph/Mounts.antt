-- ===== src/Storage/MicroCeph/Mounts.antt =====
-- `MountWithCredentials` of internal/storage/microceph.go with `detectCephFSMountMethod`,
-- `ensureCephFuseInstalled`, `mountCephFSKernel`, `mountCephFSFuse` and `ensureFstabAndReload`, and
-- `Unmount`. The credentials are there, as in every call. The words that tell an incompatible kernel
-- are looked for in the command's error output; the text of the SSH error itself, an exit status, has
-- none of them.
pub mod Texts
pub mod Mounted
pub mod Tests
use docker_swarm_cluster_con.Prelude.{
  String, Bool, true, false, ◌&&◌, ◌||◌, not, ok, err, ◌==◌, if◌then◌else◌, contains, trim_space,
  ◌^^◌, has_prefix,
}
use docker_swarm_cluster_con.Prelude.Action.{Action, ◌>>=◌, ◌>>◌, return, fail}
use docker_swarm_cluster_con.Ssh.{RunResult}
use docker_swarm_cluster_con.Storage.Types.{ClusterCredentials}
use docker_swarm_cluster_con.Storage.Files.{shell}
use docker_swarm_cluster_con.Storage.MicroCeph.{exec}
use docker_swarm_cluster_con.Storage.MicroCeph.Mounts.Texts.{
  install_fuse_cmd, conf_cmd, keyring_cmd, dmesg_cmd, modprobe_cmd, fuse_check_cmd, dpkg_cmd,
  mount_all_cmd, reload_cmd, kernel_cmd, fuse_cmd, fstab_entry, cleanup_cmd, append_cmd, df_cmd,
  mounted_cmd, responsive_cmd,
}

pub data MountError : Type 0 where
  directory_failed kernel_failed fuse_install_failed keyring_failed fuse_failed fstab_failed
        mount_all_failed reload_failed :
      MountError

pub data MountMethod : Type 0 where
  method_kernel method_fuse : MountMethod

unfoldable pub is_kernel_issue : RunResult → Bool
unfolding contains trim_space
is_kernel_issue r =
    let text = trim_space r.stderr in
    contains text "wrong fs type"
    || (contains text "bad option"
        || (contains text "bad superblock" || contains text "Unknown parameter"))

module _ {W : Type 0} (run : String → String → W → RunResult × W) (path : String) where
  -- The installed tool is named by the shell.
  finds_fuse : RunResult → Bool
  unfolding trim_space
  finds_fuse r = not r.failed && not (trim_space r.stdout == "")

  or_fuse : (loaded : Bool) (node : String) → Action W MountError MountMethod
  unfolding exec finds_fuse
  or_fuse true node = return method_kernel
  or_fuse false node = do
    version ← exec run node "uname -r"
    r ← exec run node fuse_check_cmd
    return (if finds_fuse r then method_fuse else method_kernel)

  unfoldable pub detect_method : (node : String) → Action W MountError MountMethod
  unfolding exec or_fuse trim_space
  detect_method node = do
    r ← exec run node modprobe_cmd
    or_fuse (not r.failed && (trim_space r.stdout == "loaded")) node

  install_fuse : (there : Bool) (node : String) → Action W MountError (Unit {0})
  unfolding exec shell
  install_fuse true node = return tt
  install_fuse false node = do
    r ← exec run node dpkg_cmd
    shell run fuse_install_failed node install_fuse_cmd

  unfoldable pub ensure_fuse : (node : String) → Action W MountError (Unit {0})
  unfolding exec install_fuse finds_fuse
  ensure_fuse node = do r ← exec run node fuse_check_cmd; install_fuse (finds_fuse r) node

  unfoldable pub mount_fuse : (node : String) → ClusterCredentials → Action W MountError (Unit {0})
  unfolding exec shell conf_cmd keyring_cmd fuse_cmd
  mount_fuse node c = do
    r ← exec run node (conf_cmd c)
    shell run keyring_failed node (keyring_cmd c)
    shell run fuse_failed node (fuse_cmd path)

  unfoldable pub by_fuse : (node : String) → ClusterCredentials → Action W MountError (Unit {0})
  unfolding ensure_fuse mount_fuse
  by_fuse node c = do ensure_fuse node; mount_fuse node c

  -- After a mount by the kernel's driver failed.
  unfoldable pub kernel_fallback :
      (incompatible : Bool) (node : String) → ClusterCredentials → Action W MountError (Unit {0})
  unfolding by_fuse
  kernel_fallback true node c = by_fuse node c
  kernel_fallback false node c = fail kernel_failed

  unfoldable pub by_kernel : (node : String) → ClusterCredentials → Action W MountError (Unit {0})
  unfolding kernel_cmd is_kernel_issue kernel_fallback
  by_kernel node c w =
      let (r, w₁) = run node (kernel_cmd path c) w in
      elim r.failed [
        | false ↦ (ok tt, w₁)
        | true ↦ kernel_fallback (is_kernel_issue r) node c (run node dmesg_cmd w₁).1
      ]

  unfoldable pub mount_by :
      MountMethod → (node : String) → ClusterCredentials → Action W MountError (Unit {0})
  unfolding by_kernel by_fuse
  mount_by method_kernel node c = by_kernel node c
  mount_by method_fuse node c = by_fuse node c

  unfoldable pub mount_anew : (node : String) → ClusterCredentials → Action W MountError (Unit {0})
  unfolding detect_method mount_by
  mount_anew node c = do method ← detect_method node; mount_by method node c

  -- `mount -a`, where "already mounted" is no error.
  unfoldable pub mount_all : (node : String) → Action W MountError (Unit {0})
  unfolding contains trim_space
  mount_all node w =
      let (r, w₁) = run node mount_all_cmd w in
      elim (r.failed && not (contains (trim_space r.stderr) "already mounted")) [
        | false ↦ (ok tt, w₁)
        | true ↦ (err mount_all_failed, (run node dmesg_cmd w₁).1)
      ]

  unfoldable pub ensure_fstab_and_reload :
      (node : String) → ClusterCredentials → Action W MountError (Unit {0})
  unfolding exec shell fstab_entry mount_all
  ensure_fstab_and_reload node c = do
    r ← exec run node (cleanup_cmd path)
    shell run fstab_failed node (append_cmd (fstab_entry path c))
    mount_all node
    shell run reload_failed node reload_cmd

  -- A mount that is there and answers needs its entry only; a stale one is taken away first.
  unfoldable pub remount :
      (responsive : Bool) (node : String) → ClusterCredentials → Action W MountError (Unit {0})
  unfolding exec ensure_fstab_and_reload mount_anew
  remount true node c = ensure_fstab_and_reload node c
  remount false node c = do
    r ← exec run node (
        "umount -f "
        ^^ (path ^^ (" 2>/dev/null || umount -l " ^^ (path ^^ " 2>/dev/null || true"))))
    r ← exec run node ("sed -i '\\|" ^^ (path ^^ "|d' /etc/fstab 2>/dev/null || true"))
    mount_anew node c

  unfoldable pub mount_checked :
      (node : String) → ClusterCredentials → Action W MountError (Unit {0})
  unfolding contains remount mount_anew
  mount_checked node c w =
      let (r, w₁) = run node (mounted_cmd path) w in
      elim r.failed [
        | true ↦ mount_anew node c w₁
        | false ↦
            let (t, w₂) = run node (responsive_cmd path) w₁ in
            remount (contains t.stdout "ok") node c w₂
      ]

  unfoldable pub mount_now : (node : String) → ClusterCredentials → Action W MountError (Unit {0})
  unfolding shell mount_checked
  mount_now node c = do shell run directory_failed node ("mkdir -p " ^^ path); mount_checked node c

  -- What is deferred to the end, after a failure too.
  unfoldable pub deferred : (node : String) → ClusterCredentials → W → W
  unfolding ensure_fstab_and_reload
  deferred node c w =
      let (r, w₁) = ensure_fstab_and_reload node c w in
      elim r [ ok _ ↦ (run node (df_cmd path) w₁).1 | err _ ↦ w₁ ]

  unfoldable pub mount_with_credentials :
      (node pool : String) → ClusterCredentials → Action W MountError (Unit {0})
  unfolding mount_now deferred
  mount_with_credentials node pool c w = let (r, w₁) = mount_now node c w in (r, deferred node c w₁)

  -- The entry is removed even if the unmount failed.
  take_away : (absent : Bool) (node : String) → Action W MountError (Unit {0})
  unfolding exec
  take_away true node = return tt
  take_away false node = do
    r ←
        exec run node (
          "umount " ^^ (path ^^ (" 2>/dev/null || umount -l " ^^ (path ^^ " 2>/dev/null || true"))))
    r ← exec run node ("sed -i '\\|" ^^ (path ^^ "|d' /etc/fstab"))
    return tt

  unfoldable pub unmount : (node : String) → Action W MountError (Unit {0})
  unfolding exec take_away contains
  unmount node = do
    r ←
        exec run node
          ("mountpoint -q " ^^ (path ^^ " 2>/dev/null && echo 'mounted' || echo 'not mounted'"))
    take_away (contains r.stdout "not mounted") node
