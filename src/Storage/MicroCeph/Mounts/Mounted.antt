-- ===== src/Storage/MicroCeph/Mounts/Mounted.antt =====
-- What the success of `MountWithCredentials` of internal/storage/microceph.go says of the node.
use docker_swarm_cluster_con.Prelude.{
  ◌≡◌, ap, subst, arith, String, Bool, true, false, ◌&&◌, not, ok, contains, trim_space, Bool-cases,
  Result-cases, inl, inr,
}
use docker_swarm_cluster_con.Prelude.Action.{fail, Keeps, Gives, keeps_rules, bind-Gives}
use docker_swarm_cluster_con.Ssh.{RunResult}
use docker_swarm_cluster_con.Storage.Types.{ClusterCredentials}
use docker_swarm_cluster_con.Storage.Files.{shell}
use docker_swarm_cluster_con.Storage.MicroCeph.{exec}
use docker_swarm_cluster_con.Storage.MicroCeph.Mounts.Texts.{
  dmesg_cmd, mount_all_cmd, reload_cmd, kernel_cmd, fuse_cmd, cleanup_cmd, append_cmd, df_cmd,
  mounted_cmd, responsive_cmd,
}
use docker_swarm_cluster_con.Storage.MicroCeph.Mounts.{
  MountMethod, method_kernel, method_fuse, is_kernel_issue, mount_fuse, by_fuse, kernel_fallback,
  by_kernel, mount_by, mount_anew, mount_all, ensure_fstab_and_reload, remount, mount_checked,
  mount_now, deferred, mount_with_credentials,
}

-- Commands that leave a mount of the path in place.
pub data Leaves (path : String) : String → Type 0 where
  cleanup : Leaves path (cleanup_cmd path)
  append : (entry : String) → Leaves path (append_cmd entry)
  everything : Leaves path mount_all_cmd
  messages : Leaves path dmesg_cmd
  reload : Leaves path reload_cmd
  usage : Leaves path (df_cmd path)

module _ {W : Type 0} (run : String → String → W → RunResult × W) (path : String)
    (Mounted : String → W → Type 0) where
  -- A mount command that succeeds mounts; so does a mount point that can be listed tell a mount.
  pub record IsMountable : Type 0 where
    pub kernel_mounted :
        (n : String) (c : ClusterCredentials) (w : W)
        → (run n (kernel_cmd path c) w).0.failed ≡ false
        → Mounted n (run n (kernel_cmd path c) w).1
    pub fuse_mounted :
        (n : String) (w : W)
        → (run n (fuse_cmd path) w).0.failed ≡ false
        → Mounted n (run n (fuse_cmd path) w).1
    pub responsive_mounted :
        (n : String) (w : W)
        → (run n (mounted_cmd path) w).0.failed ≡ false
        → contains (run n (responsive_cmd path) (run n (mounted_cmd path) w).1).0.stdout "ok" ≡ true
        → Mounted n (run n (responsive_cmd path) (run n (mounted_cmd path) w).1).1
    pub kept :
        {cmd : String} (host n : String) (w : W)
        → Leaves path cmd
        → Mounted n w
        → Mounted n (run host cmd w).1

  module _ (laws : IsMountable) where
    module _ (n : String) where
      exec-Keeps :
          {E : Type 0} {cmd : String} (host : String)
          → Leaves path cmd
          → Keeps (Mounted n) (exec run {E = E} host cmd)
      unfolding exec
      exec-Keeps host h = record { at = λ w m. laws.kept host n w h m }

      shell-Keeps :
          {E : Type 0} {cmd : String} (e : E) (host : String)
          → Leaves path cmd
          → Keeps (Mounted n) (shell run e host cmd)
      unfolding shell
      shell-Keeps {E} {cmd} e host h = record {
        at = λ w m. elim (Bool-cases (run host cmd w).0.failed) [
          | inl t ↦ rw (t, shell) (laws.kept host n w h m)
          | inr f ↦ rw (f, shell) (laws.kept host n w h m)
        ];
      }

      all-Keeps : (host : String) → Keeps (Mounted n) (mount_all run path host)
      unfolding mount_all
      all-Keeps host = record {
        at = λ w m.
            let (r, w₁) = run host mount_all_cmd w in
            let k = laws.kept host n w everything m in
            elim (Bool-cases (r.failed && not (contains (trim_space r.stderr) "already mounted"))) [
              | inl t ↦ rw (t, mount_all) (laws.kept host n w₁ messages k)
              | inr f ↦ rw (f, mount_all) k
            ];
      }

      fstab-Keeps :
          (host : String) (c : ClusterCredentials)
          → Keeps (Mounted n) (ensure_fstab_and_reload run path host c)
      unfolding ensure_fstab_and_reload
      fstab-Keeps host c =
          search (keeps_rules, exec-Keeps, shell-Keeps, all-Keeps, cleanup, append, reload) depth 12

      deferred-kept :
          (host : String) (c : ClusterCredentials) (w : W)
          → Mounted n w
          → Mounted n (deferred run path host c w)
      unfolding deferred
      deferred-kept host c w m =
          let k = (fstab-Keeps host c).at w m in
          elim (Result-cases (ensure_fstab_and_reload run path host c w).0) [
            | inl (a, e) ↦ rw (e, deferred) (laws.kept host n _ usage k)
            | inr (x, e) ↦ rw (e, deferred) k
          ]

      shell-fuse : {E : Type 0} (e : E) → Gives (shell run e n (fuse_cmd path)) (λ _. Mounted n)
      unfolding shell
      shell-fuse e = record {
        at = λ w w' a h. elim (Bool-cases (run n (fuse_cmd path) w).0.failed) [
          | inl t ↦ ground arith
          | inr f ↦ subst (Mounted n) (ground arith) (laws.fuse_mounted n w f)
        ];
      }

      fuse-Gives : (c : ClusterCredentials) → Gives (by_fuse run path n c) (λ _. Mounted n)
      unfolding by_fuse mount_fuse
      fuse-Gives c = search (bind-Gives, shell-fuse)

      fallback-Gives :
          (b : Bool) (c : ClusterCredentials)
          → Gives (kernel_fallback run path b n c) (λ _. Mounted n)
      unfolding kernel_fallback fail
      fallback-Gives true c = fuse-Gives c
      fallback-Gives false c = record { at = λ w w' a h. ground arith }

      kernel-Gives : (c : ClusterCredentials) → Gives (by_kernel run path n c) (λ _. Mounted n)
      unfolding by_kernel
      kernel-Gives c = record {
        at = λ w w' a h.
            let (r, w₁) = run n (kernel_cmd path c) w in
            elim (Bool-cases (run n (kernel_cmd path c) w).0.failed) [
              | inr f ↦ subst (Mounted n) (ground arith) (laws.kernel_mounted n c w f)
              | inl t ↦
                  (fallback-Gives (is_kernel_issue r) c).at (run n dmesg_cmd w₁).1 w' a
                    (ground arith)
            ];
      }

      by-Gives :
          (m : MountMethod) (c : ClusterCredentials)
          → Gives (mount_by run path m n c) (λ _. Mounted n)
      unfolding mount_by
      by-Gives method_kernel c = kernel-Gives c
      by-Gives method_fuse c = fuse-Gives c

      anew-Gives : (c : ClusterCredentials) → Gives (mount_anew run path n c) (λ _. Mounted n)
      unfolding mount_anew
      anew-Gives c = search (bind-Gives, by-Gives)

      stale-Gives : (c : ClusterCredentials) → Gives (remount run path false n c) (λ _. Mounted n)
      unfolding remount
      stale-Gives c = search (bind-Gives, anew-Gives)

      there-Mounted :
          (c : ClusterCredentials) (w w' : W)
          → Mounted n w
          → remount run path true n c w ≡ (ok tt, w')
          → Mounted n w'
      unfolding remount
      there-Mounted c w w' m h = subst (Mounted n) (ap (λ p. p.1) h) ((fstab-Keeps n c).at w m)

      checked-Gives : (c : ClusterCredentials) → Gives (mount_checked run path n c) (λ _. Mounted n)
      unfolding mount_checked
      checked-Gives c = record {
        at = λ w w' a h.
            let (r, w₁) = run n (mounted_cmd path) w in
            let (t, w₂) = run n (responsive_cmd path) w₁ in
            elim (Bool-cases (run n (mounted_cmd path) w).0.failed) [
              | inl f ↦ (anew-Gives c).at w₁ w' a (ground arith)
              | inr f ↦ elim (Bool-cases (contains t.stdout "ok")) [
                | inl o ↦ there-Mounted c w₂ w' (laws.responsive_mounted n w f o) (ground arith)
                | inr o ↦ (stale-Gives c).at w₂ w' a (ground arith)
              ]
            ];
      }

      now-Gives : (c : ClusterCredentials) → Gives (mount_now run path n c) (λ _. Mounted n)
      unfolding mount_now
      now-Gives c = search (bind-Gives, checked-Gives)

    -- If mount commands that succeed mount, a mount point that answers is mounted, and updating fstab,
    -- `mount -a`, reloading systemd and reading messages or the usage leave a mount in place, then a
    -- success of mounting with credentials means that the node has the mount when everything,
    -- the deferred update of fstab included, is done.
    pub mount_with_credentials-Mounted :
        (n pool : String) (c : ClusterCredentials) (w w' : W)
        → mount_with_credentials run path n pool c w ≡ (ok tt, w')
        → Mounted n w'
    unfolding mount_with_credentials
    mount_with_credentials-Mounted n pool c w w' h =
        let (r, w₁) = mount_now run path n c w in
        let m = (now-Gives n c).at w w₁ tt (ground arith) in
        subst (Mounted n) (ap (λ p. p.1) h) (deferred-kept n n c w₁ m)
