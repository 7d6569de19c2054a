-- ===== src/Storage/MicroCeph/Mounts/Tests.antt =====
-- A run of `MountWithCredentials` of internal/storage/microceph.go. The world tells whether the storage
-- is mounted; nothing unmounts it.
use text.Mathlib.TextLemmas.{append_assoc}
use text.Mathlib.TextPositions.{starts_with-append}
use docker_swarm_cluster_con.Prelude.{
  ◌≡◌, refl, subst, sym, arith, String, Bool, true, false, ◌&&◌, ◌||◌, not, ok, ◌==◌, if◌then◌else◌,
  has_prefix, contains, Bool-cases, inl, inr, ◌^^◌,
}
use docker_swarm_cluster_con.Prelude.Action.{◌>>=◌, return}
use docker_swarm_cluster_con.Ssh.{RunResult}
use docker_swarm_cluster_con.Storage.Types.{ClusterCredentials}
use docker_swarm_cluster_con.Storage.MicroCeph.Mounts.Texts.{
  mounted_cmd, kernel_cmd, fuse_cmd, has_fsid,
}
use docker_swarm_cluster_con.Storage.MicroCeph.Mounts.{mount_with_credentials}
use docker_swarm_cluster_con.Storage.MicroCeph.Mounts.Mounted.{
  IsMountable, mount_with_credentials-Mounted,
}

abbrev path : String
path = "/mnt/storage"

abbrev credentials : ClusterCredentials
credentials = record {
  admin_key = "key";
  mon_addrs = "10.0.0.1:6789";
  fsid = "f1";
  fs_name = "data";
  mon_addr_opt = "10.0.0.1:6789";
}

abbrev mounts : String → Bool
mounts cmd = has_prefix cmd "sudo mount -t ceph " || has_prefix cmd "sudo ceph-fuse "

abbrev run : String → String → Bool → RunResult × Bool
run host cmd w = (
  record {
    stdout = if w then "ok" else "loaded";
    stderr = "";
    failed = (cmd == mounted_cmd path) && not w;
  },
  mounts cmd || w,
)

abbrev Mounted : String → Bool → Type 0
Mounted n w = w ≡ true

or_right : (a b : Bool) → b ≡ true → (a || b) ≡ true
or_right a b h = ground arith

or_left : (a b c : Bool) → a ≡ true → ((a || b) || c) ≡ true
or_left a b c h = ground arith

abbrev mount_start : String
mount_start = "sudo mount -t ceph "

admin_start :
    (rest : String) → has_prefix ("sudo mount -t ceph \"admin@" ^^ rest) mount_start ≡ true
unfolding has_prefix
admin_start rest =
    subst (λ t. has_prefix t mount_start ≡ true) (sym (append_assoc mount_start "\"admin@" rest))
      (starts_with-append mount_start ("\"admin@" ^^ rest))

kernel_start_at :
    (path : String) (c : ClusterCredentials)
    → has_prefix (kernel_cmd path c) "sudo mount -t ceph " ≡ true
unfolding kernel_cmd has_prefix
kernel_start_at path c = elim (Bool-cases (has_fsid c)) [
  | inl t ↦ rw (t, kernel_cmd) (admin_start _)
  | inr f ↦ rw (f, kernel_cmd) (starts_with-append mount_start _)
]

laws : IsMountable run path Mounted
unfolding fuse_cmd has_prefix contains
laws = record {
  kernel_mounted = λ n c w h. or_left _ _ w (kernel_start_at path c);
  fuse_mounted = λ n w h. refl;
  responsive_mounted = λ n w h t. ground arith;
  kept = λ host n w l m. or_right _ w m;
}

mount_run : mount_with_credentials run path "n1" "data" credentials false ≡ (ok tt, true)
unfolding mount_with_credentials ◌>>=◌ return
mount_run = refl

mount_with_credentials-Mounted_example : Mounted "n1" true
mount_with_credentials-Mounted_example =
    mount_with_credentials-Mounted run path Mounted laws "n1" "data" credentials false true
      mount_run
