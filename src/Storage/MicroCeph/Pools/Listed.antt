-- ===== src/Storage/MicroCeph/Pools/Listed.antt =====
-- What `CreatePool` of internal/storage/microceph.go achieves, and which disks `removeOSDsForNode`
-- takes for those of a node.
use docker_swarm_cluster_con.Prelude.{
  ℕ, ◌≡◌, refl, String, Bool, true, false, ◌&&◌, not, List, some, ok, ◌==◌, short_host, Bool-cases,
  inl, inr, eq_iff,
}
use docker_swarm_cluster_con.Prelude.Action.{Gives, bind-Gives, wrap-Gives}
use docker_swarm_cluster_con.Ssh.{RunResult}
use docker_swarm_cluster_con.IpDetect.Networks.{Decoders}
use docker_swarm_cluster_con.Storage.MicroCeph.Polling.{poll_for-ok}
use docker_swarm_cluster_con.Storage.MicroCeph.Health.{ask, lists_name, wait_for_ceph_fs}
use docker_swarm_cluster_con.Storage.MicroCeph.Health.Majority.{ask-true}
use docker_swarm_cluster_con.Storage.MicroCeph.Disks.{ConfiguredDisk, is_on}
use docker_swarm_cluster_con.Storage.MicroCeph.Pools.{KeyDecoders, create_pool, located}

-- Comparing with a name that may be missing is comparing with the name, for what is not empty.
guarded_eq :
    (text name : String)
    → (text == "") ≡ false
    → (not (name == "") && text == name) ≡ (text == name)
guarded_eq text name h = elim (Bool-cases (name == "")) [
  | inl t ↦ rw (t, (eq_iff name "").0 t, h) refl
  | inr f ↦ rw f refl
]

-- Tearing a node down removes exactly the disks by which adding storage tells that the node has some:
-- the two matchings, written differently, agree on every disk, for every host name.
pub located-is_on :
    (full node : String) (d : ConfiguredDisk) → located full node d ≡ is_on full node d
unfolding located is_on short_host
located-is_on full node d = elim (Bool-cases (d.location == "")) [
  | inl t ↦ rw t refl
  | inr f ↦ rw (guarded_eq d.location full f, guarded_eq d.location (short_host full) f) refl
]

module _ {W : Type 0} (d : Decoders) (keys : KeyDecoders)
    (run : String → String → W → RunResult × W) (now : W → ℕ) (cancelled : W → Bool)
    (sleep : ℕ → W → W) (primary pool : String) where
  WasListed : Type 0
  WasListed =
      (w₀ : W) × (names : List String) × (keys.fs_names
          (run primary "ceph fs ls -f json" w₀).0.stdout
        ≡ some names)
      × (lists_name pool names ≡ true)

  waiting :
      Gives (wait_for_ceph_fs run now cancelled sleep keys.fs_names primary pool) (λ _ _. WasListed)
  unfolding wait_for_ceph_fs WasListed
  waiting = record {
    at = λ w w' a h.
        let question = ask run keys.fs_names (lists_name pool) primary "ceph fs ls -f json" in
        let (w₀, e) = poll_for-ok now cancelled sleep _ _ question w w' h in
        let (names, e', t) =
          ask-true run keys.fs_names (lists_name pool) primary "ceph fs ls -f json" w₀ w' e in
        (w₀, names, e', t);
  }

  creating : Gives (create_pool d keys run now cancelled sleep primary pool) (λ _ _. WasListed)
  unfolding create_pool
  creating = search (bind-Gives, wrap-Gives, waiting) depth 14

  -- If creating the pool succeeds, then during the wait for it the primary's list of file systems could
  -- be read and named the pool.
  pub create_pool-ok :
      (w w' : W)
      → create_pool d keys run now cancelled sleep primary pool w ≡ (ok tt, w')
      → (w₀ : W) × (names : List String) × (keys.fs_names
            (run primary "ceph fs ls -f json" w₀).0.stdout
          ≡ some names)
        × (lists_name pool names ≡ true)
  unfolding WasListed
  create_pool-ok w w' h = creating.at w w' tt h
