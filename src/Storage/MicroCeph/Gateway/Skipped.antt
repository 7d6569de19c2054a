-- ===== src/Storage/MicroCeph/Gateway/Skipped.antt =====
-- Which listings of buckets make `CreateS3Bucket` of internal/storage/microceph.go take the bucket as
-- existing.
use Prim.Native.String.{String, [], ◌∷◌}
use text.Mathlib.TextLemmas.{nil-append, cons-append}
use text.Mathlib.TextPositions.{starts_with-append}
use docker_swarm_cluster_con.Prelude.{
  ℕ, ◌≡◌, refl, subst, arith, Bool, true, List, Option, ok, contains, has_prefix, contains_empty, ℤ,
  ◌^^◌,
}
use docker_swarm_cluster_con.Prelude.Action.{return}
use docker_swarm_cluster_con.Ssh.{RunResult}
use docker_swarm_cluster_con.Storage.MicroCeph.Gateway.Buckets.{unless_listed}

contains_start : (part after : String) → contains (part ^^ after) part ≡ true
unfolding contains has_prefix
contains_start [] after = contains_empty ([] ^^ after)
contains_start (c ∷ p) after =
    let start : has_prefix (c ∷ (p ^^ after)) (c ∷ p) ≡ true =
      subst (λ t. has_prefix t (c ∷ p) ≡ true) (cons-append c p after)
        (starts_with-append (c ∷ p) after) in
    rw (cons-append c p after, contains, start) refl

contains_part : (before part after : String) → contains (before ^^ (part ^^ after)) part ≡ true
unfolding contains
contains_part [] part after = rw (nil-append (part ^^ after)) (contains_start part after)
contains_part (c ∷ s) part after =
    rw (cons-append c s (part ^^ after), contains, contains_part s part after) (ground arith)

-- A listing that contains the bucket's name anywhere, within the name of another bucket too, makes the
-- creation succeed without a command: no bucket is made.
pub unless_listed_part :
    {W : Type 0} (user_keys : String → Option (List (String × String)))
    (run : String → String → W → RunResult × W) (sleep : ℕ → W → W) (node bucket : String)
    (port : ℤ) (keys : String × String) (before after err_text : String) (failed : Bool) (w : W)
    → unless_listed user_keys run sleep node bucket port keys
        (record { stdout = before ^^ (bucket ^^ after); stderr = err_text; failed = failed })
        w
      ≡ (ok tt, w)
unfolding unless_listed return
unless_listed_part user_keys run sleep node bucket port keys before after err_text failed w =
    rw (contains_part before bucket after, unless_listed) refl
