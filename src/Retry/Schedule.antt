-- ===== src/Retry/Schedule.antt =====
-- The waits between attempts: internal/retry/retry.go, `backoff`.
use native.Mathlib.Nat.{pow-suc}
use docker_swarm_cluster_con.Prelude.{
  ℕ, zero, suc, ◌*◌, ◌^◌, ◌≤◌, ◌<◌, ◌≡◌, min, List, [], ◌∷◌, some, arith, get_elem?, ap, ◌∙◌,
  String,
}
use docker_swarm_cluster_con.Retry.{
  second, RetryConfig, default_config, ssh_config, package_manager_config, network_config,
  next_backoff,
}

-- The first `n` waits from a given one on.
abbrev pub schedule : RetryConfig → ℕ → ℕ → List ℕ
schedule cfg backoff zero = []
schedule cfg backoff (suc n) = backoff ∷ schedule cfg (next_backoff cfg backoff) n

next_backoff-min :
    (cfg : RetryConfig) (b : ℕ)
    → cfg.backoff_multiple ≡ 2
    → next_backoff cfg (min b cfg.max_backoff) ≡ min (2 * b) cfg.max_backoff
unfolding next_backoff
next_backoff-min cfg b h = rw h (ground arith)

schedule-min :
    (cfg : RetryConfig) (b n k : ℕ)
    → cfg.backoff_multiple ≡ 2
    → k < n
    → get_elem? (schedule cfg (min b cfg.max_backoff) n) k ≡ some (min (2 ^ k * b) cfg.max_backoff)
schedule-min cfg b zero k h lt = absurd (omega arith)
schedule-min cfg b (suc n) zero h lt = ap (λ t. some (min t cfg.max_backoff)) (omega arith)
schedule-min cfg b (suc n) (suc k) h lt = rw (next_backoff-min cfg b h) (
    schedule-min cfg (2 * b) n k h (omega arith)
    ∙ ap (λ t. some (min t cfg.max_backoff)) (rw pow-suc (grind arith)))

-- The k-th wait is the first one doubled k times, cut off at the maximal wait, whenever the factor
-- is 2 and the first wait is not above the maximal one.
pub schedule_closed_form :
    (cfg : RetryConfig) (n k : ℕ)
    → cfg.backoff_multiple ≡ 2
    → cfg.initial_backoff ≤ cfg.max_backoff
    → k < n
    → get_elem? (schedule cfg cfg.initial_backoff n) k
      ≡ some (min (2 ^ k * cfg.initial_backoff) cfg.max_backoff)
schedule_closed_form cfg n k h le lt =
    let e : min cfg.initial_backoff cfg.max_backoff ≡ cfg.initial_backoff = omega arith in
    rw e at (schedule-min cfg cfg.initial_backoff n k h lt)

-- Every wait and every scaled wait computed on the way, of all four configurations, is below 2 ^ 53
-- nanoseconds, so that the float64 product is exact and the conversion back does not overflow.
abbrev pub FitsFloat : RetryConfig → Type 0
FitsFloat cfg =
    (n k b : ℕ)
    → get_elem? (schedule cfg cfg.initial_backoff n) k ≡ some b
    → b * cfg.backoff_multiple < 2 ^ 53

next_backoff-le : (cfg : RetryConfig) (b : ℕ) → next_backoff cfg b ≤ cfg.max_backoff
unfolding next_backoff
next_backoff-le cfg b = ground arith

schedule-le :
    (cfg : RetryConfig) (b n k : ℕ) {w : ℕ}
    → b ≤ cfg.max_backoff
    → get_elem? (schedule cfg b n) k ≡ some w
    → w ≤ cfg.max_backoff
schedule-le cfg b zero k le e = cc
schedule-le cfg b (suc n) zero le e = ground arith
schedule-le cfg b (suc n) (suc k) le e =
    schedule-le cfg (next_backoff cfg b) n k (next_backoff-le cfg b) e

pub configs_fit :
    (op : String)
    → FitsFloat (default_config op)
      × FitsFloat (ssh_config op)
      × FitsFloat (package_manager_config op)
      × FitsFloat (network_config op)
unfolding default_config ssh_config package_manager_config network_config
configs_fit op = (
  λ n k b e.
      omega (arith, schedule-le (default_config op) (2 * second) n k {w = b} (omega arith) e),
  λ n k b e. omega (arith, schedule-le (ssh_config op) (1 * second) n k {w = b} (omega arith) e),
  λ n k b e.
      omega
        (arith, schedule-le (package_manager_config op) (3 * second) n k {w = b} (omega arith) e),
  λ n k b e.
      omega (arith, schedule-le (network_config op) (2 * second) n k {w = b} (omega arith) e),
)
