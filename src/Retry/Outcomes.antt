-- ===== src/Retry/Outcomes.antt =====
-- What a successful `Do` of internal/retry/retry.go says of its operation.
use docker_swarm_cluster_con.Prelude.{
  arith, ℕ, zero, suc, ◌+◌, ◌≡◌, Option, none, ok, ltb, Option-cases, Bool-cases, inl, inr,
}
use docker_swarm_cluster_con.Retry.{RetryConfig, next_backoff, do_from, do_retry}

module _ {C E S : Type 0} (cfg : RetryConfig) (wait : ℕ → S → Option C × S) (fn : S → Option E × S)
    (I : S → Type 0) (fn_keeps : (s : S) → I s → I (fn s).1)
    (wait_keeps : (d : ℕ) (s : S) → I s → I (wait d s).1) where
  abbrev Last : S → Type 0
  Last s' = (s₀ : S) × I s₀ × (fn s₀ ≡ (none, s'))

  do_from-ok :
      (left a b : ℕ) (s s' : S) → I s → do_from cfg wait fn left a b s ≡ (ok tt, s') → Last s'
  unfolding do_from
  do_from-ok zero a b s s' i h = ground arith
  do_from-ok (suc left) a b s s' i h = elim (Option-cases (fn s).0) [
    | inl e ↦ let h₁ : (fn s).1 ≡ s' = ground arith in (s, i, ground arith)
    | inr (x, e) ↦ elim (Bool-cases (ltb a cfg.max_attempts)) [
      | inr f ↦ ground arith
      | inl t ↦ elim (Option-cases (wait b (fn s).1).0) [
        | inr (c, w) ↦ ground arith
        | inl w ↦
            do_from-ok left (a + 1) (next_backoff cfg b) (wait b (fn s).1).1 s'
              (wait_keeps b (fn s).1 (fn_keeps s i)) ground arith
      ]
    ]
  ]

  pub do_retry-ok : (s s' : S) → I s → do_retry cfg wait fn s ≡ (ok tt, s') → Last s'
  unfolding do_retry
  do_retry-ok s s' i h = do_from-ok cfg.max_attempts 1 cfg.initial_backoff s s' i h
