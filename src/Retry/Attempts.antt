-- ===== src/Retry/Attempts.antt =====
-- How often `Do` of internal/retry/retry.go calls the operation and how long it waits, seen by an
-- environment that records both.
use docker_swarm_cluster_con.Prelude.{
  ℕ, zero, suc, ◌+◌, ◌-◌, ◌≤◌, ◌<◌, ◌≡◌, refl, List, [], ◌∷◌, Option, none, some, Result, ok, err,
  false, arith, ltb, lt→ltb, ◌∙◌, subst,
}
use docker_swarm_cluster_con.Retry.{
  RetryConfig, RetryError, cancelled, failed, next_backoff, do_from, do_retry, do_with_result_from,
  do_with_result,
}

not_ltb : (a b : ℕ) → b ≤ a → ltb a b ≡ false
not_ltb a b h = ground arith

-- How often the operation was called, and the waits, the last one first.
pub record Trace : Type 0 where
  pub calls : ℕ
  pub waits : List ℕ

abbrev pub start : Trace
start = record { calls = 0; waits = [] }

-- the waits of `schedule`, put before those of the past
abbrev pub waited : RetryConfig → ℕ → ℕ → List ℕ → List ℕ
waited cfg backoff zero past = past
waited cfg backoff (suc n) past = waited cfg (next_backoff cfg backoff) n (backoff ∷ past)

module _ {C E : Type 0} (cfg : RetryConfig) (outcomes : ℕ → Option E) (cancels : ℕ → Option C) where
  -- The i-th call of the operation, counted from 0, has the outcome `outcomes i`.
  abbrev pub call : Trace → Option E × Trace
  call t = (outcomes t.calls, record t { calls = suc t.calls })

  -- The wait after `i` calls ends early with the context's error where `cancels i` has one.
  abbrev pub wait : ℕ → Trace → Option C × Trace
  wait backoff t = (cancels t.calls, record t { waits = backoff ∷ t.waits })

  -- Call i fails, and the wait after it runs to its end.
  abbrev pub Fails : ℕ → Type 0
  Fails i = (e : E) × (outcomes i ≡ some e) × (cancels (suc i) ≡ none)

  abbrev rounds : ℕ → ℕ → ℕ
  rounds zero left = left
  rounds (suc i) left = suc (rounds i left)

  rounds-eq-add : (i left : ℕ) → rounds i left ≡ i + left
  rounds-eq-add zero left = omega arith
  rounds-eq-add (suc i) left = omega (arith, rounds-eq-add i left)

  abbrev from :
      (left attempt backoff calls : ℕ) (waits : List ℕ) → Result (RetryError C E) (Unit {0}) × Trace
  from left attempt backoff calls waits =
      do_from cfg wait call left attempt backoff (record { calls = calls; waits = waits })

  abbrev to :
      Result (RetryError C E) (Unit {0})
      → (calls : ℕ) → List ℕ
      → Result (RetryError C E) (Unit {0}) × Trace
  to r calls waits = (r, record { calls = calls; waits = waits })

  one_more :
      (left n a b : ℕ) (ws : List ℕ)
      → a ≡ suc n
      → suc left + n ≡ cfg.max_attempts
      → 0 < left
      → Fails n
      → from (suc left) a b n ws ≡ from left (a + 1) (next_backoff cfg b) (suc n) (b ∷ ws)
  unfolding do_from
  one_more left n a b ws ea em lt (e, oe, ce) =
      rw (oe, lt→ltb a cfg.max_attempts (omega arith), ce) refl

  -- Failing rounds lead to what comes after them: `r` with the waits of the rest.
  skip :
      (i left n a b : ℕ) (ws : List ℕ) (r : Result (RetryError C E) (Unit {0})) (calls more : ℕ)
      → a ≡ suc n
      → i + suc left + n ≡ cfg.max_attempts
      → ((j : ℕ) → n ≤ j → j < n + i → Fails j)
      → ((a' b' : ℕ) (ws' : List ℕ)
          → a' ≡ suc (n + i)
          → from (suc left) a' b' (n + i) ws' ≡ to r calls (waited cfg b' more ws'))
      → from (rounds i (suc left)) a b n ws ≡ to r calls (waited cfg b (rounds i more) ws)
  skip zero left n a b ws r calls more ea em fails last =
      let e : n + zero ≡ n = omega arith in (rw e at (last a b ws (omega arith)))
  skip (suc i) left n a b ws r calls more ea em fails last =
      one_more (rounds i (suc left)) n a b ws ea (omega (arith, rounds-eq-add i (suc left)))
        (omega (arith, rounds-eq-add i (suc left))) (fails n (omega arith) (omega arith))
      ∙ skip i left (suc n) (a + 1) (next_backoff cfg b) (b ∷ ws) r calls more (omega arith)
          (omega arith) (λ j l u. fails j (omega arith) (omega arith))
          (λ a' b' ws' e'.
            let e : suc n + i ≡ n + suc i = omega arith in rw e (last a' b' ws' (omega arith)))

  -- What `do_retry` returns, and what it leaves, if the first `i` calls fail, in terms of the round
  -- that follows them.
  do_retry-skip :
      (i left more total : ℕ) (r : Result (RetryError C E) (Unit {0})) (calls : ℕ)
      → i + suc left ≡ cfg.max_attempts
      → i + more ≡ total
      → ((j : ℕ) → j < i → Fails j)
      → ((a' b' : ℕ) (ws' : List ℕ)
          → a' ≡ suc i
          → from (suc left) a' b' i ws' ≡ to r calls (waited cfg b' more ws'))
      → do_retry cfg wait call start ≡ to r calls (waited cfg cfg.initial_backoff total [])
  unfolding do_retry
  do_retry-skip i left more total r calls em et fails last =
      let er : rounds i (suc left) ≡ cfg.max_attempts = omega (arith, rounds-eq-add i (suc left)) in
      let et' : rounds i more ≡ total = omega (arith, rounds-eq-add i more) in
      let k : i ≡ zero + i = omega arith in
      let last' = (λ (a' b' : ℕ) (ws' : List ℕ) (h : a' ≡ suc (zero + i)).
        subst (λ m. from (suc left) a' b' m ws' ≡ to r calls (waited cfg b' more ws')) k
          (last a' b' ws' (omega arith))) in
      let whole =
        skip i left 0 1 cfg.initial_backoff [] r calls more (omega arith) (omega arith)
          (λ j l u. fails j (omega arith)) last' in
      rw er at (rw et' at whole)

  -- If the first i calls fail, no wait after them is cut short and call i succeeds, within the
  -- allowed number, the result is success, after exactly i + 1 calls and the schedule's first i waits.
  pub do_retry-succeeds :
      (i left : ℕ)
      → i + suc left ≡ cfg.max_attempts
      → ((j : ℕ) → j < i → Fails j)
      → outcomes i ≡ none
      → do_retry cfg wait call start
        ≡ (ok tt, record { calls = suc i; waits = waited cfg cfg.initial_backoff i [] })
  unfolding do_from
  do_retry-succeeds i left em fails good =
      do_retry-skip i left 0 i (ok tt) (suc i) em (omega arith) fails (λ a' b' ws' e. rw good refl)

  -- If every allowed call fails and no wait is cut short, the result is the last call's error, after
  -- exactly `max_attempts` calls and one wait fewer.
  pub do_retry-exhausts :
      (i : ℕ) (e : E)
      → suc i ≡ cfg.max_attempts
      → ((j : ℕ) → j < i → Fails j)
      → outcomes i ≡ some e
      → do_retry cfg wait call start ≡ (
        err (failed (suc i) e),
        record { calls = suc i; waits = waited cfg cfg.initial_backoff i [] },
      )
  unfolding do_from
  do_retry-exhausts i e em fails bad =
      do_retry-skip i 0 0 i (err (failed (suc i) e)) (suc i) (omega arith) (omega arith) fails
        (λ a' b' ws' ea. rw (bad, ea, not_ltb (suc i) cfg.max_attempts (omega arith), ea) refl)

  -- If the first i calls fail with full waits, call i fails before the last attempt, and the context
  -- ends during the wait that follows, the result is the context's error and no further call is made.
  pub do_retry-cancelled :
      (i : ℕ) (e : E) (c : C)
      → suc i < cfg.max_attempts
      → ((j : ℕ) → j < i → Fails j)
      → outcomes i ≡ some e
      → cancels (suc i) ≡ some c
      → do_retry cfg wait call start ≡ (
        err (cancelled (suc i) c),
        record { calls = suc i; waits = waited cfg cfg.initial_backoff (suc i) [] },
      )
  unfolding do_from
  do_retry-cancelled i e c em fails bad stop =
      do_retry-skip i (cfg.max_attempts - suc i) 1 (suc i) (err (cancelled (suc i) c)) (suc i)
        (omega arith) (omega arith) fails
        (λ a' b' ws' ea. rw (bad, ea, lt→ltb (suc i) cfg.max_attempts (omega arith), stop, ea) refl)

-- The two copies of the loop agree: `Do` is `DoWithResult` with the result forgotten.
module _ {C E S : Type 0} (cfg : RetryConfig) (wait : ℕ → S → Option C × S) where
  abbrev pub as_result : Option E → Result E (Unit {0})
  as_result none = ok tt
  as_result (some e) = err e

  module _ (fn : S → Option E × S) where
    abbrev pub with_unit : S → Result E (Unit {0}) × S
    with_unit s = (as_result (fn s).0, (fn s).1)

    do_from-eq :
        (left a b : ℕ) (s : S)
        → do_with_result_from cfg wait with_unit left a b s ≡ do_from cfg wait fn left a b s
    unfolding do_from do_with_result_from
    do_from-eq zero a b s = refl
    do_from-eq (suc left) a b s =
        ground (arith, do_from-eq left (a + 1) (next_backoff cfg b) (wait b (fn s).1).1)

    -- `DoWithResult` on an operation without a result returns what `Do` returns, whatever the waits and
    -- the operation do, and leaves the same state: the two copies of the loop agree.
    pub do_with_result-eq : (s : S) → do_with_result cfg wait with_unit s ≡ do_retry cfg wait fn s
    unfolding do_retry do_with_result
    do_with_result-eq s = do_from-eq cfg.max_attempts 1 cfg.initial_backoff s
