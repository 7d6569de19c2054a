-- ===== src/Retry.antt =====
-- internal/retry/retry.go: repeated attempts with an exponential backoff that is capped.
-- Durations are nanoseconds. `BackoffMultiple` is a float64 that the program only ever sets to 2.0,
-- here a number; `Retry.Schedule` shows that every product stays in the range where the float64
-- computation is exact. `MaxAttempts` is never negative in the program. Log lines are left out.
pub mod Schedule
pub mod Attempts
pub mod Outcomes
pub mod Tests
use docker_swarm_cluster_con.Prelude.{
  ℕ, zero, suc, ◌+◌, ◌*◌, String, Option, none, some, Bool, true, false, Result, ok, err, ltb,
  if◌then◌else◌,
}

pub record RetryConfig : Type 0 where
  pub max_attempts : ℕ
  pub initial_backoff : ℕ
  pub max_backoff : ℕ
  pub backoff_multiple : ℕ
  pub operation : String

abbrev pub second : ℕ
second = 1_000_000_000

unfoldable pub default_config : String → RetryConfig
default_config operation = record {
  max_attempts = 5;
  initial_backoff = 2 * second;
  max_backoff = 30 * second;
  backoff_multiple = 2;
  operation = operation;
}

unfoldable pub ssh_config : String → RetryConfig
ssh_config operation = record {
  max_attempts = 3;
  initial_backoff = 1 * second;
  max_backoff = 10 * second;
  backoff_multiple = 2;
  operation = operation;
}

unfoldable pub package_manager_config : String → RetryConfig
package_manager_config operation = record {
  max_attempts = 5;
  initial_backoff = 3 * second;
  max_backoff = 60 * second;
  backoff_multiple = 2;
  operation = operation;
}

unfoldable pub network_config : String → RetryConfig
network_config operation = record {
  max_attempts = 10;
  initial_backoff = 2 * second;
  max_backoff = 30 * second;
  backoff_multiple = 2;
  operation = operation;
}

-- The errors of `Do`: `C` is the context's error, `E` the operation's.
pub data RetryError {ℓ κ} (C : Type ℓ) (E : Type κ) : Type (ℓ ⊔ κ) where
  cancelled : ℕ → C → RetryError C E
  failed : ℕ → E → RetryError C E
  loop_exit : RetryError C E

-- `backoff` after one round of the loop
unfoldable pub next_backoff : RetryConfig → ℕ → ℕ
next_backoff cfg backoff =
    let scaled = backoff * cfg.backoff_multiple in
    if ltb cfg.max_backoff scaled then cfg.max_backoff else scaled

-- `S` is the state of the world that the operation and the wait change. `wait` is the `select`:
-- the context's error if it is done before the timer.
module _ {C E S : Type 0} (cfg : RetryConfig) (wait : ℕ → S → Option C × S) where
  module _ (fn : S → Option E × S) where
    -- The loop of `Do` with `left` rounds to go.
    do_from : (left attempt backoff : ℕ) → S → Result (RetryError C E) (Unit {0}) × S
    do_from zero attempt backoff s = (err loop_exit, s)
    do_from (suc left) attempt backoff s =
        let (e, s₁) = fn s in
        elim e [
          | none ↦ (ok tt, s₁)
          | some e ↦ elim (ltb attempt cfg.max_attempts) [
            | true ↦
                let (c, s₂) = wait backoff s₁ in
                elim c [
                  | some c ↦ (err (cancelled attempt c), s₂)
                  | none ↦ do_from left (attempt + 1) (next_backoff cfg backoff) s₂
                ]
            | false ↦ (err (failed attempt e), s₁)
          ]
        ]

    unfoldable pub do_retry : S → Result (RetryError C E) (Unit {0}) × S
    unfolding do_from next_backoff
    do_retry s = do_from cfg.max_attempts 1 cfg.initial_backoff s

  module _ {T : Type 0} (fn : S → Result E T × S) where
    -- The loop of `DoWithResult`.
    do_with_result_from : (left attempt backoff : ℕ) → S → Result (RetryError C E) T × S
    do_with_result_from zero attempt backoff s = (err loop_exit, s)
    do_with_result_from (suc left) attempt backoff s =
        let (r, s₁) = fn s in
        elim r [
          | ok res ↦ (ok res, s₁)
          | err e ↦ elim (ltb attempt cfg.max_attempts) [
            | true ↦
                let (c, s₂) = wait backoff s₁ in
                elim c [
                  | some c ↦ (err (cancelled attempt c), s₂)
                  | none ↦ do_with_result_from left (attempt + 1) (next_backoff cfg backoff) s₂
                ]
            | false ↦ (err (failed attempt e), s₁)
          ]
        ]

    unfoldable pub do_with_result : S → Result (RetryError C E) T × S
    unfolding do_with_result_from next_backoff
    do_with_result s = do_with_result_from cfg.max_attempts 1 cfg.initial_backoff s
