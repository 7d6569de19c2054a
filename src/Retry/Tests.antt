-- ===== src/Retry/Tests.antt =====
-- Runs of the retry loop of internal/retry/retry.go.
use docker_swarm_cluster_con.Prelude.{
  ℕ, zero, suc, ◌*◌, ◌^◌, ◌<◌, ◌≡◌, refl, min, [], ◌∷◌, Option, none, some, ok, err, arith,
  get_elem?, ltb, if◌then◌else◌,
}
use docker_swarm_cluster_con.Retry.{
  RetryConfig, second, default_config, ssh_config, package_manager_config, network_config,
  cancelled, failed, do_retry, do_with_result,
}
use docker_swarm_cluster_con.Retry.Schedule.{schedule, schedule_closed_form, FitsFloat, configs_fit}
use docker_swarm_cluster_con.Retry.Attempts.{
  start, waited, call, wait, Fails, do_retry-succeeds, do_retry-exhausts, do_retry-cancelled,
  with_unit, do_with_result-eq,
}

abbrev cfg : RetryConfig
cfg = record {
  max_attempts = 5;
  initial_backoff = 2 * second;
  max_backoff = 30 * second;
  backoff_multiple = 2;
  operation = "swarm-init";
}

-- fails with its own number below 2
abbrev third_time : ℕ → Option ℕ
third_time i = if ltb i 2 then some i else none

abbrev never : ℕ → Option ℕ
never i = some i

abbrev no_cancel : ℕ → Option ℕ
no_cancel i = none

abbrev cancel_second : ℕ → Option ℕ
cancel_second i = if ltb i 2 then none else some 99

early-Fails : (j : ℕ) → j < 2 → Fails cfg third_time no_cancel j
early-Fails zero h = (0, refl, refl)
early-Fails (suc zero) h = (1, refl, refl)
early-Fails (suc (suc j)) h = absurd (omega arith)

schedule_closed_form_example :
    get_elem? (schedule cfg cfg.initial_backoff 5) 4
    ≡ some (min (2 ^ 4 * cfg.initial_backoff) cfg.max_backoff)
schedule_closed_form_example = schedule_closed_form cfg 5 4 refl (omega arith) (omega arith)

configs_fit_run :
    FitsFloat (default_config "x")
    × FitsFloat (ssh_config "x")
    × FitsFloat (package_manager_config "x")
    × FitsFloat (network_config "x")
configs_fit_run = configs_fit "x"

do_retry-succeeds_example :
    do_retry cfg (wait cfg third_time no_cancel) (call cfg third_time no_cancel) start
    ≡ (ok tt, record { calls = 3; waits = waited cfg cfg.initial_backoff 2 [] })
do_retry-succeeds_example = do_retry-succeeds cfg third_time no_cancel 2 2 refl early-Fails refl

do_retry-exhausts_example :
    do_retry cfg (wait cfg never no_cancel) (call cfg never no_cancel) start
    ≡ (err (failed 5 4), record { calls = 5; waits = waited cfg cfg.initial_backoff 4 [] })
do_retry-exhausts_example =
    do_retry-exhausts cfg never no_cancel 4 4 refl (λ j h. (j, refl, refl)) refl

first-Fails : (j : ℕ) → j < 1 → Fails cfg never cancel_second j
first-Fails zero h = (0, refl, refl)
first-Fails (suc j) h = absurd (omega arith)

do_retry-cancelled_run :
    do_retry cfg (wait cfg never cancel_second) (call cfg never cancel_second) start
    ≡ (err (cancelled 2 99), record { calls = 2; waits = waited cfg cfg.initial_backoff 2 [] })
do_retry-cancelled_run =
    do_retry-cancelled cfg never cancel_second 1 1 99 (omega arith) first-Fails refl refl

do_with_result-eq_run :
    do_with_result cfg
      (wait cfg never no_cancel)
      (with_unit cfg (wait cfg never no_cancel) (call cfg never no_cancel))
      start
    ≡ do_retry cfg (wait cfg never no_cancel) (call cfg never no_cancel) start
do_with_result-eq_run =
    do_with_result-eq cfg (wait cfg never no_cancel) (call cfg never no_cancel) start

waits_run :
    (do_retry cfg (wait cfg never no_cancel) (call cfg never no_cancel) start).1.waits
    ≡ 16 * second ∷ 8 * second ∷ 4 * second ∷ 2 * second ∷ []
unfolding do_retry
waits_run = refl
