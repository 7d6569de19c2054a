-- ===== src/Storage/MicroCeph/Polling.antt =====
-- The waiting loops of internal/storage/microceph.go (`waitForCephFS`, `VerifyOSDsUpForHost` and
-- `WaitForClusterHealth`), which differ in what they ask: until a deadline, ask, and sleep if
-- the answer is not the wanted one. `now` is `time.Now` in nanoseconds, `cancelled` says whether the
-- context is done, and `sleep` is `time.Sleep`.
use docker_swarm_cluster_con.Prelude.{
  ℕ, zero, suc, ◌+◌, ◌*◌, ◌/◌, ◌≤◌, ◌<◌, ◌≡◌, ◌≢◌, arith, Bool, true, false, ok, err, ltb,
  Bool-cases, inl, inr,
}
use native.Mathlib.Nat.{div-add-mod', mod-lt}
use docker_swarm_cluster_con.Prelude.Action.{Action}

pub data PollError : Type 0 where
  timed_out wait_cancelled out_of_fuel : PollError

module _ {W : Type 0} (now : W → ℕ) (cancelled : W → Bool) (sleep : ℕ → W → W) where
  unfoldable pub poll :
      (fuel interval deadline : ℕ) → (W → Bool × W) → Action W PollError (Unit {0})
  poll zero interval deadline query w = (err out_of_fuel, w)
  poll (suc fuel) interval deadline query w = elim (ltb deadline (now w)) [
    | true ↦ (err timed_out, w)
    | false ↦ elim (cancelled w) [
      | true ↦ (err wait_cancelled, w)
      | false ↦
          let (done, w₁) = query w in
          elim done [
            | true ↦ (ok tt, w₁)
            | false ↦ poll fuel interval deadline query (sleep interval w₁)
          ]
    ]
  ]

  -- The rounds that fit into the timeout, and one more.
  unfoldable pub poll_for : (timeout interval : ℕ) → (W → Bool × W) → Action W PollError (Unit {0})
  unfolding poll
  poll_for timeout interval query w =
      poll (suc (suc (timeout / interval))) interval (now w + timeout) query w

  -- After a success the last question had the wanted answer.
  poll-ok :
      (fuel interval deadline : ℕ) (query : W → Bool × W) (w w' : W)
      → poll fuel interval deadline query w ≡ (ok tt, w')
      → (w₀ : W) × (query w₀ ≡ (true, w'))
  unfolding poll
  poll-ok zero interval deadline query w w' h = ground arith
  poll-ok (suc fuel) interval deadline query w w' h = elim (Bool-cases (ltb deadline (now w))) [
    | inl t ↦ ground arith
    | inr f ↦ elim (Bool-cases (cancelled w)) [
      | inl t ↦ ground arith
      | inr g ↦ elim (Bool-cases (query w).0) [
        | inl t ↦ (w, ground arith)
        | inr k ↦
            poll-ok fuel interval deadline query (sleep interval (query w).1) w' (ground arith)
      ]
    ]
  ]

  pub poll_for-ok :
      (timeout interval : ℕ) (query : W → Bool × W) (w w' : W)
      → poll_for timeout interval query w ≡ (ok tt, w')
      → (w₀ : W) × (query w₀ ≡ (true, w'))
  unfolding poll_for
  poll_for-ok timeout interval query w w' h =
      poll-ok (suc (suc (timeout / interval))) interval (now w + timeout) query w w' h

  -- The clock does not go back, and a sleep takes as long as it is told at least.
  module _ (interval : ℕ) (query : W → Bool × W) (asking : (w : W) → now w ≤ now (query w).1)
      (sleeping : (w : W) → now w + interval ≤ now (sleep interval w)) where
    poll-ends :
        (fuel deadline : ℕ) (w : W)
        → deadline < now w + fuel * interval
        → (poll (suc fuel) interval deadline query w).0 ≢ err out_of_fuel
    unfolding poll
    poll-ends zero deadline w enough h = ground arith
    poll-ends (suc fuel) deadline w enough h = elim (Bool-cases (ltb deadline (now w))) [
      | inl t ↦ ground arith
      | inr f ↦ elim (Bool-cases (cancelled w)) [
        | inl t ↦ ground arith
        | inr g ↦ elim (Bool-cases (query w).0) [
          | inl t ↦ ground arith
          | inr k ↦
              let w' = sleep interval (query w).1 in
              let later : now w + interval ≤ now w' =
                omega (arith, asking w, sleeping (query w).1) in
              let rounds : suc fuel * interval ≡ interval + fuel * interval = omega arith in
              poll-ends fuel deadline w' (omega (arith, later, rounds, enough)) (ground arith)
        ]
      ]
    ]

    -- If the clock does not go back and a sleep lasts at least the interval, which is not zero, then the
    -- rounds that are allowed suffice: the loop always ends with a success, at its deadline or
    -- because the context is done.
    pub poll_for-ends :
        (timeout : ℕ) (w : W)
        → 0 < interval
        → (poll_for timeout interval query w).0 ≢ err out_of_fuel
    unfolding poll_for
    poll_for-ends timeout w positive =
        let rounds : suc (timeout / interval) * interval
            ≡ interval + timeout / interval * interval =
          omega arith in
        poll-ends (suc (timeout / interval)) (now w + timeout) w
          (omega (arith, rounds, div-add-mod' timeout interval, mod-lt timeout positive))
