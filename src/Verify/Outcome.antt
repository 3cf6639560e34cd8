-- ===== src/Verify/Outcome.antt =====
-- What the results of the submitted calls say about the chain, and that the calls end.
use zkstellar.Prelude.{
  ℕ, zero, suc, ◌+◌, ◌-◌, ◌*◌, ◌≤◌, ◌<◌, ◌≡◌, refl, ◌∙◌, sym, true, false, some, ltb, ltb→lt, arith,
  Bool-cases, inl, inr, ℕ_discrete,
}
use zkstellar.Types.{
  Failure, soroban_zk_error, network_error, transaction_rejected, Result, ok, err,
}
use zkstellar.Verify.Server.{Success, TransactionStatus, not_found, failed, succeeded, Server}
use zkstellar.Verify.Poll.{poll_loop, default_timeout_ms, poll_interval_ms}

-- The transaction is found in round `n`, in time and with no answer but NOT_FOUND since a round.
pub record IsFound (server : Server) (round n : ℕ) (result : Success) : Type 0 where
  pub found_after : round ≤ n
  pub found_in_time : server.clock n - server.started < default_timeout_ms
  pub found_answer : server.poll n ≡ ok (succeeded result)
  pub found_waited : (m : ℕ) → round ≤ m → m < n → server.poll m ≡ ok not_found

module _ {R : Type 0} (finish : Success → Result R) (server : Server) where
  IsFound-now :
      (round : ℕ) (result : Success)
      → server.clock round - server.started < default_timeout_ms
      → server.poll round ≡ ok (succeeded result)
      → IsFound server round round result
  IsFound-now round result t e = record {
    found_after = omega arith;
    found_in_time = t;
    found_answer = e;
    found_waited = λ m p q. absurd (omega arith);
  }

  IsFound-later :
      (round n : ℕ) (result : Success)
      → server.poll round ≡ ok not_found
      → IsFound server (suc round) n result
      → IsFound server round n result
  IsFound-later round n result e f = record {
    found_after = omega (arith, f.found_after);
    found_in_time = f.found_in_time;
    found_answer = f.found_answer;
    found_waited = λ m p q. elim (ℕ_discrete round m) [
      | yes same ↦ rw (← same) e
      | no differ ↦ f.found_waited m (omega arith) q
    ];
  }

  -- One round, for each answer of the server in time, and after the time is up.
  round_in_time :
      (fuel round : ℕ)
      → ltb (server.clock round - server.started) default_timeout_ms ≡ true
      → ((server.poll round ≡ ok not_found)
          → poll_loop finish server (suc fuel) round ≡ poll_loop finish server fuel (suc round))
        × ((server.poll round ≡ ok failed)
            → poll_loop finish server (suc fuel) round
              ≡ some (err (soroban_zk_error transaction_rejected)))
        × ((result : Success)
            → server.poll round ≡ ok (succeeded result)
            → poll_loop finish server (suc fuel) round ≡ some (finish result))
        × ((failure : Failure)
            → server.poll round ≡ err failure
            → poll_loop finish server (suc fuel) round ≡ some (err failure))
  unfolding poll_loop
  round_in_time fuel round t =
      (λ e. rw (t, e), λ e. rw (t, e), λ result e. rw (t, e), λ failure e. rw (t, e))

  round_too_late :
      (fuel round : ℕ)
      → ltb (server.clock round - server.started) default_timeout_ms ≡ false
      → poll_loop finish server (suc fuel) round ≡ some (err (soroban_zk_error network_error))
  unfolding poll_loop
  round_too_late fuel round t = rw t

  unfoldable pub Found : ℕ → R → Type 0
  Found round r =
      (n : ℕ) × (result : Success) × IsFound server round n result × (finish result ≡ ok r)

  sound_round :
      (fuel round : ℕ) (r : R) (answer : Result TransactionStatus)
      → server.poll round ≡ answer
      → ltb (server.clock round - server.started) default_timeout_ms ≡ true
      → poll_loop finish server (suc fuel) round ≡ some (ok r)
      → (poll_loop finish server fuel (suc round) ≡ some (ok r) → Found (suc round) r)
      → Found round r
  unfolding Found
  sound_round fuel round r (err failure) e t h ih =
      absurd (cc ((round_in_time fuel round t).3 failure e, h))
  sound_round fuel round r (ok failed) e t h ih = absurd (cc ((round_in_time fuel round t).1 e, h))
  sound_round fuel round r (ok not_found) e t h ih =
      let (n, result, f, done) = ih (sym ((round_in_time fuel round t).0 e) ∙ h) in
      (n, result, IsFound-later round n result e f, done)
  sound_round fuel round r (ok (succeeded result)) e t h ih = (
    round,
    result,
    IsFound-now round result (ltb→lt _ _ t) e,
    cc ((round_in_time fuel round t).2 result e, h),
  )

  -- A result of the loop comes from a transaction that was found.
  pub poll_loop_sound :
      (fuel round : ℕ) (r : R) → poll_loop finish server fuel round ≡ some (ok r) → Found round r
  poll_loop_sound zero round r h = absurd (unfold poll_loop in cc)
  poll_loop_sound (suc fuel) round r h =
      elim (Bool-cases (ltb (server.clock round - server.started) default_timeout_ms)) [
        | inl t ↦
            sound_round fuel round r (server.poll round) refl t h
              (poll_loop_sound fuel (suc round) r)
        | inr t ↦ absurd (cc (round_too_late fuel round t, h))
      ]

  -- Each round ends a second after it began at the earliest.
  abbrev pub Ticks : Type 0
  Ticks =
      (server.started ≤ server.clock 0)
      × ((n : ℕ) → server.clock n + poll_interval_ms ≤ server.clock (suc n))

  clock_after : (round : ℕ) → Ticks → server.started + 1000 * round ≤ server.clock round
  clock_after zero (h, k) = omega arith
  clock_after (suc round) (h, k) = omega (arith, clock_after round (h, k), k round)

  total_round :
      (fuel round : ℕ) (answer : Result TransactionStatus)
      → server.poll round ≡ answer
      → ltb (server.clock round - server.started) default_timeout_ms ≡ true
      → ((r : Result R) × (poll_loop finish server fuel (suc round) ≡ some r))
      → (r : Result R) × (poll_loop finish server (suc fuel) round ≡ some r)
  total_round fuel round (err failure) e t ih =
      (err failure, (round_in_time fuel round t).3 failure e)
  total_round fuel round (ok failed) e t ih =
      (err (soroban_zk_error transaction_rejected), (round_in_time fuel round t).1 e)
  total_round fuel round (ok not_found) e t (r, ih) = (r, (round_in_time fuel round t).0 e ∙ ih)
  total_round fuel round (ok (succeeded result)) e t ih =
      (finish result, (round_in_time fuel round t).2 result e)

  -- Thirty-one rounds of fuel are enough.
  pub poll_loop_total :
      (fuel round : ℕ)
      → Ticks
      → 0 < fuel
      → 30 < round + fuel
      → (r : Result R) × (poll_loop finish server fuel round ≡ some r)
  poll_loop_total zero round ticks h k = absurd (omega arith)
  poll_loop_total (suc fuel) round ticks h k =
      elim (Bool-cases (ltb (server.clock round - server.started) default_timeout_ms)) [
        | inl t ↦
            let soon = ltb→lt (server.clock round - server.started) default_timeout_ms t in
            let passed = clock_after round ticks in
            total_round fuel round (server.poll round) refl t
              (poll_loop_total fuel (suc round) ticks (omega arith) (omega arith))
        | inr t ↦ (err (soroban_zk_error network_error), round_too_late fuel round t)
      ]
