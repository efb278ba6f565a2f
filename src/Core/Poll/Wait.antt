-- ===== src/Core/Poll/Wait.antt =====
-- soulon-wallet/src/core/tx.ts: when waiting for a transaction ends, and with what.
use soulon_wallet.Prelude.{
  ℕ, zero, suc, ◌+◌, ◌-◌, ◌≤◌, ◌<◌, ltb, true, false, Text, ◌∷◌, Option, none, some, ◌≡◌, refl,
  arith, Bool-cases, inl, inr, ltb→lt,
}
use soulon_wallet.Prelude.Results.{Result, ok, err}
use soulon_wallet.Core.Errors.{Thrown}
use soulon_wallet.Core.Types.{TxPollResult, confirmed, timeout}
use soulon_wallet.Core.Effects.{Node, World}
use soulon_wallet.Core.Poll.{WaitForTxInput, timeout_ms, poll_interval_ms, poll_from, wait_for_tx}

abbrev pub read : World → World
read w = record w { readings = w.readings + 1 }

-- The clock is not set back, and a wait of `ms` takes at least `ms`.
pub record ClockAdvances (node : Node) : Type 0 where
  pub steady : (w : World) → node.now w ≤ node.now (read w)
  pub waits :
      (w : World) (hash : Text) (ms : ℕ)
      → node.now w + ms
        ≤ node.now
            (record w { polled = hash ∷ w.polled; slept = ms ∷ w.slept; readings = w.readings + 1 })

module _ (node : Node) (input : WaitForTxInput) where
  -- The outside after one round, and after `n` rounds, that did not find the transaction.
  abbrev pub round : World → World
  round w = record w {
    polled = input.hash ∷ w.polled;
    slept = poll_interval_ms input ∷ w.slept;
    readings = w.readings + 1;
  }

  unfoldable pub rounds : ℕ → World → World
  rounds zero w = w
  rounds (suc n) w = rounds n (round w)

  -- The last round: the transaction is found in time, the deadline has passed, or the node fails.
  pub data Ends (deadline : ℕ) (v : World) (result : Result Thrown (Option TxPollResult))
      : Type 0 where
    found :
        (height : ℕ)
        → node.now v < deadline
        → node.get_tx (read v) input.hash ≡ ok (some height)
        → result
          ≡ ok (some (record { hash = input.hash; status = confirmed; height = some height }))
        → Ends deadline v result
    expired :
        deadline ≤ node.now v
        → result ≡ ok (some (record { hash = input.hash; status = timeout; height = none }))
        → Ends deadline v result
    failed :
        (error : Thrown)
        → node.now v < deadline
        → node.get_tx (read v) input.hash ≡ err error
        → result ≡ err error
        → Ends deadline v result

  -- The first `n` rounds began in time and did not find the transaction; the next one ended.
  pub record IsWait (deadline : ℕ) (w : World) (result : Result Thrown (Option TxPollResult))
      (n : ℕ) : Type 0 where
    pub in_time : (i : ℕ) → i < n → node.now (rounds i w) < deadline
    pub missed : (i : ℕ) → i < n → node.get_tx (read (rounds i w)) input.hash ≡ ok none
    pub ended : Ends deadline (rounds n w) result

  IsWait-round :
      (deadline n : ℕ) (w : World) (result : Result Thrown (Option TxPollResult))
      → node.now w < deadline
      → node.get_tx (read w) input.hash ≡ ok none
      → IsWait deadline (round w) result n
      → IsWait deadline w result (suc n)
  unfolding rounds
  IsWait-round deadline n w result early missing next = record {
    in_time = λ i h. timely i h;
    missed = λ i h. miss i h;
    ended = next.ended;
  }
    where
      timely : (i : ℕ) → i < suc n → node.now (rounds i w) < deadline
      timely zero h = early
      timely (suc i) h = next.in_time i (omega arith)

      miss : (i : ℕ) → i < suc n → node.get_tx (read (rounds i w)) input.hash ≡ ok none
      miss zero h = missing
      miss (suc i) h = next.missed i (omega arith)

  IsWait-now :
      (deadline : ℕ) (w : World) (result : Result Thrown (Option TxPollResult))
      → Ends deadline w result
      → IsWait deadline w result 0
  unfolding rounds
  IsWait-now deadline w result end = record {
    in_time = λ i h. absurd (omega arith);
    missed = λ i h. absurd (omega arith);
    ended = end;
  }

  module _ (advances : ClockAdvances node) (positive : 0 < poll_interval_ms input)
      (started : ℕ) where
    -- A round that began in time ends by what the node answers.
    round-IsWait :
        (fuel : ℕ) (w : World) (r : Result Thrown (Option ℕ))
        → node.get_tx (read w) input.hash ≡ r
        → ltb (node.now w) (started + timeout_ms input) ≡ true
        → (n : ℕ) × IsWait
            (started + timeout_ms input)
            (round w)
            (poll_from node input fuel started (round w)).0
            n
        → (n : ℕ) × IsWait
            (started + timeout_ms input)
            w
            (poll_from node input (suc fuel) started w).0
            n
    unfolding poll_from
    round-IsWait fuel w (err e) q t rest =
        (0, IsWait-now _ w _ (failed e (ltb→lt _ _ t) q (rw (t, q))))
    round-IsWait fuel w (ok (some height)) q t rest =
        (0, IsWait-now _ w _ (found height (ltb→lt _ _ t) q (rw (t, q))))
    round-IsWait fuel w (ok none) q t (n, rest) =
        (suc n, IsWait-round _ n w _ (ltb→lt _ _ t) q (rw (t, q) rest))

    late-IsWait :
        (fuel : ℕ) (w : World)
        → ltb (node.now w) (started + timeout_ms input) ≡ false
        → IsWait (started + timeout_ms input) w (poll_from node input (suc fuel) started w).0 0
    unfolding poll_from
    late-IsWait fuel w late = IsWait-now _ w _ (expired (ground arith) (rw late))

    poll_from-IsWait :
        (fuel : ℕ) (w : World)
        → started + timeout_ms input - node.now w < fuel
        → (n : ℕ) × IsWait (started + timeout_ms input) w (poll_from node input fuel started w).0 n
    poll_from-IsWait zero w h = absurd (omega arith)
    poll_from-IsWait (suc fuel) w h =
        elim (Bool-cases (ltb (node.now w) (started + timeout_ms input))) [
          | inl early ↦ round-IsWait fuel w (node.get_tx (read w) input.hash) refl early (
              poll_from-IsWait fuel (round w) (
                omega
                  (arith, advances.waits w input.hash (poll_interval_ms input), ltb→lt _ _ early)))
          | inr late ↦ (0, late-IsWait fuel w late)
        ]

  -- If waiting takes time, waiting for a transaction ends: with more rounds than the timeout has
  -- milliseconds the fuel never runs out, and the answer is "confirmed" with the height at the
  -- first round that finds the transaction before the deadline, "timeout" if the deadline passes
  -- before that, or the failure of the node.
  pub wait_for_tx-IsWait :
      (fuel : ℕ) (w : World)
      → ClockAdvances node
      → 0 < poll_interval_ms input
      → timeout_ms input < fuel
      → (n : ℕ) × IsWait
          (node.now w + timeout_ms input)
          (read w)
          (wait_for_tx node input fuel w).0
          n
  unfolding wait_for_tx
  wait_for_tx-IsWait fuel w advances positive h =
      poll_from-IsWait advances positive (node.now w) fuel (read w)
        (omega (arith, advances.steady w))
