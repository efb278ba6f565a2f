-- ===== src/Core/Broadcast/Retry.antt =====
-- soulon-wallet/src/core/broadcast.ts: what a broadcast with retries sends, how long it waits and
-- what it answers, for every behaviour of the node.
use soulon_wallet.Prelude.{
  ℕ, zero, suc, ◌+◌, ◌-◌, ◌*◌, ◌≤◌, ◌<◌, ltb, ◌==◌, Bool, true, false, not, ◌&&◌, if◌then◌else◌,
  Text, List, [], ◌∷◌, ◌++◌, Option, none, some, ◌≡◌, refl, arith, Bool-cases, replicate-append, ap,
  ◌∙◌, sym, lt→ltb, inl, inr, replicate,
}
use soulon_wallet.Prelude.Results.{Result, ok, err}
use soulon_wallet.Core.Errors.{WalletError, Thrown, soulon, map_tx_error, map_broadcast_error}
use soulon_wallet.Core.Effects.{DeliverTxResponse, TxRequest, Node, World, sign_and_broadcast}
use soulon_wallet.Core.Broadcast.{
  BroadcastRetryOptions, max_attempts, base_delay_ms, is_retriable_code, is_retriable_error,
  thrown_of, broadcast_from, broadcast_with_retry,
}
use mathlib.Core.List.{append_assoc}

module _ (lower : Text → Text) (options : BroadcastRetryOptions) where
  -- The answers after which the library tries again, if it may.
  unfoldable pub is_retriable : Result Thrown DeliverTxResponse → Bool
  is_retriable (err error) = is_retriable_error options (map_broadcast_error lower error).code
  is_retriable (ok result) = not (result.code == 0) && is_retriable_code options result.code

-- What the last answer is turned into.
unfoldable pub verdict :
    (Text → Text) → Result Thrown DeliverTxResponse → Result Thrown DeliverTxResponse
verdict lower (err error) = err (soulon (map_broadcast_error lower error))
verdict lower (ok result) =
    if result.code == 0
    then ok result
    else err (thrown_of (map_tx_error lower result.code result.raw_log))

-- The waits before attempts `k + 1`, …, `k + n`, the newest first: linear in the attempt.
unfoldable pub delays : ℕ → ℕ → ℕ → List ℕ
delays base k zero = []
delays base k (suc n) = delays base (k + 1) n ++ (base * k) ∷ []

module _ (lower : Text → Text) (node : Node) (request : TxRequest)
    (options : BroadcastRetryOptions) where
  -- The outside after `n` failed attempts from attempt `k` on.
  unfoldable pub after : ℕ → ℕ → World → World
  after k zero w = w
  after k (suc n) w =
      after (k + 1) n
        (record w { sent = request ∷ w.sent; slept = base_delay_ms options * k ∷ w.slept })

  -- The node's answer to attempt `k + i`.
  unfoldable pub answer : ℕ → ℕ → World → Result Thrown DeliverTxResponse
  answer k i w = node.submit (after k i w) request

  -- `n` retries were made and `m` were allowed: each was caused by a retriable answer, the loop
  -- stopped as soon as an answer was not retriable, and the last answer is the result.
  pub record IsRun (k m : ℕ) (w : World) (result : Result Thrown DeliverTxResponse × World) (n : ℕ)
      : Type 0 where
    pub within : n ≤ m
    pub caused : (i : ℕ) → i < n → is_retriable lower options (answer k i w) ≡ true
    pub stopped : n < m → is_retriable lower options (answer k n w) ≡ false
    pub judged : result.0 ≡ verdict lower (answer k n w)
    pub final : result.1 ≡ (sign_and_broadcast node request (after k n w)).1

  abbrev step : ℕ → World → World
  step k w = record w { sent = request ∷ w.sent; slept = base_delay_ms options * k ∷ w.slept }

  abbrev loop : ℕ → ℕ → Option WalletError → World → Result Thrown DeliverTxResponse × World
  loop rounds k last w =
      broadcast_from lower (sign_and_broadcast node request) options rounds k last w

  -- A round whose answer is not retriable, or is the last one allowed, ends the loop.
  round_stops :
      (m k : ℕ) (w : World) (last : Option WalletError) (r : Result Thrown DeliverTxResponse)
      → node.submit w request ≡ r
      → (is_retriable lower options r && ltb k (max_attempts options)) ≡ false
      → loop (suc m) k last w ≡ (verdict lower r, record w { sent = request ∷ w.sent })
  unfolding broadcast_from is_retriable verdict
  round_stops m k w last (err error) e h = rw (e, h)
  round_stops m k w last (ok result) e h = elim (Bool-cases (result.code == 0)) [
    | inl good ↦ rw (e, good)
    | inr bad ↦ rw (e, bad, rw bad at h)
  ]

  -- Another round goes on with the next attempt, after the wait.
  round_goes_on :
      (m k : ℕ) (w : World) (last : Option WalletError) (r : Result Thrown DeliverTxResponse)
      → node.submit w request ≡ r
      → is_retriable lower options r ≡ true
      → ltb k (max_attempts options) ≡ true
      → (next : Option WalletError) × (loop (suc m) k last w ≡ loop m (k + 1) next (step k w))
  unfolding broadcast_from is_retriable
  round_goes_on m k w last (err error) e h l =
      (some (map_broadcast_error lower error), rw (e, h, l))
  round_goes_on m k w last (ok result) e h l = elim (Bool-cases (result.code == 0)) [
    | inl good ↦ cc (rw good at h)
    | inr bad ↦ (map_tx_error lower result.code result.raw_log, rw (e, bad, rw bad at h, l))
  ]

  cons-caused :
      (n k : ℕ) (w : World)
      → is_retriable lower options (node.submit w request) ≡ true
      → ((i : ℕ) → i < n → is_retriable lower options (answer (k + 1) i (step k w)) ≡ true)
      → (i : ℕ) → i < suc n
      → is_retriable lower options (answer k i w) ≡ true
  unfolding answer after
  cons-caused n k w first rest zero h = first
  cons-caused n k w first rest (suc i) h = rest i (omega arith)

  broadcast_from-IsRun :
      (m k : ℕ) (w : World) (last : Option WalletError)
      → k + m ≡ max_attempts options
      → (n : ℕ) × IsRun k m w
          (broadcast_from lower (sign_and_broadcast node request) options (suc m) k last w)
          n
  unfolding answer after
  broadcast_from-IsRun zero k w last e =
      let stop = round_stops zero k w last (node.submit w request) refl (ground arith) in
      (
        0,
        record {
          within = omega arith;
          caused = λ i h. absurd (omega arith);
          stopped = λ h. absurd (omega arith);
          judged = rw stop;
          final = rw stop;
        },
      )
  broadcast_from-IsRun (suc m) k w last e =
      elim (Bool-cases (is_retriable lower options (node.submit w request))) [
        | inl retry ↦
            let (next, eq) =
              round_goes_on (suc m) k w last (node.submit w request) refl retry
                (lt→ltb _ _ (omega arith)) in
            let (n, run) = broadcast_from-IsRun m (k + 1) (step k w) next (omega arith) in
            (
              suc n,
              record {
                within = omega (arith, run.within);
                caused = cons-caused n k w retry run.caused;
                stopped = λ h. run.stopped (omega arith);
                judged = rw eq run.judged;
                final = rw eq run.final;
              },
            )
        | inr over ↦
            let stop = round_stops (suc m) k w last (node.submit w request) refl (rw over) in
            (
              0,
              record {
                within = omega arith;
                caused = λ i h. absurd (omega arith);
                stopped = λ _. over;
                judged = rw stop;
                final = rw stop;
              },
            )
      ]

  sent-after : (k n : ℕ) (w : World) → (after k n w).sent ≡ replicate n request ++ w.sent
  unfolding after
  sent-after k zero w = refl
  sent-after k (suc n) w = sent-after (k + 1) n (step k w) ∙ sym (replicate-append n request w.sent)

  slept-after :
      (k n : ℕ) (w : World) → (after k n w).slept ≡ delays (base_delay_ms options) k n ++ w.slept
  unfolding after delays
  slept-after k zero w = refl
  slept-after k (suc n) w =
      slept-after (k + 1) n (step k w)
      ∙ sym (
          append_assoc (delays (base_delay_ms options) (k + 1) n) (base_delay_ms options * k ∷ [])
            w.slept)

  loop-IsRun :
      (m rounds : ℕ) (w : World)
      → suc m ≡ rounds
      → rounds ≡ max_attempts options
      → (n : ℕ) × IsRun 1 m w (loop rounds 1 none w) n
        × ((loop rounds 1 none w).1.sent ≡ request ∷ replicate n request ++ w.sent)
        × ((loop rounds 1 none w).1.slept ≡ delays (base_delay_ms options) 1 n ++ w.slept)
  loop-IsRun m rounds w e e' =
      let (n, run) = broadcast_from-IsRun m 1 w none (omega arith) in
      rw (← e) (
        n,
        run,
        ap (λ v. v.sent) run.final ∙ ap (λ l. request ∷ l) (sent-after 1 n w),
        ap (λ v. v.slept) run.final ∙ slept-after 1 n w,
      )

  -- With at least one attempt allowed, for every node: the request is sent `n + 1` times, with
  -- `n` waits of base * 1, base * 2, … between, where each of the first `n` answers was retriable
  -- and the last one was not, or was the last allowed. The last answer is the result: returned
  -- if its code is 0, and otherwise thrown as the error that the mapping functions make of it.
  pub broadcast_with_retry-IsRun :
      (w : World)
      → 0 < max_attempts options
      → (n : ℕ) × IsRun 1
          (max_attempts options - 1)
          w
          (broadcast_with_retry lower (sign_and_broadcast node request) options w)
          n
        × ((broadcast_with_retry lower (sign_and_broadcast node request) options w).1.sent
            ≡ request ∷ replicate n request ++ w.sent)
        × ((broadcast_with_retry lower (sign_and_broadcast node request) options w).1.slept
            ≡ delays (base_delay_ms options) 1 n ++ w.slept)
  unfolding broadcast_with_retry
  broadcast_with_retry-IsRun w h =
      loop-IsRun (max_attempts options - 1) (max_attempts options) w (omega arith) refl
