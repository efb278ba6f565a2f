-- ===== src/Core/Broadcast/Safety.antt =====
-- soulon-wallet/src/core/broadcast.ts: what a caller may rely on, whatever is executed.
use soulon_wallet.Prelude.{
  ℕ, zero, suc, ◌+◌, ◌≤◌, ◌<◌, ltb, ◌==◌, true, false, ◌&&◌, Text, Option, none, some, ◌≡◌, ◌∙◌,
  refl, arith, Bool-cases, inl, inr,
}
use native.Mathlib.Decide.{dec_lt}
use soulon_wallet.Prelude.Results.{Result, ok, err}
use soulon_wallet.Core.Errors.{WalletError, Thrown, soulon, map_tx_error, map_broadcast_error}
use soulon_wallet.Core.Errors.Classes.{map_tx_error-eq-none_iff}
use soulon_wallet.Core.Effects.{DeliverTxResponse, TxRequest, Node, World, M, sign_and_broadcast}
use soulon_wallet.Core.Broadcast.{
  BroadcastRetryOptions, max_attempts, is_retriable_code, is_retriable_error, thrown_of,
  broadcast_from, broadcast_with_retry,
}
use soulon_wallet.Core.Broadcast.Retry.{
  is_retriable, verdict, answer, IsRun, broadcast_with_retry-IsRun,
}

-- A returned response has code 0, and what is thrown is the library's own error class.
abbrev pub IsSound : Result Thrown DeliverTxResponse → Type 0
IsSound (ok result) = result.code ≡ 0
IsSound (err error) = (e : WalletError) × (error ≡ soulon e)

module _ (lower : Text → Text) where
  thrown_of-map_tx_error :
      (code : ℕ) (raw_log : Option Text)
      → (code == 0) ≡ false
      → (e : WalletError) × (thrown_of (map_tx_error lower code raw_log) ≡ soulon e)
  thrown_of-map_tx_error code raw_log h = go (map_tx_error lower code raw_log) refl
    where
      go :
          (m : Option WalletError)
          → map_tx_error lower code raw_log ≡ m
          → (e : WalletError) × (thrown_of m ≡ soulon e)
      go none q = absurd (ground (arith, map_tx_error-eq-none_iff lower code raw_log))
      go (some e) q = (e, refl)

  module _ (execute : M DeliverTxResponse) (options : BroadcastRetryOptions) where
    -- A round is sound if what follows it is.
    round-IsSound :
        (rounds attempt : ℕ) (last : Option WalletError) (w : World)
        (r : Result Thrown DeliverTxResponse)
        → (execute w).0 ≡ r
        → ((k : ℕ) (e : Option WalletError) (v : World)
            → IsSound (broadcast_from lower execute options rounds k e v).0)
        → IsSound (broadcast_from lower execute options (suc rounds) attempt last w).0
    unfolding broadcast_from
    round-IsSound rounds attempt last w (err error) e ih =
        elim (Bool-cases (
          is_retriable_error options (map_broadcast_error lower error).code
          && ltb attempt (max_attempts options))) [
            | inl again ↦ rw (e, again) (ih (attempt + 1) _ _)
            | inr over ↦ rw (e, over) (_, refl)
          ]
    round-IsSound rounds attempt last w (ok result) e ih = elim (Bool-cases (result.code == 0)) [
      | inl good ↦ rw (e, good) (ground arith)
      | inr bad ↦
          elim (Bool-cases
            (is_retriable_code options result.code && ltb attempt (max_attempts options))) [
              | inl again ↦ rw (e, bad, again) (ih (attempt + 1) _ _)
              | inr over ↦ rw (e, bad, over) (thrown_of-map_tx_error result.code result.raw_log bad)
            ]
    ]

    broadcast_from-IsSound :
        (rounds attempt : ℕ) (last : Option WalletError) (w : World)
        → IsSound (broadcast_from lower execute options rounds attempt last w).0
    unfolding broadcast_from
    broadcast_from-IsSound zero attempt last w = (_, refl)
    broadcast_from-IsSound (suc rounds) attempt last w =
        round-IsSound rounds attempt last w (execute w).0 refl (broadcast_from-IsSound rounds)

-- Whatever is executed, a broadcast with retries returns a response only if its code is 0, and
-- throws nothing but a wallet error: never null, and never the client's own exception.
pub broadcast_with_retry-IsSound :
    (lower : Text → Text) (execute : M DeliverTxResponse) (options : BroadcastRetryOptions)
    (w : World)
    → IsSound (broadcast_with_retry lower execute options w).0
unfolding broadcast_with_retry
broadcast_with_retry-IsSound lower execute options w =
    broadcast_from-IsSound lower execute options (max_attempts options) 1 none w

module _ (lower : Text → Text) (node : Node) (request : TxRequest) (options : BroadcastRetryOptions)
    (w : World) where
  -- A run that meets an answer which is not retriable, and met none before, stops there.
  IsRun-stops_at :
      (n n' m : ℕ) (result : Result Thrown DeliverTxResponse × World)
      → IsRun lower node request options 1 m w result n'
      → n ≤ m
      → ((i : ℕ)
          → i < n
          → is_retriable lower options (answer lower node request options 1 i w) ≡ true)
      → is_retriable lower options (answer lower node request options 1 n w) ≡ false
      → n' ≡ n
  IsRun-stops_at n n' m result run h retried over = elim (dec_lt n' n) [
    | yes early ↦ cc (retried n' early, run.stopped (omega arith))
    | no p ↦ elim (dec_lt n n') [ yes late ↦ cc (over, run.caused n late) | no q ↦ omega arith ]
  ]

-- If every one of the first `n` answers is retriable and the next one has code 0, within the
-- attempts allowed, then that response is returned.
pub broadcast_with_retry-succeeds :
    (lower : Text → Text) (node : Node) (request : TxRequest) (options : BroadcastRetryOptions)
    (w : World) (n : ℕ) (result : DeliverTxResponse)
    → n < max_attempts options
    → ((i : ℕ)
        → i < n
        → is_retriable lower options (answer lower node request options 1 i w) ≡ true)
    → answer lower node request options 1 n w ≡ ok result
    → result.code ≡ 0
    → (broadcast_with_retry lower (sign_and_broadcast node request) options w).0 ≡ ok result
unfolding is_retriable verdict
broadcast_with_retry-succeeds lower node request options w n result h retried accepted zero_code =
    let (n', run, _, _) = broadcast_with_retry-IsRun lower node request options w (omega arith) in
    let same : n' ≡ n =
      IsRun-stops_at lower node request options w n n' _ _ run (omega arith) retried
        (rw accepted (ground arith)) in
    run.judged ∙ rw (same, accepted) (ground arith)
