-- ===== src/Services/Ibc/Timeout.antt =====
-- soulon-wallet/src/services/ibc.ts: the timeout that every copy of a transfer carries.
use soulon_wallet.Prelude.{ℕ, ◌+◌, ◌*◌, Text, or_default, ◌≡◌, refl, arith, ◌⊎◌, inl, inr}
use soulon_wallet.Prelude.Results.{Result, ok, err, Result-cases}
use soulon_wallet.Prelude.Int.{ℤ, pos_part, neg_part, plus, times, times-parts, plus-parts}
use soulon_wallet.Core.Errors.{Thrown, soulon, map_broadcast_error}
use soulon_wallet.Core.Types.{NetworkConfig, Seconds, thousandths, finer, IbcTransferInput}
use soulon_wallet.Core.Effects.{
  Coin, CoinOf, msg_transfer, TxRequest, Node, World, DeliverTxResponse,
}
use soulon_wallet.Core.Poll.Wait.{read}
use soulon_wallet.Services.Sending.{
  Sends, Sends-from, Sends-broadcast, SendsNothing, SendsNothing-from,
  broadcast_with_retry-SendsNothing,
}
use soulon_wallet.Services.Staking.{request_of}
use soulon_wallet.Services.Ibc.{milliseconds, default_timeout, transfer_ibc}

-- The transfer of a token with a timeout at the given nanosecond.
abbrev pub ibc_request : IbcTransferInput → Coin → ℤ → TxRequest
ibc_request input token timeout =
    request_of input.sender_address "/ibc.applications.transfer.v1.MsgTransfer"
      (msg_transfer input.source_port input.source_channel token input.sender_address
        input.receiver_address timeout)
      input.memo

-- The nanosecond `t` is `z` milliseconds behind the millisecond `now`.
abbrev pub IsDeadline : ℕ → ℤ → ℤ → Type 0
IsDeadline now z t =
    pos_part t + neg_part z * 1_000_000 ≡ neg_part t + (now + pos_part z) * 1_000_000

times-plus-IsDeadline : (now : ℕ) (z : ℤ) → IsDeadline now z (times (plus now z) 1_000_000)
times-plus-IsDeadline now z = omega (arith, times-parts (plus now z) 1_000_000, plus-parts now z)

Seconds-cases : (s : Seconds) → (s ≡ finer) ⊎ ((z : ℤ) × (s ≡ thousandths z))
Seconds-cases finer = inl refl
Seconds-cases (thousandths z) = inr (z, refl)

-- A transfer of the token that times out `z` milliseconds behind `now`.
abbrev pub IsTimed : IbcTransferInput → Coin → ℕ → ℤ → TxRequest → Type 0
IsTimed input token now z request =
    (t : ℤ) × IsDeadline now z t × (request ≡ ibc_request input token t)

module _ (lower : Text → Text) (coin : CoinOf) (range_error : Thrown) (client : Node)
    (network : NetworkConfig) (input : IbcTransferInput) (w : World) where
  abbrev call : Result Thrown DeliverTxResponse × World
  call = transfer_ibc lower coin range_error client network input w

  transfer_ibc-finer :
      or_default input.timeout_seconds default_timeout ≡ finer → call ≡ (err range_error, read w)
  unfolding transfer_ibc milliseconds
  transfer_ibc-finer e = rw e

  transfer_ibc-refused :
      (z : ℤ) (error : Thrown)
      → or_default input.timeout_seconds default_timeout ≡ thousandths z
      → coin input.amount network.denom ≡ err error
      → SendsNothing (soulon (map_broadcast_error lower error)) w call
  unfolding transfer_ibc milliseconds
  transfer_ibc-refused z error s e =
      rw (s, e)
        (SendsNothing-from (read w) w _ refl
          (broadcast_with_retry-SendsNothing lower error (read w)))

  transfer_ibc-sent :
      (z : ℤ) (token : Coin)
      → or_default input.timeout_seconds default_timeout ≡ thousandths z
      → coin input.amount network.denom ≡ ok token
      → Sends (IsTimed input token (client.now w) z) w call.1
  unfolding transfer_ibc milliseconds
  transfer_ibc-sent z token s e =
      let t = times (plus (client.now w) z) 1_000_000 in
      rw (s, e)
        (Sends-from (read w) w _ refl (
          Sends-broadcast _ lower client (ibc_request input token t)
            (t, times-plus-IsDeadline (client.now w) z, refl) (read w)))

  -- `transferIBC` reads the clock first. If the timeout (300 seconds if none is given) is no whole
  -- number of milliseconds, it throws the RangeError then and has done nothing else. Otherwise, if
  -- `coin` throws for the amount, it sends nothing and throws the library's error for what `coin`
  -- threw; and if `coin` does not throw, it sends one to three copies of one transfer of that coin and
  -- nothing else. All of them, however long the retries take, time out at the same nanosecond: the
  -- timeout behind the millisecond at which the clock was read, before the first attempt.
  pub transfer_ibc-IsTimed :
      ((or_default input.timeout_seconds default_timeout ≡ finer)
        × (call ≡ (err range_error, read w)))
      ⊎ ((z : ℤ) × (or_default input.timeout_seconds default_timeout ≡ thousandths z)
          × (((e : Thrown) × (coin input.amount network.denom ≡ err e)
                × SendsNothing (soulon (map_broadcast_error lower e)) w call)
              ⊎ ((token : Coin) × (coin input.amount network.denom ≡ ok token)
                  × Sends (IsTimed input token (client.now w) z) w call.1)))
  transfer_ibc-IsTimed = elim (Seconds-cases (or_default input.timeout_seconds default_timeout)) [
    | inl s ↦ inl (s, transfer_ibc-finer s)
    | inr (z, s) ↦ inr (
      z,
      s,
      elim (Result-cases (coin input.amount network.denom)) [
        | inl (token, e) ↦ inr (token, e, transfer_ibc-sent z token s e)
        | inr (error, e) ↦ inl (error, e, transfer_ibc-refused z error s e)
      ],
    )
  ]
