-- ===== src/Services/Transfer/Confirm.antt =====
-- soulon-wallet/src/services/transfer.ts: what is sent, and whose receipt is returned.
use soulon_wallet.Prelude.{
  ℕ, zero, suc, ◌+◌, ltb, true, false, Bool-cases, inl, inr, ◌⊎◌, or_default, [], ◌∷◌, Text, Option,
  none, some, ◌≡◌, ◌∙◌, sym, refl,
}
use mathlib.Core.Path.{subst}
use soulon_wallet.Prelude.Results.{Result, ok, err, Result-cases}
use soulon_wallet.Core.Errors.{Thrown}
use soulon_wallet.Core.Types.{NetworkConfig, TransferInput, TxPollResult}
use soulon_wallet.Core.Effects.{
  Coin, CoinOf, msg_send, DeliverTxResponse, TxRequest, Node, World, M, return, continue, ◌>>=◌,
}
use soulon_wallet.Core.Broadcast.Safety.{IsSound, broadcast_with_retry-IsSound}
use soulon_wallet.Core.Effects.{sign_and_broadcast}
use soulon_wallet.Core.Broadcast.{no_options, broadcast_with_retry}
use soulon_wallet.Core.Poll.{WaitForTxInput, timeout_ms, poll_from, wait_for_tx}
use soulon_wallet.Core.Poll.Wait.{read}
use soulon_wallet.Services.Sending.{Sends, Sends-broadcast}
use soulon_wallet.Services.Transfer.{
  TransferConfirmInput, send_native_token, build_native_transfer_message, Confirmation,
  send_native_token_and_confirm,
}

-- A receipt, if there is one, names the transaction.
abbrev pub IsReceiptOf : Text → Result Thrown (Option TxPollResult) → Type 0
IsReceiptOf hash (ok (some r)) = r.hash ≡ hash
IsReceiptOf hash _ = Unit

module _ (node : Node) (input : WaitForTxInput) where
  -- Polling sends nothing, and what it answers is about the hash that was asked for.
  abbrev Quiet : World → Result Thrown (Option TxPollResult) × World → Type 0
  Quiet w (r, w') = (w'.sent ≡ w.sent) × IsReceiptOf input.hash r

  poll_round-Quiet :
      (fuel started : ℕ) (w : World) (r : Result Thrown (Option ℕ))
      → node.get_tx (read w) input.hash ≡ r
      → ltb (node.now w) (started + timeout_ms input) ≡ true
      → ((v : World) → Quiet v (poll_from node input fuel started v))
      → Quiet w (poll_from node input (suc fuel) started w)
  unfolding poll_from
  poll_round-Quiet fuel started w (err e) q t ih = rw (t, q) (refl, tt)
  poll_round-Quiet fuel started w (ok (some height)) q t ih = rw (t, q) (refl, refl)
  poll_round-Quiet fuel started w (ok none) q t ih = rw (t, q) (ih _)

  poll_late-Quiet :
      (fuel started : ℕ) (w : World)
      → ltb (node.now w) (started + timeout_ms input) ≡ false
      → Quiet w (poll_from node input (suc fuel) started w)
  unfolding poll_from
  poll_late-Quiet fuel started w t = rw t (refl, refl)

  poll_from-Quiet : (fuel started : ℕ) (w : World) → Quiet w (poll_from node input fuel started w)
  poll_from-Quiet zero started w = unfold poll_from in (refl, tt)
  poll_from-Quiet (suc fuel) started w =
      elim (Bool-cases (ltb (node.now w) (started + timeout_ms input))) [
        | inl early ↦ poll_round-Quiet fuel started w _ refl early (poll_from-Quiet fuel started)
        | inr late ↦ poll_late-Quiet fuel started w late
      ]

  wait_for_tx-Quiet : (fuel : ℕ) (w : World) → Quiet w (wait_for_tx node input fuel w)
  unfolding wait_for_tx
  wait_for_tx-Quiet fuel w = poll_from-Quiet fuel (node.now w) (read w)

-- A confirmation is of an accepted transaction, and its receipt is that transaction's.
abbrev pub IsConfirmation : Result Thrown Confirmation → Type 0
IsConfirmation (ok c) =
    (c.tx_result.code ≡ 0) × IsReceiptOf c.tx_result.transaction_hash (ok c.receipt)
IsConfirmation (err e) = Unit

-- The rest of the function behind the wait.
abbrev with_receipt : DeliverTxResponse → Option TxPollResult → M Confirmation
with_receipt tx_result receipt = return (record { tx_result = tx_result; receipt = receipt })

module _ (P : TxRequest → Type 0) (w : World) where
  Sends-same : (v v' : World) → v'.sent ≡ v.sent → Sends P w v → Sends P w v'
  Sends-same v v' e s = record {
    request = s.request;
    fit = s.fit;
    copies = s.copies;
    some_copy = s.some_copy;
    few_copies = s.few_copies;
    sent = e ∙ s.sent;
  }

  confirm_receipt :
      (tx_result : DeliverTxResponse) (v : World)
      (second : Result Thrown (Option TxPollResult) × World)
      → tx_result.code ≡ 0
      → IsReceiptOf tx_result.transaction_hash second.0
      → second.1.sent ≡ v.sent
      → Sends P w v
      → IsConfirmation (continue second (with_receipt tx_result)).0
        × Sends P w (continue second (with_receipt tx_result)).1
  confirm_receipt tx_result v (ok receipt, v') z r e s = ((z, r), Sends-same v v' e s)
  confirm_receipt tx_result v (err error, v') z r e s = (tt, Sends-same v v' e s)

module _ (lower : Text → Text) (client : Node) (network : NetworkConfig) (fuel : ℕ)
    (input : TransferConfirmInput) (w : World) where
  abbrev wait_input : DeliverTxResponse → WaitForTxInput
  wait_input tx_result = record {
    hash = tx_result.transaction_hash;
    timeout_ms = input.timeout_ms;
    poll_interval_ms = input.poll_interval_ms;
  }

  abbrev rest : DeliverTxResponse → M Confirmation
  rest tx_result = wait_for_tx client (wait_input tx_result) fuel >>= with_receipt tx_result

  confirm_all :
      (request : TxRequest) (first : Result Thrown DeliverTxResponse × World)
      → IsSound first.0
      → Sends (λ r. r ≡ request) w first.1
      → IsConfirmation (continue first rest).0 × Sends (λ r. r ≡ request) w (continue first rest).1
  confirm_all request (err e, v) sound sends = (tt, sends)
  confirm_all request (ok tx_result, v) sound sends =
      let (quiet, receipt) = wait_for_tx-Quiet client (wait_input tx_result) fuel v in
      confirm_receipt _ w tx_result v (wait_for_tx client (wait_input tx_result) fuel v) sound
        receipt quiet sends

  confirm_request :
      (request : TxRequest)
      → let r =
          continue
            (broadcast_with_retry lower (sign_and_broadcast client request) no_options w)
            rest in
        IsConfirmation r.0 × Sends (λ x. x ≡ request) w r.1
  confirm_request request =
      confirm_all request
        (broadcast_with_retry lower (sign_and_broadcast client request) no_options w)
        (broadcast_with_retry-IsSound lower (sign_and_broadcast client request) no_options w)
        (Sends-broadcast (λ r. r ≡ request) lower client request refl w)

-- The transfer of a token, signed by its sender.
abbrev pub transfer_request : TransferInput → Coin → TxRequest
transfer_request input token = record {
  signer = input.from_address;
  messages =
      record {
        type_url = "/cosmos.bank.v1beta1.MsgSend";
        value = msg_send input.from_address input.to_address (token ∷ []);
      }
      ∷ [];
  memo = or_default input.memo [];
}

send_native_token_and_confirm-ok :
    (lower : Text → Text) (coin : CoinOf) (client : Node) (network : NetworkConfig) (fuel : ℕ)
    (input : TransferConfirmInput) (w : World) (token : Coin)
    → coin input.transfer.amount network.denom ≡ ok token
    → send_native_token_and_confirm lower coin client network fuel input w
      ≡ continue
          (broadcast_with_retry lower
            (sign_and_broadcast client (transfer_request input.transfer token))
            no_options
            w)
          (rest lower client network fuel input w)
unfolding send_native_token_and_confirm send_native_token build_native_transfer_message
send_native_token_and_confirm-ok lower coin client network fuel input w token e =
    rw (continue, build_native_transfer_message, e)

-- If `coin` throws for the amount, `sendNativeTokenAndConfirm` throws that error and has done
-- nothing to the outside. Otherwise it sends one to three copies of the transfer of that coin and
-- nothing else, also while it waits. If it returns, the transaction's code is 0, and the receipt,
-- unless the fuel of the wait ran out, is for the hash of that transaction.
pub send_native_token_and_confirm-IsConfirmation :
    (lower : Text → Text) (coin : CoinOf) (client : Node) (network : NetworkConfig) (fuel : ℕ)
    (input : TransferConfirmInput) (w : World)
    → ((e : Thrown) × (coin input.transfer.amount network.denom ≡ err e)
        × (send_native_token_and_confirm lower coin client network fuel input w ≡ (err e, w)))
      ⊎ ((token : Coin) × (coin input.transfer.amount network.denom ≡ ok token)
          × IsConfirmation (send_native_token_and_confirm lower coin client network fuel input w).0
          × Sends
              (λ r. r ≡ transfer_request input.transfer token)
              w
              (send_native_token_and_confirm lower coin client network fuel input w).1)
unfolding send_native_token_and_confirm send_native_token build_native_transfer_message
send_native_token_and_confirm-IsConfirmation lower coin client network fuel input w =
    elim (Result-cases (coin input.transfer.amount network.denom)) [
      | inl (token, e) ↦
          let same =
            send_native_token_and_confirm-ok lower coin client network fuel input w token e in
          let (confirmed, sends) =
            subst
              (λ x.
                IsConfirmation x.0 × Sends (λ q. q ≡ transfer_request input.transfer token) w x.1)
              (sym same)
              (confirm_request lower client network fuel input w
                (transfer_request input.transfer token)) in
          inr (token, e, confirmed, sends)
      | inr (error, e) ↦ inl (error, e, rw (continue, build_native_transfer_message, e))
    ]
