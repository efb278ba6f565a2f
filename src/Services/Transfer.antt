-- ===== src/Services/Transfer.antt =====
-- soulon-wallet/src/services/transfer.ts: sending the native token, and waiting for the receipt.
-- `coin` is the client library's. The wait takes fuel as in Core.Poll.
pub mod Confirm
use soulon_wallet.Prelude.{ℕ, or_default, Text, List, [], ◌∷◌, Option}
use soulon_wallet.Core.Types.{NetworkConfig, TransferInput, TxPollResult}
use soulon_wallet.Prelude.Results.{Result, ok, err}
use soulon_wallet.Core.Errors.{Thrown}
use soulon_wallet.Core.Effects.{
  CoinOf, msg_send, EncodeObject, lift, TxRequest, DeliverTxResponse, Node, M, return,
  sign_and_broadcast, ◌>>=◌,
}
use soulon_wallet.Core.Broadcast.{broadcast_with_retry, no_options}
use soulon_wallet.Core.Poll.{WaitForTxInput, wait_for_tx}

pub record TransferConfirmInput : Type 0 where
  pub transfer : TransferInput
  pub timeout_ms : Option ℕ
  pub poll_interval_ms : Option ℕ

unfoldable pub build_native_transfer_message :
    CoinOf → NetworkConfig → TransferInput → Result Thrown EncodeObject
build_native_transfer_message coin network input = elim (coin input.amount network.denom) [
  | err error ↦ err error
  | ok token ↦ ok (record {
    type_url = "/cosmos.bank.v1beta1.MsgSend";
    value = msg_send input.from_address input.to_address (token ∷ []);
  })
]

abbrev pub request_with : TransferInput → EncodeObject → TxRequest
request_with input message = record {
  signer = input.from_address;
  messages = message ∷ [];
  memo = or_default input.memo [];
}

-- The message is built, or `coin` throws, in front of the broadcast.
unfoldable pub send_native_token :
    (Text → Text) → CoinOf → Node → NetworkConfig → TransferInput → M DeliverTxResponse
unfolding build_native_transfer_message
send_native_token lower coin client network input = do
  message ← lift (build_native_transfer_message coin network input)
  broadcast_with_retry lower (sign_and_broadcast client (request_with input message)) no_options

pub record Confirmation : Type 0 where
  pub tx_result : DeliverTxResponse
  pub receipt : Option TxPollResult

unfoldable pub send_native_token_and_confirm :
    (Text → Text) → CoinOf → Node → NetworkConfig → ℕ → TransferConfirmInput → M Confirmation
unfolding send_native_token
send_native_token_and_confirm lower coin client network fuel input = do
  tx_result ← send_native_token lower coin client network input.transfer
  receipt ←
      wait_for_tx client
        (record {
          hash = tx_result.transaction_hash;
          timeout_ms = input.timeout_ms;
          poll_interval_ms = input.poll_interval_ms;
        })
        fuel
  return (record { tx_result = tx_result; receipt = receipt })
