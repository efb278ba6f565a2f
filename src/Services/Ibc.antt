-- ===== src/Services/Ibc.antt =====
-- soulon-wallet/src/services/ibc.ts: transfers to another chain. `coin` is the client
-- library's, and `range_error` is what the engine throws for a timeout that is no integer.
pub mod Timeout
use soulon_wallet.Prelude.{or_default, Text, codes, ◌++◌}
use soulon_wallet.Prelude.Int.{ℤ, pos, plus, times}
use soulon_wallet.Prelude.Results.{Result, ok, err}
use soulon_wallet.Core.Errors.{Thrown}
use soulon_wallet.Core.Types.{NetworkConfig, Seconds, thousandths, finer, IbcTransferInput}
use soulon_wallet.Core.Effects.{
  CoinOf, lift, MsgValue, msg_transfer, TxRequest, DeliverTxResponse, Node, M, date_now,
  sign_and_broadcast, ◌>>=◌,
}
use soulon_wallet.Core.Broadcast.{broadcast_with_retry, no_options}
use soulon_wallet.Services.Staking.{request_of}

-- `BigInt(seconds * 1000)`, which throws the engine's RangeError for a number that is no integer.
unfoldable pub milliseconds : Thrown → Seconds → Result Thrown ℤ
milliseconds range_error (thousandths z) = ok z
milliseconds range_error finer = err range_error

abbrev pub default_timeout : Seconds
default_timeout = thousandths (pos 300_000)

unfoldable pub transfer_ibc :
    (Text → Text) → CoinOf → Thrown → Node → NetworkConfig → IbcTransferInput → M DeliverTxResponse
unfolding milliseconds
transfer_ibc lower coin range_error client network input = do
  let timeout_seconds = or_default input.timeout_seconds default_timeout
  now ← date_now client
  timeout ← lift (milliseconds range_error timeout_seconds)
  let timeout_timestamp_ns = times (plus now timeout) 1_000_000
  -- `coin` is called in the closure, for every attempt.
  let execute = lift (coin input.amount network.denom) >>= λ token. sign_and_broadcast client (
      request_of input.sender_address "/ibc.applications.transfer.v1.MsgTransfer"
        (msg_transfer input.source_port input.source_channel token input.sender_address
          input.receiver_address timeout_timestamp_ns)
        input.memo)
  broadcast_with_retry lower execute no_options

unfoldable pub query_ibc_channels : NetworkConfig → Text
query_ibc_channels network = network.rest_endpoint ++ codes "/ibc/core/channel/v1/channels"
