-- ===== src/Services/Authz.antt =====
-- soulon-wallet/src/services/authz.ts: authorisations. `range_error` is
-- what the engine throws for the milliseconds of an invalid date.
pub mod Expiry
use soulon_wallet.Prelude.{
  ℕ, ◌+◌, ◌*◌, ◌/◌, ◌%◌, or_default, Text, List, map, Option, none, some, leb, if◌then◌else◌,
}
use soulon_wallet.Prelude.Int.{pos, floor_div, rem, times}
use soulon_wallet.Prelude.Results.{Result, ok, err}
use soulon_wallet.Core.Errors.{Thrown}
use soulon_wallet.Core.Types.{
  Date, at, invalid_date, AuthzGrantInput, AuthzExecInput, AuthzExecMessage, AuthzRevokeInput,
}
use soulon_wallet.Core.Effects.{
  MsgValue, msg_grant, msg_exec, msg_revoke, TxRequest, Timestamp, DeliverTxResponse, Node, M,
  return, lift, date_now, sign_and_broadcast, ◌>>=◌,
}
use soulon_wallet.Core.Broadcast.{broadcast_with_retry, no_options}
use soulon_wallet.Services.Staking.{request_of}

-- `BigInt(NaN)` throws the engine's RangeError.
unfoldable pub to_timestamp : Thrown → Date → Result Thrown Timestamp
to_timestamp range_error (at millis) =
    ok (record { seconds = floor_div millis 1000; nanos = times (rem millis 1000) 1_000_000 })
to_timestamp range_error invalid_date = err range_error

-- `new Date(millis)`: a date is at most 10 ^ 8 days from the epoch.
abbrev pub new_date : ℕ → Date
new_date millis = if leb millis 8_640_000_000_000_000 then at (pos millis) else invalid_date

-- `input.expiration ?? new Date(Date.now() + 7 * 24 * 60 * 60 * 1000)`.
unfoldable pub expiration_of : Node → Option Date → M Date
expiration_of client (some date) = return date
expiration_of client none = do
  now ← date_now client
  return (new_date (now + 7 * 24 * 60 * 60 * 1000))

module _ (lower : Text → Text) (client : Node) where
  abbrev broadcast : M DeliverTxResponse → M DeliverTxResponse
  broadcast execute = broadcast_with_retry lower execute no_options

  -- The timestamp is made in the closure, for every attempt.
  unfoldable pub grant_generic_authorization : Thrown → AuthzGrantInput → M DeliverTxResponse
  unfolding expiration_of to_timestamp
  grant_generic_authorization range_error input = do
    expiration ← expiration_of client input.expiration
    let execute = lift (to_timestamp range_error expiration) >>= λ timestamp.
        sign_and_broadcast client (
          request_of input.granter_address "/cosmos.authz.v1beta1.MsgGrant"
            (msg_grant input.granter_address input.grantee_address input.msg_type_url timestamp)
            input.memo)
    broadcast execute

  unfoldable pub execute_authorized_messages : AuthzExecInput → M DeliverTxResponse
  execute_authorized_messages input = broadcast (
      sign_and_broadcast client (
        request_of input.grantee_address "/cosmos.authz.v1beta1.MsgExec"
          (msg_exec input.grantee_address
            (map (λ m. record { type_url = m.type_url; bytes = m.bytes }) input.messages))
          input.memo))

  unfoldable pub revoke_authorization : AuthzRevokeInput → M DeliverTxResponse
  revoke_authorization input = broadcast (
      sign_and_broadcast client (
        request_of input.granter_address "/cosmos.authz.v1beta1.MsgRevoke"
          (msg_revoke input.granter_address input.grantee_address input.msg_type_url) input.memo))
