-- ===== src/Services/Staking.antt =====
-- soulon-wallet/src/services/staking.ts: delegations and rewards. A query is the address that it
-- fetches; the decoded answer is handed on as it comes. `coin` is the client library's.
pub mod Safe
use soulon_wallet.Prelude.{or_default, String, Text, codes, List, [], ◌∷◌, ◌++◌, Option}
use soulon_wallet.Prelude.Results.{Result, ok, err}
use soulon_wallet.Core.Errors.{Thrown}
use soulon_wallet.Core.Types.{
  NetworkConfig, DelegateInput, UndelegateInput, RedelegateInput, WithdrawRewardsInput,
}
use soulon_wallet.Core.Effects.{
  DigitsCoinOf, MsgValue, msg_delegate, msg_undelegate, msg_begin_redelegate,
  msg_withdraw_delegator_reward, EncodeObject, TxRequest, DeliverTxResponse, Node, M, lift,
  sign_and_broadcast, ◌>>=◌,
}
use soulon_wallet.Core.Broadcast.{broadcast_with_retry, no_options}
use soulon_wallet.Services.Checks.{
  validate_delegator_address, validate_validator_address, validate_amount,
}

-- One message, signed by `signer`, with the memo or an empty one.
abbrev pub request_of : Text → String → MsgValue → Option Text → TxRequest
request_of signer type_url value memo = record {
  signer = signer;
  messages = record { type_url = type_url; value = value } ∷ [];
  memo = or_default memo [];
}

module _ (lower : Text → Text) (client : Node) (network : NetworkConfig) where
  -- `broadcastWithRetry(async () => client.signAndBroadcast(…))`.
  abbrev broadcast : TxRequest → M DeliverTxResponse
  broadcast request = broadcast_with_retry lower (sign_and_broadcast client request) no_options

  unfoldable pub delegate_to_validator : DigitsCoinOf → DelegateInput → M DeliverTxResponse
  delegate_to_validator coin input = do
    delegator ← lift (validate_delegator_address network input.delegator_address)
    validator ←
        lift
          (validate_validator_address network input.validator_address "INVALID_VALIDATOR_ADDRESS")
    amount ← lift (validate_amount input.amount)
    broadcast (
        request_of delegator "/cosmos.staking.v1beta1.MsgDelegate"
          (msg_delegate delegator validator (coin amount network.denom)) input.memo)

  unfoldable pub undelegate_from_validator : DigitsCoinOf → UndelegateInput → M DeliverTxResponse
  undelegate_from_validator coin input = do
    delegator ← lift (validate_delegator_address network input.delegator_address)
    validator ←
        lift
          (validate_validator_address network input.validator_address "INVALID_VALIDATOR_ADDRESS")
    amount ← lift (validate_amount input.amount)
    broadcast (
        request_of delegator "/cosmos.staking.v1beta1.MsgUndelegate"
          (msg_undelegate delegator validator (coin amount network.denom)) input.memo)

  unfoldable pub withdraw_validator_rewards : WithdrawRewardsInput → M DeliverTxResponse
  withdraw_validator_rewards input = do
    delegator ← lift (validate_delegator_address network input.delegator_address)
    validator ←
        lift
          (validate_validator_address network input.validator_address "INVALID_VALIDATOR_ADDRESS")
    broadcast (
        request_of delegator "/cosmos.distribution.v1beta1.MsgWithdrawDelegatorReward"
          (msg_withdraw_delegator_reward delegator validator) input.memo)

  unfoldable pub redelegate_to_validator : DigitsCoinOf → RedelegateInput → M DeliverTxResponse
  redelegate_to_validator coin input = do
    delegator ← lift (validate_delegator_address network input.delegator_address)
    validator_src ← lift (
        validate_validator_address network input.validator_src_address
          "INVALID_SOURCE_VALIDATOR_ADDRESS")
    validator_dst ← lift (
        validate_validator_address network input.validator_dst_address
          "INVALID_DESTINATION_VALIDATOR_ADDRESS")
    amount ← lift (validate_amount input.amount)
    broadcast (
        request_of delegator "/cosmos.staking.v1beta1.MsgBeginRedelegate"
          (msg_begin_redelegate delegator validator_src validator_dst (coin amount network.denom))
          input.memo)

-- The addresses that the queries fetch.
unfoldable pub query_validators : NetworkConfig → Text
query_validators network =
    network.rest_endpoint ++ codes "/cosmos/staking/v1beta1/validators?status=BOND_STATUS_BONDED"

unfoldable pub query_delegations : NetworkConfig → Text → M Text
query_delegations network delegator_address = do
  normalized ← lift (validate_delegator_address network delegator_address)
  lift (ok (network.rest_endpoint ++ (codes "/cosmos/staking/v1beta1/delegations/" ++ normalized)))

unfoldable pub query_rewards : NetworkConfig → Text → M Text
query_rewards network delegator_address = do
  normalized ← lift (validate_delegator_address network delegator_address)
  lift (
      ok (
        network.rest_endpoint
        ++ (codes "/cosmos/distribution/v1beta1/delegators/" ++ (normalized ++ codes "/rewards"))))
