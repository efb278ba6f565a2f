-- ===== src/Services/Staking/Safe.antt =====
-- soulon-wallet/src/services/staking.ts: what the staking operations may send.
use soulon_wallet.Prelude.{Text, ◌≡◌, refl}
use soulon_wallet.Core.Types.{
  NetworkConfig, DelegateInput, UndelegateInput, RedelegateInput, WithdrawRewardsInput,
}
use soulon_wallet.Core.Effects.{
  msg_delegate, msg_undelegate, msg_begin_redelegate, msg_withdraw_delegator_reward, TxRequest,
  Node, DigitsCoinOf,
}
use soulon_wallet.Services.Checks.Accepted.{
  IsOwnAddress, IsValidatorAddress, IsAmount, validate_amount-IsAmount,
  validate_validator_address-IsValidatorAddress, validate_delegator_address-IsOwnAddress,
}
use soulon_wallet.Services.Checks.{validate_validator_address}
use soulon_wallet.Services.Sending.{IsCareful, IsCareful-check, IsCareful-broadcast}
use soulon_wallet.Services.Staking.{
  request_of, delegate_to_validator, undelegate_from_validator, withdraw_validator_rewards,
  redelegate_to_validator,
}

-- A request that the delegator signs for itself, with checked addresses and a positive amount.
pub record IsDelegation (coin : DigitsCoinOf) (network : NetworkConfig) (input : DelegateInput)
    (request : TxRequest) : Type 0 where
  pub delegator : Text
  pub validator : Text
  pub amount : Text
  pub own : IsOwnAddress network input.delegator_address delegator
  pub target : IsValidatorAddress network input.validator_address validator
  pub positive : IsAmount input.amount amount
  pub built :
      request
      ≡ request_of delegator "/cosmos.staking.v1beta1.MsgDelegate"
          (msg_delegate delegator validator (coin amount network.denom))
          input.memo

pub record IsUndelegation (coin : DigitsCoinOf) (network : NetworkConfig) (input : UndelegateInput)
    (request : TxRequest) : Type 0 where
  pub delegator : Text
  pub validator : Text
  pub amount : Text
  pub own : IsOwnAddress network input.delegator_address delegator
  pub source : IsValidatorAddress network input.validator_address validator
  pub positive : IsAmount input.amount amount
  pub built :
      request
      ≡ request_of delegator "/cosmos.staking.v1beta1.MsgUndelegate"
          (msg_undelegate delegator validator (coin amount network.denom))
          input.memo

pub record IsWithdrawal (network : NetworkConfig) (input : WithdrawRewardsInput)
    (request : TxRequest) : Type 0 where
  pub delegator : Text
  pub validator : Text
  pub own : IsOwnAddress network input.delegator_address delegator
  pub source : IsValidatorAddress network input.validator_address validator
  pub built :
      request
      ≡ request_of delegator "/cosmos.distribution.v1beta1.MsgWithdrawDelegatorReward"
          (msg_withdraw_delegator_reward delegator validator)
          input.memo

pub record IsRedelegation (coin : DigitsCoinOf) (network : NetworkConfig) (input : RedelegateInput)
    (request : TxRequest) : Type 0 where
  pub delegator : Text
  pub source : Text
  pub target : Text
  pub amount : Text
  pub own : IsOwnAddress network input.delegator_address delegator
  pub from_validator : IsValidatorAddress network input.validator_src_address source
  pub to_validator : IsValidatorAddress network input.validator_dst_address target
  pub positive : IsAmount input.amount amount
  pub built :
      request
      ≡ request_of delegator "/cosmos.staking.v1beta1.MsgBeginRedelegate"
          (msg_begin_redelegate delegator source target (coin amount network.denom))
          input.memo

module _ (lower : Text → Text) (client : Node) (network : NetworkConfig) where
  -- `delegateToValidator` throws before it has done anything to the outside, or it sends one to
  -- three copies of one delegation with checked addresses and amount, and nothing else.
  pub delegate_to_validator-IsCareful :
      (coin : DigitsCoinOf) (input : DelegateInput)
      → IsCareful
          (IsDelegation coin network input)
          (delegate_to_validator lower client network coin input)
  unfolding delegate_to_validator
  delegate_to_validator-IsCareful coin input = IsCareful-check _ _ _ λ d hd.
      IsCareful-check _ _ _ λ v hv. IsCareful-check _ _ _ λ a ha.
        IsCareful-broadcast _ lower client _ (record {
          delegator = d;
          validator = v;
          amount = a;
          own = validate_delegator_address-IsOwnAddress network input.delegator_address d hd;
          target =
              validate_validator_address-IsValidatorAddress network input.validator_address _ v hv;
          positive = validate_amount-IsAmount input.amount a ha;
          built = refl;
        })

  -- `undelegateFromValidator` throws before it has done anything to the outside, or it sends one
  -- to three copies of one undelegation with checked addresses and amount, and nothing else.
  pub undelegate_from_validator-IsCareful :
      (coin : DigitsCoinOf) (input : UndelegateInput)
      → IsCareful
          (IsUndelegation coin network input)
          (undelegate_from_validator lower client network coin input)
  unfolding undelegate_from_validator
  undelegate_from_validator-IsCareful coin input = IsCareful-check _ _ _ λ d hd.
      IsCareful-check _ _ _ λ v hv. IsCareful-check _ _ _ λ a ha.
        IsCareful-broadcast _ lower client _ (record {
          delegator = d;
          validator = v;
          amount = a;
          own = validate_delegator_address-IsOwnAddress network input.delegator_address d hd;
          source =
              validate_validator_address-IsValidatorAddress network input.validator_address _ v hv;
          positive = validate_amount-IsAmount input.amount a ha;
          built = refl;
        })

  -- `withdrawValidatorRewards` throws before it has done anything to the outside, or it sends one
  -- to three copies of one withdrawal with checked addresses, and nothing else.
  pub withdraw_validator_rewards-IsCareful :
      (input : WithdrawRewardsInput)
      → IsCareful
          (IsWithdrawal network input)
          (withdraw_validator_rewards lower client network input)
  unfolding withdraw_validator_rewards
  withdraw_validator_rewards-IsCareful input = IsCareful-check _ _ _ λ d hd.
      IsCareful-check _ _ _ λ v hv. IsCareful-broadcast _ lower client _ (record {
        delegator = d;
        validator = v;
        own = validate_delegator_address-IsOwnAddress network input.delegator_address d hd;
        source =
            validate_validator_address-IsValidatorAddress network input.validator_address _ v hv;
        built = refl;
      })

  -- `redelegateToValidator` throws before it has done anything to the outside, or it sends one to
  -- three copies of one redelegation, from the checked source to the checked destination, and
  -- nothing else.
  pub redelegate_to_validator-IsCareful :
      (coin : DigitsCoinOf) (input : RedelegateInput)
      → IsCareful
          (IsRedelegation coin network input)
          (redelegate_to_validator lower client network coin input)
  unfolding redelegate_to_validator
  redelegate_to_validator-IsCareful coin input = IsCareful-check _ _ _ λ d hd.
      IsCareful-check _
        (validate_validator_address network input.validator_src_address
          "INVALID_SOURCE_VALIDATOR_ADDRESS")
        _
        λ s hs.
          IsCareful-check _
            (validate_validator_address network input.validator_dst_address
              "INVALID_DESTINATION_VALIDATOR_ADDRESS")
            _
            λ t ht. IsCareful-check _ _ _ λ a ha. IsCareful-broadcast _ lower client _ (record {
              delegator = d;
              source = s;
              target = t;
              amount = a;
              own = validate_delegator_address-IsOwnAddress network input.delegator_address d hd;
              from_validator =
                  validate_validator_address-IsValidatorAddress network input.validator_src_address
                    "INVALID_SOURCE_VALIDATOR_ADDRESS" s hs;
              to_validator =
                  validate_validator_address-IsValidatorAddress network input.validator_dst_address
                    "INVALID_DESTINATION_VALIDATOR_ADDRESS" t ht;
              positive = validate_amount-IsAmount input.amount a ha;
              built = refl;
            })
