-- ===== src/Core/Types.antt =====
-- soulon-wallet/src/core/types.ts: the data that the core and the services share. A string that is
-- only compared is a native `String`; a string that is walked, joined or trimmed is a `Text`.
use soulon_wallet.Prelude.{ℕ, Text, List, Option}
use soulon_wallet.Prelude.Int.{ℤ}

pub data ChainEnvironment : Type 0 where
  dev testnet mainnet : ChainEnvironment

pub record NetworkConfig : Type 0 where
  pub chain_id : Text
  pub bech32_prefix : Text
  pub rpc_endpoint : Text
  pub rest_endpoint : Text
  pub grpc_endpoint : Text
  pub denom : Text
  pub gas_price : Text

pub record TransferInput : Type 0 where
  pub from_address : Text
  pub to_address : Text
  pub amount : Text
  pub memo : Option Text

-- `number`: a whole number, a negative whole number -(n + 1), or a number that is no integer.
pub data Number : Type 0 where
  whole : ℕ → Number
  negative : ℕ → Number
  fractional : Number

pub data VoteOptionType : Type 0 where
  vote_yes vote_no vote_abstain vote_no_with_veto : VoteOptionType

pub record DelegateInput : Type 0 where
  pub delegator_address : Text
  pub validator_address : Text
  pub amount : Text
  pub memo : Option Text

pub record UndelegateInput : Type 0 where
  pub delegator_address : Text
  pub validator_address : Text
  pub amount : Text
  pub memo : Option Text

pub record RedelegateInput : Type 0 where
  pub delegator_address : Text
  pub validator_src_address : Text
  pub validator_dst_address : Text
  pub amount : Text
  pub memo : Option Text

pub record WithdrawRewardsInput : Type 0 where
  pub delegator_address : Text
  pub validator_address : Text
  pub memo : Option Text

-- A `number` of seconds, by what it comes to times 1000 in floating point: an integer, or a number
-- that is none.
pub data Seconds : Type 0 where
  thousandths : ℤ → Seconds
  finer : Seconds

pub record IbcTransferInput : Type 0 where
  pub sender_address : Text
  pub receiver_address : Text
  pub source_port : Text
  pub source_channel : Text
  pub amount : Text
  pub timeout_seconds : Option Seconds
  pub memo : Option Text

-- A `Date`: its milliseconds since the epoch, which are negative before 1970, or none.
pub data Date : Type 0 where
  at : ℤ → Date
  invalid_date : Date

pub record AuthzGrantInput : Type 0 where
  pub granter_address : Text
  pub grantee_address : Text
  pub msg_type_url : Text
  pub expiration : Option Date
  pub memo : Option Text

pub record AuthzExecMessage : Type 0 where
  pub type_url : Text
  pub bytes : List ℕ

pub record AuthzExecInput : Type 0 where
  pub grantee_address : Text
  pub messages : List AuthzExecMessage
  pub memo : Option Text

pub record AuthzRevokeInput : Type 0 where
  pub granter_address : Text
  pub grantee_address : Text
  pub msg_type_url : Text
  pub memo : Option Text

-- A `bigint` is a `Number` that is never `fractional`.
pub record VoteInput : Type 0 where
  pub voter_address : Text
  pub proposal_id : Number
  pub option : VoteOptionType
  pub memo : Option Text

pub data TxPollStatus : Type 0 where
  pending confirmed timeout : TxPollStatus

pub record TxPollResult : Type 0 where
  pub hash : Text
  pub status : TxPollStatus
  pub height : Option ℕ
