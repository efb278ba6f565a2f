-- ===== src/Services/Tests.antt =====
-- Runs of the services, and their theorems at concrete inputs.
use soulon_wallet.Prelude.{
  ℕ, zero, suc, ◌+◌, or_default, Text, codes, [], none, some, ◌≡◌, map, ascii_lower, length,
  if◌then◌else◌, ◌==◌, is_empty, is_digit, all, not, ◌&&◌, ◌∷◌, ◌⊎◌, refl,
}
use soulon_wallet.Prelude.Results.{Result, ok, err}
use soulon_wallet.Core.Errors.{Thrown, soulon, plain, map_broadcast_error}
use soulon_wallet.Prelude.Int.{ℤ, pos, negsuc, minus}
use soulon_wallet.Core.Poll.Wait.{read}
use soulon_wallet.Core.Types.{
  NetworkConfig, DelegateInput, UndelegateInput, RedelegateInput, WithdrawRewardsInput,
  IbcTransferInput, AuthzGrantInput, VoteInput, vote_yes, whole, dev, at, thousandths, finer,
}
use soulon_wallet.Core.Effects.{Coin, CoinOf, DigitsCoinOf, DeliverTxResponse, Node, World}
use soulon_wallet.Core.Network.{get_network_config}
use soulon_wallet.Services.Sending.{Sends, SendsNothing, IsCareful}
use soulon_wallet.Services.Staking.{
  delegate_to_validator, undelegate_from_validator, withdraw_validator_rewards,
  redelegate_to_validator,
}
use soulon_wallet.Services.Staking.Safe.{
  IsDelegation, IsUndelegation, IsWithdrawal, IsRedelegation, delegate_to_validator-IsCareful,
  undelegate_from_validator-IsCareful, withdraw_validator_rewards-IsCareful,
  redelegate_to_validator-IsCareful,
}
use soulon_wallet.Services.Governance.{vote_proposal}
use soulon_wallet.Services.Governance.Safe.{IsVote, vote_proposal-IsCareful}
use soulon_wallet.Services.Transfer.{
  TransferConfirmInput, Confirmation, build_native_transfer_message, send_native_token,
  send_native_token_and_confirm,
}
use soulon_wallet.Services.Transfer.Confirm.{
  IsConfirmation, transfer_request, send_native_token_and_confirm-IsConfirmation,
}
use soulon_wallet.Services.Ibc.{transfer_ibc}
use soulon_wallet.Services.Ibc.Timeout.{IsTimed, transfer_ibc-IsTimed}
use soulon_wallet.Services.Authz.{to_timestamp, new_date, grant_generic_authorization}
use soulon_wallet.Services.Authz.Expiry.{IsGranted, grant_generic_authorization-IsGranted}

abbrev low : Text → Text
low = map ascii_lower

abbrev accepted : DeliverTxResponse
accepted = record { code = 0; raw_log = none; transaction_hash = codes "AB" }

abbrev answer_of : ℕ → Result Thrown DeliverTxResponse
answer_of zero = err (plain (codes "fetch failed"))
answer_of (suc n) = ok accepted

-- A node that is down for the first request, and knows every transaction.
abbrev node : Node
node = record {
  submit = λ w request. answer_of (length w.sent);
  get_tx = λ w hash. ok (some 7);
  now = λ w. 1_000;
}

abbrev network : NetworkConfig
network = get_network_config dev

abbrev start : World
start = record { sent = []; slept = []; polled = []; readings = 0 }

abbrev owner : Text
owner = codes "soulon1qqqqqqqq"

abbrev validator : Text
validator = codes "soulonvaloper1qqqqqqqqqq"

abbrev no_zeros : Text → Text
no_zeros [] = []
no_zeros (c ∷ s) = if c == b'0' then no_zeros s else c ∷ s

-- The client library's function: digits only, without the zeros in front.
abbrev digits_coin : DigitsCoinOf
digits_coin amount denom = record {
  amount = if is_empty (no_zeros amount) then codes "0" else no_zeros amount;
  denom = denom;
}

abbrev coin : CoinOf
coin amount denom =
    if all is_digit amount && not (is_empty amount)
    then ok (digits_coin amount denom)
    else err (plain (codes "Invalid unsigned integer string format"))

abbrev delegation : DelegateInput
delegation = record {
  delegator_address = owner;
  validator_address = validator;
  amount = codes " 25 ";
  memo = none;
}

delegate_to_validator-IsCareful_example :
    IsCareful
      (IsDelegation digits_coin network delegation)
      (delegate_to_validator low node network digits_coin delegation)
delegate_to_validator-IsCareful_example =
    delegate_to_validator-IsCareful low node network digits_coin delegation

abbrev undelegation : UndelegateInput
undelegation = record {
  delegator_address = owner;
  validator_address = validator;
  amount = codes "25";
  memo = none;
}

undelegate_from_validator-IsCareful_example :
    IsCareful
      (IsUndelegation digits_coin network undelegation)
      (undelegate_from_validator low node network digits_coin undelegation)
undelegate_from_validator-IsCareful_example =
    undelegate_from_validator-IsCareful low node network digits_coin undelegation

abbrev withdrawal : WithdrawRewardsInput
withdrawal = record { delegator_address = owner; validator_address = validator; memo = none }

withdraw_validator_rewards-IsCareful_example :
    IsCareful
      (IsWithdrawal network withdrawal)
      (withdraw_validator_rewards low node network withdrawal)
withdraw_validator_rewards-IsCareful_example =
    withdraw_validator_rewards-IsCareful low node network withdrawal

abbrev redelegation : RedelegateInput
redelegation = record {
  delegator_address = owner;
  validator_src_address = validator;
  validator_dst_address = validator;
  amount = codes "25";
  memo = none;
}

redelegate_to_validator-IsCareful_example :
    IsCareful
      (IsRedelegation digits_coin network redelegation)
      (redelegate_to_validator low node network digits_coin redelegation)
redelegate_to_validator-IsCareful_example =
    redelegate_to_validator-IsCareful low node network digits_coin redelegation

abbrev vote : VoteInput
vote = record { voter_address = owner; proposal_id = whole 3; option = vote_yes; memo = none }

vote_proposal-IsCareful_example :
    IsCareful (IsVote network vote) (vote_proposal low node network vote)
vote_proposal-IsCareful_example = vote_proposal-IsCareful low node network vote

abbrev confirmed_transfer : TransferConfirmInput
confirmed_transfer = record {
  transfer = record { from_address = owner; to_address = owner; amount = codes "1"; memo = none };
  timeout_ms = none;
  poll_interval_ms = none;
}

abbrev confirmation : Result Thrown Confirmation × World
confirmation = send_native_token_and_confirm low coin node network 4 confirmed_transfer start

send_native_token_and_confirm-IsConfirmation_example :
    ((e : Thrown) × (coin (codes "1") network.denom ≡ err e) × (confirmation ≡ (err e, start)))
    ⊎ ((token : Coin) × (coin (codes "1") network.denom ≡ ok token)
        × IsConfirmation confirmation.0
        × Sends (λ r. r ≡ transfer_request confirmed_transfer.transfer token) start confirmation.1)
send_native_token_and_confirm-IsConfirmation_example =
    send_native_token_and_confirm-IsConfirmation low coin node network 4 confirmed_transfer start

-- An amount that is no text of digits: nothing was done.
fraction_test :
    send_native_token low coin node network
      (record (confirmed_transfer.transfer) { amount = codes "1.5" })
      start
    ≡ (err (plain (codes "Invalid unsigned integer string format")), start)
unfolding send_native_token build_native_transfer_message codes
fraction_test = refl

abbrev ibc : IbcTransferInput
ibc = record {
  sender_address = owner;
  receiver_address = codes "osmo1qqqqqq";
  source_port = codes "transfer";
  source_channel = codes "channel-0";
  amount = codes "5";
  timeout_seconds = some (thousandths (pos 60_000));
  memo = none;
}

abbrev range_error : Thrown
range_error = plain (codes "The number NaN cannot be converted to a BigInt")

abbrev ibc_call : Result Thrown DeliverTxResponse × World
ibc_call = transfer_ibc low coin range_error node network ibc start

transfer_ibc-IsTimed_example :
    ((thousandths (pos 60_000) ≡ finer) × (ibc_call ≡ (err range_error, read start)))
    ⊎ ((z : ℤ) × (thousandths (pos 60_000) ≡ thousandths z)
        × (((e : Thrown) × (coin ibc.amount network.denom ≡ err e)
              × SendsNothing (soulon (map_broadcast_error low e)) start ibc_call)
            ⊎ ((token : Coin) × (coin ibc.amount network.denom ≡ ok token)
                × Sends (IsTimed ibc token (node.now start) z) start ibc_call.1)))
transfer_ibc-IsTimed_example = transfer_ibc-IsTimed low coin range_error node network ibc start

abbrev grant : AuthzGrantInput
grant = record {
  granter_address = owner;
  grantee_address = codes "soulon1zzzzzzzz";
  msg_type_url = codes "/cosmos.bank.v1beta1.MsgSend";
  expiration = none;
  memo = none;
}

grant_generic_authorization-IsGranted_example :
    IsGranted low range_error grant
      (or_default grant.expiration (new_date (node.now start + 604_800_000)))
      start
      (grant_generic_authorization low node range_error grant start)
grant_generic_authorization-IsGranted_example =
    grant_generic_authorization-IsGranted low node range_error grant start

-- The last millisecond of 1969 is taken for a second before it.
before_epoch_test :
    to_timestamp range_error (at (negsuc 0))
    ≡ ok (record { seconds = negsuc 0; nanos = minus 1_000_000 })
unfolding to_timestamp
before_epoch_test = refl
