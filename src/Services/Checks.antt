-- ===== src/Services/Checks.antt =====
-- The validation in soulon-wallet/src/services/staking.ts and governance.ts. Both files declare
-- the function `normalizeRequired`, with the same text.
pub mod Accepted
use soulon_wallet.Prelude.{
  ℕ, zero, suc, leb, Bool, not, ◌&&◌, ◌||◌, all, is_empty, is_digit, trim, String, Text, codes,
  List, [], ◌∷◌, ◌++◌,
}
use soulon_wallet.Prelude.Decimal.{digits_value}
use soulon_wallet.Prelude.Results.{Result, ok, err, throw_if, ◌>>=◌, ◌>>◌}
use soulon_wallet.Core.Errors.{Thrown}
use soulon_wallet.Core.Account.{fail, is_address_for_prefix, escape_for_regex, matches_address}
use soulon_wallet.Core.Types.{NetworkConfig, Number, whole, negative, fractional}

unfoldable pub normalize_required : Text → String → Text → Result Thrown Text
normalize_required text code field_label = do
  let normalized = trim text
  throw_if (is_empty normalized) (fail code (field_label ++ codes " is required"))
  ok normalized

-- What `validateDelegatorAddress` and `validateVoterAddress` do with their code and label.
unfoldable pub validate_own_address : NetworkConfig → Text → String → Text → Result Thrown Text
unfolding normalize_required
validate_own_address network address code label = do
  normalized ← normalize_required address code label
  matches ← is_address_for_prefix normalized network.bech32_prefix
  throw_if (not matches) (fail code (label ++ codes " format is invalid"))
  ok normalized

unfoldable pub validate_delegator_address : NetworkConfig → Text → Result Thrown Text
unfolding validate_own_address
validate_delegator_address network address =
    validate_own_address network address "INVALID_DELEGATOR_ADDRESS" (codes "Delegator address")

unfoldable pub validate_voter_address : NetworkConfig → Text → Result Thrown Text
unfolding validate_own_address
validate_voter_address network address =
    validate_own_address network address "INVALID_VOTER_ADDRESS" (codes "Voter address")

-- The literal part of `buildValidatorAddressPattern(bech32Prefix)`.
abbrev pub validator_source : Text → Text
validator_source bech32_prefix = escape_for_regex bech32_prefix ++ codes "valoper1"

unfoldable pub validate_validator_address : NetworkConfig → Text → String → Result Thrown Text
unfolding normalize_required
validate_validator_address network address code = do
  normalized ← normalize_required address code (codes "Validator address")
  throw_if (not (matches_address (validator_source network.bech32_prefix) 10 normalized))
      (fail code (codes "Validator address format is invalid"))
  ok normalized

-- `/^[0-9]+$/`.
abbrev pub is_digits : Text → Bool
is_digits s = not (is_empty s) && all is_digit s

unfoldable pub validate_amount : Text → Result Thrown Text
unfolding normalize_required
validate_amount amount = do
  normalized ← normalize_required amount "INVALID_AMOUNT" (codes "Amount")
  throw_if (not (is_digits normalized) || leb (digits_value 0 normalized) 0)
      (fail "INVALID_AMOUNT" (codes "Amount must be a positive integer string"))
  ok normalized

-- `proposalId <= 0n` throws; a bigint is whole.
unfoldable pub validate_proposal_id : Number → Result Thrown ℕ
validate_proposal_id (whole (suc n)) = ok (suc n)
validate_proposal_id proposal_id =
    err (fail "INVALID_PROPOSAL_ID" (codes "Proposal id must be greater than 0"))
