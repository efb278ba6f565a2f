-- ===== src/Services/Checks/Accepted.antt =====
-- What the checks of soulon-wallet/src/services/staking.ts and governance.ts accept.
use soulon_wallet.Prelude.{
  ℕ, zero, suc, ◌<◌, leb, Bool, true, false, not, ◌||◌, is_empty, trim, String, Text, codes, some,
  ◌++◌, ◌≡◌, ◌∙◌, sym, ap, refl, arith, Bool-cases, inl, inr,
}
use mathlib.Core.Path.{subst}
use soulon_wallet.Prelude.Decimal.{digits_value}
use soulon_wallet.Prelude.Trim.{trim_idem}
use soulon_wallet.Prelude.Results.{ok, throw_if, Result-cases, >>=-eq-ok, ◌>>=◌, ◌>>◌}
use soulon_wallet.Core.Errors.{Thrown}
use soulon_wallet.Core.Account.{
  fail, validate_prefix, is_address_for_prefix, literal_from, matches_address, is_syntax,
}
use soulon_wallet.Core.Account.Address.{
  IsAddress, is_address_for_prefix-valid, literal_from-source, matches_address-literal,
}
use soulon_wallet.Core.Types.{NetworkConfig, Number, whole, negative, fractional}
use soulon_wallet.Services.Checks.{
  normalize_required, validate_own_address, validate_delegator_address, validate_validator_address,
  validator_source, is_digits, validate_amount, validate_proposal_id, validate_voter_address,
}

-- An account address of the network, without spaces around it.
pub record IsOwnAddress (network : NetworkConfig) (raw a : Text) : Type 0 where
  pub trimmed : a ≡ trim raw
  pub prefix : Text
  pub prefix_valid : validate_prefix network.bech32_prefix ≡ ok prefix
  pub shape : IsAddress (prefix ++ codes "1") 6 a

pub record IsValidatorAddress (network : NetworkConfig) (raw a : Text) : Type 0 where
  pub trimmed : a ≡ trim raw
  pub shape : IsAddress (network.bech32_prefix ++ codes "valoper1") 10 a

-- A positive whole number in decimal digits.
pub record IsAmount (raw a : Text) : Type 0 where
  pub trimmed : a ≡ trim raw
  pub digits : is_digits a ≡ true
  pub positive : 0 < digits_value 0 a

normalize_required-ok :
    (raw : Text) (code : String) (label a : Text)
    → normalize_required raw code label ≡ ok a
    → a ≡ trim raw
unfolding normalize_required
normalize_required-ok raw code label a h = elim (Bool-cases (is_empty (trim raw))) [
  | inl blank ↦ cc (rw blank at h)
  | inr there ↦ cc (rw there at h)
]

-- A check of a value that is handed on.
throw_if-ok :
    (b : Bool) (e : Thrown) (x a : Text) → (throw_if b e >> ok x) ≡ ok a → (b ≡ false) × (x ≡ a)
throw_if-ok true e x a h = cc
throw_if-ok false e x a h = (refl, cc)

not-false : (b : Bool) → not b ≡ false → b ≡ true
not-false true h = refl
not-false false h = cc

-- Trimming, a check of what is left, and its result.
checked :
    (raw : Text) (code : String) (label : Text) (test : Text → Bool) (e : Thrown) (a : Text)
    → (normalize_required raw code label >>= λ n. throw_if (test n) e >> ok n) ≡ ok a
    → (a ≡ trim raw) × (test a ≡ false)
checked raw code label test e a h =
    let (n, normal, rest) =
      >>=-eq-ok (normalize_required raw code label) (λ n. throw_if (test n) e >> ok n) h in
    let (passed, same) = throw_if-ok (test n) e n a rest in
    (
      sym same ∙ normalize_required-ok raw code label n normal,
      subst (λ t. test t ≡ false) same passed,
    )

-- What is accepted as an amount.
pub validate_amount-IsAmount : (raw a : Text) → validate_amount raw ≡ ok a → IsAmount raw a
unfolding validate_amount
validate_amount-IsAmount raw a h =
    let (trimmed, passed) =
      checked raw "INVALID_AMOUNT" (codes "Amount")
        (λ n. not (is_digits n) || leb (digits_value 0 n) 0)
        (fail "INVALID_AMOUNT" (codes "Amount must be a positive integer string")) a h in
    record { trimmed = trimmed; digits = ground arith; positive = ground arith }

literal_from-valoper : literal_from false (codes "valoper1") ≡ some (codes "valoper1")
unfolding literal_from codes is_syntax
literal_from-valoper = refl

pub validate_validator_address-IsValidatorAddress :
    (network : NetworkConfig) (raw : Text) (code : String) (a : Text)
    → validate_validator_address network raw code ≡ ok a
    → IsValidatorAddress network raw a
unfolding validate_validator_address
validate_validator_address-IsValidatorAddress network raw code a h =
    let (trimmed, passed) =
      checked raw code (codes "Validator address")
        (λ n. not (matches_address (validator_source network.bech32_prefix) 10 n))
        (fail code (codes "Validator address format is invalid")) a h in
    let (to, from) =
      matches_address-literal (validator_source network.bech32_prefix)
        (network.bech32_prefix ++ codes "valoper1") 10 a
        (literal_from-source network.bech32_prefix "valoper1" literal_from-valoper) in
    record { trimmed = trimmed; shape = to (not-false _ passed) }

-- The test of an account address, as far as it succeeds.
literal_from-prefix :
    (address prefix : Text)
    → is_address_for_prefix address prefix ≡ ok true
    → (p : Text) × (validate_prefix prefix ≡ ok p) × IsAddress (p ++ codes "1") 6 (trim address)
unfolding is_address_for_prefix
literal_from-prefix address prefix h = elim (Result-cases (validate_prefix prefix)) [
  | inl (p, valid) ↦ (p, valid, (is_address_for_prefix-valid address prefix p valid).0 h)
  | inr (e, bad) ↦ cc (rw bad at h)
]

validate_own_address-IsOwnAddress :
    (network : NetworkConfig) (raw : Text) (code : String) (label a : Text)
    → validate_own_address network raw code label ≡ ok a
    → IsOwnAddress network raw a
unfolding validate_own_address
validate_own_address-IsOwnAddress network raw code label a h =
    let (n, normal, rest) =
      >>=-eq-ok (normalize_required raw code label)
        (λ n. is_address_for_prefix n network.bech32_prefix >>= λ m.
          throw_if (not m) (fail code (label ++ codes " format is invalid")) >> ok n)
        h in
    let (m, matched, last) =
      >>=-eq-ok (is_address_for_prefix n network.bech32_prefix)
        (λ m. throw_if (not m) (fail code (label ++ codes " format is invalid")) >> ok n) rest in
    let (passed, same) =
      throw_if-ok (not m) (fail code (label ++ codes " format is invalid")) n a last in
    let trimmed = sym same ∙ normalize_required-ok raw code label n normal in
    let (p, valid, shape) =
      literal_from-prefix n network.bech32_prefix (matched ∙ ap ok (not-false m passed)) in
    let settled : trim n ≡ a = ap trim (same ∙ trimmed) ∙ trim_idem raw ∙ sym trimmed in
    record {
      trimmed = trimmed;
      prefix = p;
      prefix_valid = valid;
      shape = subst (IsAddress (p ++ codes "1") 6) settled shape;
    }

pub validate_delegator_address-IsOwnAddress :
    (network : NetworkConfig) (raw a : Text)
    → validate_delegator_address network raw ≡ ok a
    → IsOwnAddress network raw a
unfolding validate_delegator_address
validate_delegator_address-IsOwnAddress network raw a h =
    validate_own_address-IsOwnAddress network raw "INVALID_DELEGATOR_ADDRESS"
      (codes "Delegator address") a h

pub validate_voter_address-IsOwnAddress :
    (network : NetworkConfig) (raw a : Text)
    → validate_voter_address network raw ≡ ok a
    → IsOwnAddress network raw a
unfolding validate_voter_address
validate_voter_address-IsOwnAddress network raw a h =
    validate_own_address-IsOwnAddress network raw "INVALID_VOTER_ADDRESS" (codes "Voter address") a
      h

pub validate_proposal_id-positive :
    (id : Number) (n : ℕ) → validate_proposal_id id ≡ ok n → (id ≡ whole n) × (0 < n)
unfolding validate_proposal_id
validate_proposal_id-positive (whole zero) n h = cc
validate_proposal_id-positive (whole (suc k)) n h = ground arith
validate_proposal_id-positive (negative k) n h = cc
validate_proposal_id-positive fractional n h = cc
