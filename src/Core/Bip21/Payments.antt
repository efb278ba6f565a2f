-- ===== src/Core/Bip21/Payments.antt =====
-- soulon-wallet/src/core/bip21.ts: what the validators accept and return.
use soulon_wallet.Prelude.{
  ◌==◌, Bool, true, false, not, ◌&&◌, any, all, is_empty, is_space, trim, split_at_first, String,
  Text, codes, [], ◌∷◌, Option, none, some, ◌≡◌, refl, sym, ap, ◌∙◌, arith, Bool-cases, inl, inr,
}
use soulon_wallet.Prelude.Results.{ok}
use soulon_wallet.Prelude.Trim.{trim_idem, trim_of_NoSpaces}
use soulon_wallet.Prelude.Splits.{any_of_all}
use soulon_wallet.Core.Account.{normalize_non_empty}
use soulon_wallet.Core.Bip21.{
  is_scheme_char, is_scheme, is_invalid_char, is_whole_part, is_decimal_amount, is_zero_number,
  validate_scheme, validate_address, validate_amount, normalize_memo,
}

-- What `toLowerCase` does to a text without capitals.
abbrev pub KeepsSchemes : (Text → Text) → Type 0
KeepsSchemes lower = (s : Text) → all is_scheme_char s ≡ true → lower s ≡ s

abbrev pub is_address : Text → Bool
is_address a = not (is_empty a) && not (any is_invalid_char a)

abbrev pub is_amount : Text → Bool
is_amount a = is_decimal_amount a && not (is_zero_number a)

pub is_scheme-chars : (s : Text) → is_scheme s ≡ true → all is_scheme_char s ≡ true
unfolding is_scheme
is_scheme-chars [] h = cc
is_scheme-chars (c ∷ s) h = ground arith

pub is_scheme-no_spaces : (s : Text) → is_scheme s ≡ true → any is_space s ≡ false
unfolding is_space
is_scheme-no_spaces s h =
    any_of_all is_scheme_char is_space s (λ c k. ground arith) (is_scheme-chars s h)

pub is_scheme-no_colon : (s : Text) → is_scheme s ≡ true → any (λ d. b':' == d) s ≡ false
is_scheme-no_colon s h =
    any_of_all is_scheme_char (λ d. b':' == d) s (λ c k. ground arith) (is_scheme-chars s h)

pub is_scheme-nonempty : (s : Text) → is_scheme s ≡ true → is_empty s ≡ false
unfolding is_scheme
is_scheme-nonempty [] h = cc
is_scheme-nonempty (c ∷ s) h = refl

normalize_non_empty-ok :
    (s : Text) (code : String) (message : Text)
    → is_empty (trim s) ≡ false
    → normalize_non_empty s code message ≡ ok (trim s)
unfolding normalize_non_empty
normalize_non_empty-ok s code message h = rw (h)

trim-nonempty_of_scheme :
    (lower : Text → Text) (t : Text)
    → KeepsSchemes lower
    → is_scheme (lower t) ≡ true
    → is_empty t ≡ false
unfolding is_scheme
trim-nonempty_of_scheme lower [] keeps h = cc (ap is_scheme (sym (keeps [] refl)) ∙ h)
trim-nonempty_of_scheme lower (c ∷ t) keeps h = refl

pub validate_scheme-ok :
    (lower : Text → Text) (raw : Text)
    → KeepsSchemes lower
    → is_scheme (lower (trim raw)) ≡ true
    → validate_scheme lower raw ≡ ok (lower (trim raw))
unfolding validate_scheme
validate_scheme-ok lower raw keeps h = rw (
  validate_scheme,
  normalize_non_empty-ok raw "BIP21_INVALID_SCHEME" (codes "BIP-21 scheme is required")
      (trim-nonempty_of_scheme lower (trim raw) keeps h),
  h,
)

-- A scheme in normal form stays as it is.
pub validate_scheme_idem :
    (lower : Text → Text) (s : Text)
    → KeepsSchemes lower
    → is_scheme s ≡ true
    → validate_scheme lower s ≡ ok s
validate_scheme_idem lower s keeps h =
    let trimmed = trim_of_NoSpaces s (is_scheme-no_spaces s h) in
    let kept : lower (trim s) ≡ s = ap lower trimmed ∙ keeps s (is_scheme-chars s h) in
    validate_scheme-ok lower s keeps (ap is_scheme kept ∙ h) ∙ ap ok kept

pub validate_address-ok :
    (raw : Text) → is_address (trim raw) ≡ true → validate_address raw ≡ ok (trim raw)
unfolding validate_address
validate_address-ok raw h =
    let there : is_empty (trim raw) ≡ false = ground arith in
    let plain : any is_invalid_char (trim raw) ≡ false = ground arith in
    rw (
      validate_address,
      normalize_non_empty-ok raw "BIP21_INVALID_ADDRESS" (codes "BIP-21 address is required") there,
      plain,
    )

pub validate_address_idem :
    (raw : Text) → is_address (trim raw) ≡ true → validate_address (trim raw) ≡ ok (trim raw)
validate_address_idem raw h =
    validate_address-ok (trim raw) (ap is_address (trim_idem raw) ∙ h) ∙ ap ok (trim_idem raw)

is_amount-nonempty : (a : Text) → is_amount a ≡ true → is_empty a ≡ false
unfolding is_decimal_amount is_whole_part split_at_first
is_amount-nonempty [] h = cc
is_amount-nonempty (c ∷ a) h = refl

pub validate_amount-ok :
    (raw : Text) → is_amount (trim raw) ≡ true → validate_amount raw ≡ ok (trim raw)
unfolding validate_amount
validate_amount-ok raw h =
    let decimal : is_decimal_amount (trim raw) ≡ true = ground arith in
    let nonzero : is_zero_number (trim raw) ≡ false = ground arith in
    rw (
      validate_amount,
      normalize_non_empty-ok raw "BIP21_INVALID_AMOUNT" (codes "BIP-21 amount is required")
          (is_amount-nonempty (trim raw) h),
      decimal,
      nonzero,
    )

pub validate_amount_idem :
    (raw : Text) → is_amount (trim raw) ≡ true → validate_amount (trim raw) ≡ ok (trim raw)
validate_amount_idem raw h =
    validate_amount-ok (trim raw) (ap is_amount (trim_idem raw) ∙ h) ∙ ap ok (trim_idem raw)

-- A normal memo is not blank and has no space around it.
pub normalize_memo_idem : (m : Option Text) → normalize_memo (normalize_memo m) ≡ normalize_memo m
unfolding normalize_memo
normalize_memo_idem none = refl
normalize_memo_idem (some memo) = elim (Bool-cases (is_empty (trim memo))) [
  | inl blank ↦ rw (normalize_memo, blank)
  | inr there ↦ rw (normalize_memo, there, normalize_memo, trim_idem memo, there)
]
