-- ===== src/Popup/Screens/Draft.antt =====
-- wallet-extension/src/popup/popup_screens.ts: the patterns that the send draft is tested by.
use soulon_wallet.Prelude.{
  ◌≤◌, ◌==◌, leb, Bool, true, false, not, ◌||◌, ◌&&◌, all, any, length, is_digit, strip_prefix,
  split_at_first, codes, Text, ◌∷◌, ◌++◌, ◌≡◌, ◌↔◌, refl, sym, ◌∙◌, arith, Option-cases, inl, inr,
}
use mathlib.Core.Path.{subst}
use soulon_wallet.Prelude.{trim, ltb}
use soulon_wallet.Prelude.Prefix.{strip_prefix-some}
use soulon_wallet.Prelude.Splits.{
  split_at_first-some, split_at_first-append, split_at_first-absent, any_of_all,
}
use soulon_wallet.Popup.Types.{SendDraft, PopupState}
use soulon_wallet.Popup.Screens.{
  is_digits, is_decimal, is_alphanumeric, is_cosmos_address, is_nonzero_digit, is_positive,
  error_if, has_errors, validate_send_draft,
}

-- Digits, and behind a dot, if there is one, one to six more.
pub data IsDecimal : Text → Type 0 where
  whole : (w : Text) → is_digits w ≡ true → IsDecimal w
  with_fraction :
      (w f : Text)
      → is_digits w ≡ true
      → is_digits f ≡ true
      → length f ≤ 6
      → IsDecimal (w ++ b'.' ∷ f)

no_dot : (s : Text) → all is_digit s ≡ true → any (λ d. b'.' == d) s ≡ false
no_dot s h = any_of_all is_digit (λ d. b'.' == d) s (λ c k. ground arith) h

all-is_digits : (s : Text) → is_digits s ≡ true → all is_digit s ≡ true
all-is_digits s h = ground arith

IsDecimal-is_decimal : (amount : Text) → IsDecimal amount → is_decimal amount ≡ true
unfolding is_decimal
IsDecimal-is_decimal amount (whole w h) =
    rw (is_decimal, split_at_first-absent b'.' w (no_dot w (all-is_digits w h))) h
IsDecimal-is_decimal amount (with_fraction w f h k few) =
    rw (is_decimal, split_at_first-append b'.' w f (no_dot w (all-is_digits w h))) (ground arith)

is_decimal-IsDecimal : (amount : Text) → is_decimal amount ≡ true → IsDecimal amount
unfolding is_decimal
is_decimal-IsDecimal amount h = elim (Option-cases (split_at_first b'.' amount)) [
  | inl e ↦ whole amount (rw (is_decimal, e) at h)
  | inr ((w, f), e) ↦
      let shape : amount ≡ w ++ b'.' ∷ f = split_at_first-some b'.' amount (w, f) e in
      let tests : (is_digits w && (is_digits f && leb (length f) 6)) ≡ true =
        rw (is_decimal, e) at h in
      subst IsDecimal (sym shape) (with_fraction w f (ground arith) (ground arith) (ground arith))
]

-- What a draft must be to be sent: an address of 20 or more lower-case letters and digits behind
-- "cosmos1", once trimmed and put in lower case; a decimal amount that is not 0; a short memo.
pub record IsSendable (lower : Text → Text) (draft : SendDraft) : Type 0 where
  pub tail : Text
  pub to_shape : lower (trim draft.to) ≡ codes "cosmos1" ++ tail
  pub to_alphabet : all is_alphanumeric tail ≡ true
  pub to_length : 20 ≤ length tail
  pub amount_shape : IsDecimal (trim draft.amount)
  pub amount_positive : any is_nonzero_digit (trim draft.amount) ≡ true
  pub memo_length : length (trim draft.memo) ≤ 60

is_cosmos_address-shape :
    (to : Text)
    → is_cosmos_address to ≡ true
    → (tail : Text) × (to ≡ codes "cosmos1" ++ tail)
      × (all is_alphanumeric tail ≡ true)
      × (20 ≤ length tail)
unfolding is_cosmos_address
is_cosmos_address-shape to h = elim (Option-cases (strip_prefix (codes "cosmos1") to)) [
  | inl e ↦ absurd (cc (rw (is_cosmos_address, e) at h))
  | inr (tail, e) ↦
      let tests : (all is_alphanumeric tail && leb 20 (length tail)) ≡ true =
        rw (is_cosmos_address, e) at h in
      (tail, strip_prefix-some (codes "cosmos1") to tail e, ground arith, ground arith)
]

errors_found :
    (p q r : Bool) (m n o : Text)
    → has_errors (record { to = error_if p m; amount = error_if q n; memo = error_if r o })
      ≡ (p || q || r)
errors_found true q r m n o = refl
errors_found false true r m n o = refl
errors_found false false true m n o = refl
errors_found false false false m n o = refl

IsSendable-is_cosmos_address :
    (lower : Text → Text) (draft : SendDraft)
    → IsSendable lower draft
    → is_cosmos_address (lower (trim draft.to)) ≡ true
unfolding is_cosmos_address
IsSendable-is_cosmos_address lower draft d =
    rw (is_cosmos_address, d.to_shape)
      (let alphabet = d.to_alphabet in let enough = d.to_length in ground arith)

three_passed :
    (a b c d : Bool)
    → (not a || (not b || not c) || d) ≡ false
    → (a ≡ true) × (b ≡ true) × (c ≡ true) × (d ≡ false)
three_passed a b c d h = (ground arith, ground arith, ground arith, ground arith)

-- The validation finds no error exactly in a draft that can be sent.
pub validate_send_draft-IsSendable :
    (lower : Text → Text) (s : PopupState)
    → (has_errors (validate_send_draft lower s) ≡ false) ↔ IsSendable lower s.send_draft
unfolding validate_send_draft
validate_send_draft-IsSendable lower s = (
  (λ h.
      let (to, decimal, positive, memo) = three_passed _ _ _ _ (sym tests ∙ h) in
      let (tail, shape, alphabet, enough) = is_cosmos_address-shape _ to in
      record {
        tail = tail;
        to_shape = shape;
        to_alphabet = alphabet;
        to_length = enough;
        amount_shape = is_decimal-IsDecimal _ decimal;
        amount_positive = positive;
        memo_length = ground arith;
      }),
  (λ d.
      let to = IsSendable-is_cosmos_address lower s.send_draft d in
      let decimal = IsDecimal-is_decimal _ d.amount_shape in
      let positive = d.amount_positive in
      let memo = d.memo_length in tests ∙ rw (to, decimal, positive) (ground arith)),
)
  where
    tests : has_errors (validate_send_draft lower s) ≡ (
        not (is_cosmos_address (lower (trim s.send_draft.to)))
        || (not (is_decimal (trim s.send_draft.amount))
            || not (is_positive (trim s.send_draft.amount)))
        || ltb 60 (length (trim s.send_draft.memo)))
    tests = errors_found (not (is_cosmos_address (lower (trim s.send_draft.to)))) _ _ _ _ _
