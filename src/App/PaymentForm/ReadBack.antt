-- ===== src/App/PaymentForm/ReadBack.antt =====
-- wallet-app/src/lib/bip21.ts: a form that is written as a URI and read back.
use soulon_wallet.Prelude.{
  true, is_empty, or_default, trim, trim_start, trim_end, cons_trimmed, is_space, Text, codes, [],
  ◌∷◌, none, ◌≡◌, refl, sym, ap, Bool-cases, inl, inr,
}
use soulon_wallet.Prelude.Results.{ok}
use soulon_wallet.Core.Bip21.{SearchParams, GenerateBip21UriInput, is_scheme, normalize_memo}
use soulon_wallet.Core.Bip21.Payments.{KeepsSchemes, is_address}
use soulon_wallet.Core.Bip21.Queries.{
  IsSearchParams, IsAmountGiven, trimmed, is_well_formed, IsCleanMemo,
}
use soulon_wallet.Core.Bip21.RoundTrip.{IsRequest, payment_of, parse_bip21_uri-generate_bip21_uri}
use soulon_wallet.App.PaymentForm.{
  Bip21FormInput, unless_blank, create_bip21_payment_uri, parse_bip21_input,
}

-- A form with a valid address, a valid amount or a blank one, and a memo without lone surrogates.
pub record IsFilled (input : Bip21FormInput) : Type 0 where
  pub address_valid : is_address (trim input.address) ≡ true
  pub amount_valid : IsAmountGiven (unless_blank input.amount)
  pub memo_clean : is_well_formed (trim input.memo) ≡ true

trimmed-unless_blank : (a : Text) → or_default (trimmed (unless_blank a)) [] ≡ trim a
trimmed-unless_blank a = elim (Bool-cases (is_empty (trim a))) [
  | inl blank ↦ rw (blank) (sym (empty_text (trim a) blank))
  | inr there ↦ rw (there)
]
  where
    empty_text : (s : Text) → is_empty s ≡ true → s ≡ []
    empty_text [] h = refl
    empty_text (c ∷ s) h = cc

normalize_memo-unless_blank :
    (m : Text) → normalize_memo (unless_blank m) ≡ trimmed (unless_blank m)
unfolding normalize_memo
normalize_memo-unless_blank m = elim (Bool-cases (is_empty (trim m))) [
  | inl blank ↦ rw (blank)
  | inr there ↦ rw (there, there)
]

memo-IsCleanMemo :
    (m : Text) → is_well_formed (trim m) ≡ true → IsCleanMemo (normalize_memo (unless_blank m))
unfolding normalize_memo
memo-IsCleanMemo m h = elim (Bool-cases (is_empty (trim m))) [
  | inl blank ↦ rw (blank) tt
  | inr there ↦ rw (there, there) h
]

bitcoin-is_scheme :
    (lower : Text → Text) → KeepsSchemes lower → is_scheme (lower (trim (codes "bitcoin"))) ≡ true
unfolding is_scheme trim trim_start trim_end cons_trimmed is_space codes
bitcoin-is_scheme lower keeps = ap is_scheme (keeps (codes "bitcoin") refl)

-- For a `URLSearchParams` as documented, a filled form has a payment URI, and reading that URI
-- gives the same form back with its fields trimmed.
pub parse_bip21_input-create_bip21_payment_uri :
    (params : SearchParams) (lower : Text → Text) (input : Bip21FormInput)
    → IsSearchParams params
    → KeepsSchemes lower
    → IsFilled input
    → (uri : Text) × (create_bip21_payment_uri params lower input ≡ ok uri)
      × (parse_bip21_input params lower uri
          ≡ ok (record {
            address = trim input.address;
            amount = trim input.amount;
            memo = trim input.memo;
          }))
unfolding create_bip21_payment_uri parse_bip21_input payment_of
parse_bip21_input-create_bip21_payment_uri params lower input laws keeps filled =
    let request : GenerateBip21UriInput = record {
      address = input.address;
      amount = unless_blank input.amount;
      memo = unless_blank input.memo;
      scheme = none;
    } in
    let valid : IsRequest lower request = record {
      scheme_valid = bitcoin-is_scheme lower keeps;
      address_valid = filled.address_valid;
      amount_valid = filled.amount_valid;
      memo_clean = memo-IsCleanMemo input.memo filled.memo_clean;
    } in
    let (uri, made, read) =
      parse_bip21_uri-generate_bip21_uri params lower request laws keeps valid in
    (
      uri,
      made,
      rw (
        read,
        normalize_memo-unless_blank input.memo,
        trimmed-unless_blank input.memo,
        trimmed-unless_blank input.amount,
      ),
    )
