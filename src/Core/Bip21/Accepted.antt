-- ===== src/Core/Bip21/Accepted.antt =====
-- soulon-wallet/src/core/bip21.ts: what a URI that is accepted says.
use soulon_wallet.Prelude.{
  Bool, true, false, not, ◌||◌, any, is_empty, trim, Text, codes, String, Option, none, some, ◌≡◌,
  sym, ap, ◌∙◌, arith, Bool-cases, inl, inr,
}
use mathlib.Core.Path.{subst}
use soulon_wallet.Prelude.Results.{Result, ok, throw_if, throw_if-ok, >>=-eq-ok, ◌>>=◌, ◌>>◌}
use soulon_wallet.Prelude.Trim.{trim_idem}
use soulon_wallet.Core.Errors.{Thrown}
use soulon_wallet.Core.Account.{normalize_non_empty}
use soulon_wallet.Core.Bip21.{
  SearchParams, get, ParsedBip21Uri, is_scheme, is_invalid_char, is_decimal_amount, is_zero_number,
  validate_scheme, validate_address, validate_amount, validate_given, normalize_memo, or_else,
  split_scheme, split_query, invalid_uri, parse_query, parse_bip21_uri,
}
use soulon_wallet.Core.Bip21.Payments.{is_address, is_amount}

abbrev pub IsValue : (Text → Type 0) → Option Text → Type 0
IsValue P none = Unit
IsValue P (some t) = P t

-- A payment with a scheme of the grammar, an address without spaces and marks, an amount that is
-- a decimal above 0, and a memo that says something, each without spaces around it.
pub record IsPayment (p : ParsedBip21Uri) : Type 0 where
  pub scheme_valid : is_scheme p.scheme ≡ true
  pub address_valid : is_address p.address ≡ true
  pub amount_valid : IsValue (λ a. (is_amount a ≡ true) × (trim a ≡ a)) p.amount
  pub memo_valid : IsValue (λ m. (is_empty m ≡ false) × (trim m ≡ m)) p.memo

-- A text that is trimmed, tested and handed on as `f` of it.
checked :
    (f : Text → Text) (test : Text → Bool) (thrown : Thrown) (raw : Text) (code : String)
    (message a : Text)
    → (normalize_non_empty raw code message >>= λ t. throw_if (test t) thrown >> ok (f t)) ≡ ok a
    → (is_empty (trim raw) ≡ false) × (test (trim raw) ≡ false) × (f (trim raw) ≡ a)
unfolding normalize_non_empty
checked f test thrown raw code message a h = elim (Bool-cases (is_empty (trim raw))) [
  | inl blank ↦ cc (rw (normalize_non_empty, blank) at h)
  | inr there ↦
      let rest : (throw_if (test (trim raw)) thrown >> ok (f (trim raw))) ≡ ok a =
        rw (normalize_non_empty, there) at h in
      let (passed, same) = throw_if-ok (test (trim raw)) thrown (ok (f (trim raw))) rest in
      let equal : f (trim raw) ≡ a = cc (same) in (there, passed, equal)
]

validate_scheme-inverse :
    (lower : Text → Text) (raw s : Text) → validate_scheme lower raw ≡ ok s → is_scheme s ≡ true
unfolding validate_scheme
validate_scheme-inverse lower raw s h =
    let (there, tested, same) = checked lower (λ t. not (is_scheme (lower t))) _ raw _ _ s h in
    let valid : is_scheme (lower (trim raw)) ≡ true = ground arith in
    ap is_scheme (sym same) ∙ valid

validate_address-inverse : (raw a : Text) → validate_address raw ≡ ok a → is_address a ≡ true
unfolding validate_address
validate_address-inverse raw a h =
    let (there, tested, same) = checked (λ t. t) (any is_invalid_char) _ raw _ _ a h in
    ap is_address (sym same) ∙ rw (there, tested)

validate_amount-inverse :
    (raw a : Text) → validate_amount raw ≡ ok a → (is_amount a ≡ true) × (trim a ≡ a)
unfolding validate_amount
validate_amount-inverse raw a h =
    let (there, tested, same) =
      checked (λ t. t) (λ t. not (is_decimal_amount t) || is_zero_number t) _ raw _ _ a h in
    let valid : is_amount (trim raw) ≡ true = ground arith in
    (ap is_amount (sym same) ∙ valid, ap trim (sym same) ∙ trim_idem raw ∙ same)

abbrev IsAccepted : Text → Type 0
IsAccepted a = (is_amount a ≡ true) × (trim a ≡ a)

validate_given-inverse : (raw a : Option Text) → validate_given raw ≡ ok a → IsValue IsAccepted a
unfolding validate_given
validate_given-inverse none a h = let same : none ≡ a = cc (h) in subst (IsValue IsAccepted) same tt
validate_given-inverse (some raw) a h =
    let (v, valid, rest) = >>=-eq-ok (validate_amount raw) (λ v. ok (some v)) h in
    let same : some v ≡ a = cc (rest) in
    subst (IsValue IsAccepted) same (validate_amount-inverse raw v valid)

normalize_memo-normal :
    (m : Option Text) → IsValue (λ t. (is_empty t ≡ false) × (trim t ≡ t)) (normalize_memo m)
unfolding normalize_memo
normalize_memo-normal none = tt
normalize_memo-normal (some m) = elim (Bool-cases (is_empty (trim m))) [
  | inl blank ↦ rw (normalize_memo, blank) tt
  | inr there ↦ rw (normalize_memo, there) (there, trim_idem m)
]

parse_query-IsPayment :
    (params : SearchParams) (lower : Text → Text) (scheme address : Text) (query : Option Text)
    (p : ParsedBip21Uri)
    → is_scheme scheme ≡ true
    → is_address address ≡ true
    → parse_query params lower scheme address query ≡ ok p
    → IsPayment p
unfolding parse_query
parse_query-IsPayment params lower scheme address none p s a h =
    let same : record { scheme = scheme; address = address; amount = none; memo = none } ≡ p =
      cc (h) in
    subst IsPayment same
      (record { scheme_valid = s; address_valid = a; amount_valid = tt; memo_valid = tt })
parse_query-IsPayment params lower scheme address (some query) p s a h =
    let found = params.from_string query in
    let memo = normalize_memo (or_else (get (codes "memo") found) (get (codes "message") found)) in
    let (amount, valid, rest) =
      >>=-eq-ok (validate_given (get (codes "amount") found))
        (λ amount. ok (record { scheme = scheme; address = address; amount = amount; memo = memo }))
        h in
    let same : record { scheme = scheme; address = address; amount = amount; memo = memo } ≡ p =
      cc (rest) in
    subst IsPayment same (record {
      scheme_valid = s;
      address_valid = a;
      amount_valid = validate_given-inverse _ amount valid;
      memo_valid = normalize_memo-normal _;
    })

module _ (params : SearchParams) (lower : Text → Text) where
  -- What the parse does behind the address, behind the scheme and behind the split at the colon.
  abbrev behind_address : Text × Text → Text → Text → Result Thrown ParsedBip21Uri
  behind_address parts scheme address =
      parse_query params lower scheme address (split_query parts.1).1

  abbrev behind_scheme : Text × Text → Text → Result Thrown ParsedBip21Uri
  behind_scheme parts scheme =
      throw_if (is_empty parts.1) invalid_uri
      >> (validate_address (split_query parts.1).0 >>= behind_address parts scheme)

  abbrev behind_split : Text × Text → Result Thrown ParsedBip21Uri
  behind_split parts = validate_scheme lower parts.0 >>= behind_scheme parts

-- Whatever URI is accepted, for any `URLSearchParams` and `toLowerCase`: the scheme has the form
-- of a scheme, the address has no white space, question mark or hash, an amount is a decimal that
-- is not 0 as a number, and a memo is not blank; amount and memo are trimmed.
pub parse_bip21_uri-IsPayment :
    (params : SearchParams) (lower : Text → Text) (uri : Text) (p : ParsedBip21Uri)
    → parse_bip21_uri params lower uri ≡ ok p
    → IsPayment p
unfolding parse_bip21_uri
parse_bip21_uri-IsPayment params lower uri p h =
    let (normalized, e, h1) =
      >>=-eq-ok (normalize_non_empty uri "BIP21_INVALID_URI" (codes "BIP-21 URI is required"))
        (λ t. split_scheme t >>= behind_split params lower) h in
    let (parts, e1, h2) = >>=-eq-ok (split_scheme normalized) (behind_split params lower) h1 in
    let (scheme, valid_scheme, h3) =
      >>=-eq-ok (validate_scheme lower parts.0) (behind_scheme params lower parts) h2 in
    let (there, h4) =
      throw_if-ok (is_empty parts.1) invalid_uri
        (validate_address (split_query parts.1).0 >>= behind_address params lower parts scheme)
        h3 in
    let (address, valid_address, h5) =
      >>=-eq-ok (validate_address (split_query parts.1).0)
        (behind_address params lower parts scheme) h4 in
    parse_query-IsPayment params lower scheme address (split_query parts.1).1 p
      (validate_scheme-inverse lower parts.0 scheme valid_scheme)
      (validate_address-inverse (split_query parts.1).0 address valid_address) h5
