-- ===== src/Core/Bip21/RoundTrip.antt =====
-- soulon-wallet/src/core/bip21.ts: parsing what was generated.
use soulon_wallet.Prelude.{
  ◌==◌, true, false, any, is_empty, or_default, trim, Text, codes, List, [], ◌∷◌, ◌++◌, Option,
  none, some, ◌≡◌, refl, ◌∙◌, arith,
}
use soulon_wallet.Prelude.Results.{ok}
use soulon_wallet.Prelude.Trim.{
  ends_blank, trim_of_plain, ends_blank-trim, ends_blank-append, starts_blank-append,
  starts_blank_of_NoSpaces, ends_blank_of_NoSpaces,
}
use soulon_wallet.Prelude.Splits.{split_at_first-append, split_at_first-absent}
use soulon_wallet.Core.Account.{normalize_non_empty}
use soulon_wallet.Core.Bip21.{
  SearchParams, GenerateBip21UriInput, ParsedBip21Uri, is_scheme, is_invalid_char, normalize_memo,
  uri_of, generate_bip21_uri, or_else, validate_address, split_scheme, split_query, parse_query,
  parse_bip21_uri,
}
use soulon_wallet.Core.Bip21.Payments.{
  KeepsSchemes, is_address, is_scheme-no_spaces, is_scheme-no_colon, is_scheme-nonempty,
  validate_scheme-ok, validate_scheme_idem, validate_address-ok, validate_address_idem,
  normalize_memo_idem,
}
use soulon_wallet.Core.Bip21.Queries.{
  IsAmountGiven, IsCleanMemo, IsSearchParams, get-amount, get-memo, get-message, query_pairs,
  query_pairs-IsClean, trimmed, validate_given-trimmed, validate_given_idem,
}

is_empty-append : (s t : Text) → is_empty s ≡ false → is_empty (s ++ t) ≡ false
is_empty-append [] t h = cc
is_empty-append (c ∷ s) t h = refl

no_question_mark : (s : Text) → any is_invalid_char s ≡ false → any (λ d. b'?' == d) s ≡ false
no_question_mark [] h = refl
no_question_mark (c ∷ s) h =
    let here : (b'?' == c) ≡ false = ground arith in
    let more = no_question_mark s (ground arith) in rw (here) more

module _ (params : SearchParams) (lower : Text → Text) where
  -- A URI with its scheme in normal form, taken apart at the first colon.
  parse_bip21_uri-split :
      (scheme rest seg : Text) (q : Option Text)
      → KeepsSchemes lower
      → is_scheme scheme ≡ true
      → is_empty rest ≡ false
      → ends_blank rest ≡ false
      → split_query rest ≡ (seg, q)
      → validate_address seg ≡ ok seg
      → parse_bip21_uri params lower (scheme ++ b':' ∷ rest) ≡ parse_query params lower scheme seg q
  unfolding parse_bip21_uri split_scheme normalize_non_empty
  parse_bip21_uri-split scheme rest seg q keeps valid there open_end split address =
      let uri = scheme ++ b':' ∷ rest in
      let end : ends_blank (b':' ∷ rest) ≡ false =
        ends_blank-append (b':' ∷ []) rest there open_end in
      let plain : trim uri ≡ uri =
        trim_of_plain uri
          (starts_blank-append scheme (b':' ∷ rest) (is_scheme-nonempty scheme valid)
            (starts_blank_of_NoSpaces scheme (is_scheme-no_spaces scheme valid)))
          (ends_blank-append scheme (b':' ∷ rest) refl end) in
      let full : is_empty uri ≡ false =
        is_empty-append scheme (b':' ∷ rest) (is_scheme-nonempty scheme valid) in
      rw (
        parse_bip21_uri,
        normalize_non_empty,
        plain,
        full,
        split_scheme,
        split_at_first-append b':' scheme rest (is_scheme-no_colon scheme valid),
        is_scheme-nonempty scheme valid,
        validate_scheme_idem lower scheme keeps valid,
        there,
        split,
        address,
      )

  abbrev query_of : List (Text × Text) → Option Text
  query_of [] = none
  query_of (p ∷ ps) = some (params.to_string (p ∷ ps))

  -- A generated URI is read as its scheme, its address and its query.
  parse_bip21_uri-uri_of :
      (scheme address : Text) (pairs : List (Text × Text))
      → IsSearchParams params
      → KeepsSchemes lower
      → is_scheme scheme ≡ true
      → is_address address ≡ true
      → ends_blank address ≡ false
      → validate_address address ≡ ok address
      → parse_bip21_uri params lower (uri_of scheme address (params.to_string pairs))
        ≡ parse_query params lower scheme address (query_of pairs)
  unfolding split_query
  parse_bip21_uri-uri_of scheme address [] laws keeps valid shape end checked =
      let there : is_empty address ≡ false = ground arith in
      let unmarked = no_question_mark address (ground arith) in
      let whole : split_query address ≡ (address, none) =
        rw (split_query, split_at_first-absent b'?' address unmarked) in
      rw (laws.empty)
        (parse_bip21_uri-split scheme address address none keeps valid there end whole checked)
  parse_bip21_uri-uri_of scheme address (p ∷ ps) laws keeps valid shape end checked =
      let q = params.to_string (p ∷ ps) in
      let there : is_empty address ≡ false = ground arith in
      let unmarked = no_question_mark address (ground arith) in
      let q_end : ends_blank (b'?' ∷ q) ≡ false =
        ends_blank-append (b'?' ∷ []) q (laws.nonempty p ps)
          (ends_blank_of_NoSpaces q (laws.no_spaces (p ∷ ps))) in
      let parts : split_query (address ++ b'?' ∷ q) ≡ (address, some q) =
        rw (split_query, split_at_first-append b'?' address q unmarked) in
      rw (laws.nonempty p ps) (
        parse_bip21_uri-split scheme (address ++ b'?' ∷ q) address (some q) keeps valid
          (is_empty-append address (b'?' ∷ q) there)
          (ends_blank-append address (b'?' ∷ q) refl q_end) parts checked)

  or_else-none : (m : Option Text) → or_else m none ≡ m
  or_else-none none = refl
  or_else-none (some t) = refl

  abbrev payment : Text → Text → Option Text → Option Text → ParsedBip21Uri
  payment scheme address amount memo = record {
    scheme = scheme;
    address = address;
    amount = amount;
    memo = memo;
  }

  parse_query-some :
      (scheme address query : Text) (a n : Option Text)
      → params.from_string query ≡ query_pairs (trimmed a) n
      → IsAmountGiven a
      → normalize_memo n ≡ n
      → parse_query params lower scheme address (some query)
        ≡ ok (payment scheme address (trimmed a) n)
  unfolding parse_query
  parse_query-some scheme address query a n e h normal = rw (
    parse_query,
    e,
    get-amount (trimmed a) n,
    get-memo (trimmed a) n,
    get-message (trimmed a) n,
    validate_given_idem a h,
    or_else-none n,
    normal,
  )

  parse_query-pairs :
      (scheme address : Text) (a n : Option Text)
      → IsSearchParams params
      → IsAmountGiven a
      → IsCleanMemo n
      → normalize_memo n ≡ n
      → parse_query params lower scheme address (query_of (query_pairs (trimmed a) n))
        ≡ ok (payment scheme address (trimmed a) n)
  unfolding parse_query
  parse_query-pairs scheme address none none laws h clean normal = refl
  parse_query-pairs scheme address none (some t) laws h clean normal =
      parse_query-some scheme address _ none (some t)
        (laws.inverse _ (query_pairs-IsClean none (some t) h clean)) h normal
  parse_query-pairs scheme address (some b) none laws h clean normal =
      parse_query-some scheme address _ (some b) none
        (laws.inverse _ (query_pairs-IsClean (some b) none h clean)) h normal
  parse_query-pairs scheme address (some b) (some t) laws h clean normal =
      parse_query-some scheme address _ (some b) (some t)
        (laws.inverse _ (query_pairs-IsClean (some b) (some t) h clean)) h normal

-- An input that the validators accept, with a memo without lone surrogates.
pub record IsRequest (lower : Text → Text) (input : GenerateBip21UriInput) : Type 0 where
  pub scheme_valid : is_scheme (lower (trim (or_default input.scheme (codes "bitcoin")))) ≡ true
  pub address_valid : is_address (trim input.address) ≡ true
  pub amount_valid : IsAmountGiven input.amount
  pub memo_clean : IsCleanMemo (normalize_memo input.memo)

-- The input in normal form: trimmed, with the scheme in lower case and without a blank memo.
unfoldable pub payment_of : (Text → Text) → GenerateBip21UriInput → ParsedBip21Uri
payment_of lower input = record {
  scheme = lower (trim (or_default input.scheme (codes "bitcoin")));
  address = trim input.address;
  amount = trimmed input.amount;
  memo = normalize_memo input.memo;
}

-- For a `URLSearchParams` as documented, a valid input with a memo without lone surrogates has a
-- URI, and parsing that URI gives the input in normal form back: trimmed, with its scheme in lower
-- case, and a blank memo left out.
pub parse_bip21_uri-generate_bip21_uri :
    (params : SearchParams) (lower : Text → Text) (input : GenerateBip21UriInput)
    → IsSearchParams params
    → KeepsSchemes lower
    → IsRequest lower input
    → (uri : Text) × (generate_bip21_uri params lower input ≡ ok uri)
      × (parse_bip21_uri params lower uri ≡ ok (payment_of lower input))
unfolding generate_bip21_uri payment_of
parse_bip21_uri-generate_bip21_uri params lower input laws keeps valid =
    let raw_scheme = or_default input.scheme (codes "bitcoin") in
    let scheme = lower (trim raw_scheme) in
    let address = trim input.address in
    let memo = normalize_memo input.memo in
    let pairs = query_pairs (trimmed input.amount) memo in
    (
      uri_of scheme address (params.to_string pairs),
      rw (
        generate_bip21_uri,
        validate_scheme-ok lower raw_scheme keeps valid.scheme_valid,
        validate_address-ok input.address valid.address_valid,
        validate_given-trimmed input.amount valid.amount_valid,
      ),
      parse_bip21_uri-uri_of params lower scheme address pairs laws keeps valid.scheme_valid
            valid.address_valid (ends_blank-trim input.address)
            (validate_address_idem input.address valid.address_valid)
          ∙ parse_query-pairs params lower scheme address input.amount memo laws valid.amount_valid
              valid.memo_clean (normalize_memo_idem input.memo),
    )
