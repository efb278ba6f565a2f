-- ===== src/Core/Bip21.antt =====
-- soulon-wallet/src/core/bip21.ts: payment URIs. `URLSearchParams` is a parameter. `toLowerCase`
-- is one too. The file's `normalizeNonEmpty` does what that of wallet.ts does.
pub mod Payments
pub mod Accepted
pub mod Queries
pub mod RoundTrip
pub mod Sample
mod Tests
use soulon_wallet.Prelude.{
  ℕ, ◌*◌, ◌^◌, leb, ◌==◌, Bool, true, false, not, ◌&&◌, ◌||◌, if◌then◌else◌, any, all, is_empty,
  is_digit, is_lower, is_space, eq_text, length, or_default, trim, split_at_first, String, Text,
  codes, List, [], ◌∷◌, ◌++◌, Option, none, some,
}
use soulon_wallet.Prelude.Decimal.{digits_value}
use soulon_wallet.Prelude.Results.{Result, ok, err, throw_if, ◌>>=◌, ◌>>◌}
use soulon_wallet.Core.Errors.{Thrown}
use soulon_wallet.Core.Account.{fail, normalize_non_empty}

-- `URLSearchParams`, as the list of its names and values: `toString` and the constructor.
pub record SearchParams : Type 0 where
  pub to_string : List (Text × Text) → Text
  pub from_string : Text → List (Text × Text)

-- `get`: the value of the first pair with the name.
unfoldable pub get : Text → List (Text × Text) → Option Text
unfolding eq_text
get name [] = none
get name ((key, v) ∷ pairs) = let rest = get name pairs in if eq_text name key then some v else rest

pub record GenerateBip21UriInput : Type 0 where
  pub address : Text
  pub amount : Option Text
  pub memo : Option Text
  pub scheme : Option Text

pub record ParsedBip21Uri : Type 0 where
  pub scheme : Text
  pub address : Text
  pub amount : Option Text
  pub memo : Option Text

-- `/^[a-z][a-z0-9+.-]*$/`.
abbrev pub is_scheme_char : ℕ → Bool
is_scheme_char c = is_lower c || is_digit c || c == b'+' || c == b'.' || c == b'-'

unfoldable pub is_scheme : Text → Bool
is_scheme [] = false
is_scheme (c ∷ s) = is_lower c && all is_scheme_char s

-- `/[\s?#]/`.
abbrev pub is_invalid_char : ℕ → Bool
is_invalid_char c = is_space c || c == b'?' || c == b'#'

-- `0|[1-9]\d*`.
unfoldable pub is_whole_part : Text → Bool
is_whole_part [] = false
is_whole_part (c ∷ []) = is_digit c
is_whole_part (c ∷ d ∷ s) = leb b'1' c && leb c b'9' && all is_digit (d ∷ s)

abbrev pub is_fraction : Text → Bool
is_fraction s = not (is_empty s) && all is_digit s

-- `/^(?:0|[1-9]\d*)(?:\.\d+)?$/`.
unfoldable pub is_decimal_amount : Text → Bool
unfolding split_at_first is_whole_part
is_decimal_amount amount = elim (split_at_first b'.' amount) [
  | none ↦ is_whole_part amount
  | some parts ↦ is_whole_part parts.0 && is_fraction parts.1
]

-- `Number(amount) <= 0` of a decimal n / 10 ^ k: it is 0, or so small, at most 2 ^ -1075, that the
-- nearest double is 0.
unfoldable pub is_zero_number : Text → Bool
unfolding split_at_first
is_zero_number amount = elim (split_at_first b'.' amount) [
  | none ↦ leb (digits_value 0 amount * 2 ^ 1075) 1
  | some parts ↦ leb (digits_value 0 (parts.0 ++ parts.1) * 2 ^ 1075) (10 ^ length parts.1)
]

module _ (lower : Text → Text) where
  unfoldable pub validate_scheme : Text → Result Thrown Text
  unfolding normalize_non_empty is_scheme
  validate_scheme scheme = do
    trimmed ← normalize_non_empty scheme "BIP21_INVALID_SCHEME" (codes "BIP-21 scheme is required")
    let normalized_scheme = lower trimmed
    throw_if (not (is_scheme normalized_scheme))
        (fail "BIP21_INVALID_SCHEME" (codes "BIP-21 scheme is invalid"))
    ok normalized_scheme

unfoldable pub validate_address : Text → Result Thrown Text
unfolding normalize_non_empty
validate_address address = do
  normalized ←
      normalize_non_empty address "BIP21_INVALID_ADDRESS" (codes "BIP-21 address is required")
  throw_if (any is_invalid_char normalized)
      (fail "BIP21_INVALID_ADDRESS" (codes "BIP-21 address is invalid"))
  ok normalized

unfoldable pub validate_amount : Text → Result Thrown Text
unfolding normalize_non_empty is_decimal_amount is_zero_number
validate_amount amount = do
  normalized ← normalize_non_empty amount "BIP21_INVALID_AMOUNT" (codes "BIP-21 amount is required")
  throw_if (not (is_decimal_amount normalized) || is_zero_number normalized)
      (fail "BIP21_INVALID_AMOUNT" (codes "BIP-21 amount is invalid"))
  ok normalized

-- An amount that is given must be valid.
unfoldable pub validate_given : Option Text → Result Thrown (Option Text)
unfolding validate_amount
validate_given none = ok none
validate_given (some amount) = do valid ← validate_amount amount; ok (some valid)

-- A memo that is blank counts as none.
unfoldable pub normalize_memo : Option Text → Option Text
normalize_memo none = none
normalize_memo (some memo) = if is_empty (trim memo) then none else some (trim memo)

-- `searchParams.set` of a name that is not there yet.
abbrev pub param : String → Option Text → List (Text × Text)
param name none = []
param name (some v) = (codes name, v) ∷ []

abbrev pub uri_of : Text → Text → Text → Text
uri_of scheme address query =
    if is_empty query then scheme ++ b':' ∷ address else scheme ++ b':' ∷ (address ++ b'?' ∷ query)

abbrev pub invalid_uri : Thrown
invalid_uri = fail "BIP21_INVALID_URI" (codes "BIP-21 URI is invalid")

-- The scheme before the first colon, which must not be empty, and what is behind the colon.
unfoldable pub split_scheme : Text → Result Thrown (Text × Text)
unfolding split_at_first
split_scheme uri = elim (split_at_first b':' uri) [
  | none ↦ err invalid_uri
  | some parts ↦ if is_empty parts.0 then err invalid_uri else ok parts
]

-- The address segment, and the query if there is a question mark.
unfoldable pub split_query : Text → Text × Option Text
unfolding split_at_first
split_query payload = elim (split_at_first b'?' payload) [
  | none ↦ (payload, none)
  | some parts ↦ (parts.0, some parts.1)
]

-- `searchParams.get("memo") ?? searchParams.get("message")`.
abbrev pub or_else : Option Text → Option Text → Option Text
or_else none o = o
or_else (some t) o = some t

module _ (params : SearchParams) (lower : Text → Text) where
  unfoldable pub generate_bip21_uri : GenerateBip21UriInput → Result Thrown Text
  unfolding validate_scheme validate_address validate_given normalize_memo
  generate_bip21_uri input = do
    scheme ← validate_scheme lower (or_default input.scheme (codes "bitcoin"))
    address ← validate_address input.address
    amount ← validate_given input.amount
    ok (
        uri_of scheme address
          (params.to_string (param "amount" amount ++ param "memo" (normalize_memo input.memo))))

  -- The rest of the parse, on the query.
  unfoldable pub parse_query : Text → Text → Option Text → Result Thrown ParsedBip21Uri
  unfolding validate_given normalize_memo get
  parse_query scheme address none =
      ok (record { scheme = scheme; address = address; amount = none; memo = none })
  parse_query scheme address (some query) = do
    let search_params = params.from_string query
    amount ← validate_given (get (codes "amount") search_params)
    ok (record {
      scheme = scheme;
      address = address;
      amount = amount;
      memo =
          normalize_memo
            (or_else (get (codes "memo") search_params) (get (codes "message") search_params));
    })

  unfoldable pub parse_bip21_uri : Text → Result Thrown ParsedBip21Uri
  unfolding normalize_non_empty split_scheme split_query validate_scheme validate_address
      parse_query
  parse_bip21_uri uri = do
    normalized ← normalize_non_empty uri "BIP21_INVALID_URI" (codes "BIP-21 URI is required")
    parts ← split_scheme normalized
    scheme ← validate_scheme lower parts.0
    throw_if (is_empty parts.1) invalid_uri
    address ← validate_address (split_query parts.1).0
    parse_query scheme address (split_query parts.1).1
