-- ===== src/Core/Bip21/Tests.antt =====
-- Runs of the payment URIs, and the theorems at concrete inputs with a simple `URLSearchParams`.
use soulon_wallet.Prelude.{
  false, is_space, trim, trim_start, trim_end, cons_trimmed, split_at_first, Text, codes, [], ◌∷◌,
  ◌++◌, none, some, ◌≡◌, refl,
}
use soulon_wallet.Prelude.Decimal.{digits_value}
use soulon_wallet.Prelude.Results.{ok}
use soulon_wallet.Core.Account.{normalize_non_empty}
use soulon_wallet.Core.Bip21.{
  GenerateBip21UriInput, ParsedBip21Uri, is_scheme, is_whole_part, is_decimal_amount,
  is_zero_number, validate_scheme, validate_address, validate_amount, validate_given,
  normalize_memo, generate_bip21_uri, split_scheme, split_query, parse_query, parse_bip21_uri,
}
use soulon_wallet.Core.Bip21.Sample.{simple, encode, simple-IsSearchParams, low, low-keeps}
use soulon_wallet.Core.Bip21.Accepted.{IsPayment, parse_bip21_uri-IsPayment}
use soulon_wallet.Core.Bip21.Queries.{is_well_formed}
use soulon_wallet.Core.Bip21.RoundTrip.{IsRequest, payment_of, parse_bip21_uri-generate_bip21_uri}

abbrev input : GenerateBip21UriInput
input = record {
  address = codes " soulon1abc ";
  amount = some (codes "0.5");
  memo = some (codes " tea ");
  scheme = none;
}

generate_test :
    generate_bip21_uri simple low input
    ≡ ok (
        codes "bitcoin:soulon1abc?"
        ++ encode ((codes "amount", codes "0.5") ∷ (codes "memo", codes "tea") ∷ []))
unfolding generate_bip21_uri validate_scheme validate_address validate_amount validate_given
    normalize_non_empty normalize_memo is_scheme is_whole_part is_decimal_amount is_zero_number trim
    trim_start trim_end cons_trimmed is_space codes split_at_first low encode digits_value
generate_test = refl

-- A small number that is not 0 as a double.
small_test : is_zero_number (codes "0.000000000000000000000000000000000001") ≡ false
unfolding is_zero_number split_at_first codes digits_value
small_test = refl

input-IsRequest : IsRequest low input
unfolding normalize_memo is_scheme is_whole_part is_decimal_amount is_zero_number is_well_formed
    trim trim_start trim_end cons_trimmed is_space codes split_at_first low digits_value
input-IsRequest = record {
  scheme_valid = refl;
  address_valid = refl;
  amount_valid = refl;
  memo_clean = refl;
}

parse_bip21_uri-generate_bip21_uri_example :
    (uri : Text) × (generate_bip21_uri simple low input ≡ ok uri)
    × (parse_bip21_uri simple low uri ≡ ok (payment_of low input))
parse_bip21_uri-generate_bip21_uri_example =
    parse_bip21_uri-generate_bip21_uri simple low input simple-IsSearchParams low-keeps
      input-IsRequest

abbrev parsed : ParsedBip21Uri
parsed = record { scheme = codes "soul"; address = codes "soulon1abc"; amount = none; memo = none }

parse_test : parse_bip21_uri simple low (codes " SOUL:soulon1abc") ≡ ok parsed
unfolding parse_bip21_uri parse_query split_scheme split_query validate_scheme validate_address
    normalize_non_empty is_scheme trim trim_start trim_end cons_trimmed is_space codes
    split_at_first low
parse_test = refl

parse_bip21_uri-IsPayment_example : IsPayment parsed
parse_bip21_uri-IsPayment_example =
    parse_bip21_uri-IsPayment simple low (codes " SOUL:soulon1abc") parsed parse_test
