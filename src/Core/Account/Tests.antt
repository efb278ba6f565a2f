-- ===== src/Core/Account/Tests.antt =====
-- Runs of the account functions, and their theorems at concrete inputs.
use soulon_wallet.Prelude.{
  ℕ, true, false, is_space, trim, strip_prefix, Text, codes, ◌++◌, none, some, ◌≡◌, ◌↔◌, ◌⊎◌, refl,
  arith,
}
use mathlib.Core.Option
use soulon_wallet.Prelude.Decimal.{decimal, number_text}
use soulon_wallet.Prelude.Results.{ok, err}
use soulon_wallet.Core.Errors.{Thrown}
use soulon_wallet.Core.Types.{whole, negative, fractional}
use soulon_wallet.Prelude.Trim.{starts_blank}
use soulon_wallet.Core.Account.{
  PathIndexes, split_words, cons_word, join_words, validate_mnemonic, validate_prefix,
  matches_prefix, is_syntax, escape_for_regex, literal_from, is_bech32, matches_address,
  is_address_for_prefix, derive_hd_path,
}
use soulon_wallet.Core.Account.Words.{IsMnemonic, validate_mnemonic-IsMnemonic}
use soulon_wallet.Core.Account.Path.{
  FailsWith, first_invalid, read_path, read_path-derive_hd_path, derive_hd_path-first_invalid,
}
use soulon_wallet.Core.Account.Address.{IsAddress, is_address_for_prefix-IsAddress}

abbrev spaced : Text
spaced = codes "  a b  c d e f a b c d  e f "

abbrev plain : Text
plain = codes "a b c d e f a b c d e f"

mnemonic_test : validate_mnemonic spaced ≡ ok plain
unfolding validate_mnemonic split_words cons_word join_words starts_blank is_space trim codes
mnemonic_test = refl

validate_mnemonic-IsMnemonic_example :
    IsMnemonic plain × (split_words plain ≡ split_words (trim spaced))
validate_mnemonic-IsMnemonic_example = validate_mnemonic-IsMnemonic spaced plain mnemonic_test

abbrev indexes : PathIndexes
indexes = record {
  coin_type = whole 118;
  account = none;
  change = some (whole 0);
  address_index = some (whole 42);
}

abbrev large : ℕ → Text
large n = codes "9007199254740992"

path_test : derive_hd_path large indexes ≡ ok (codes "m/44'/118'/0'/0/42")
unfolding derive_hd_path number_text decimal codes
path_test = refl

read_path-derive_hd_path_example :
    (p : Text) × (derive_hd_path large indexes ≡ ok p)
    × (read_path p ≡ some (record { coin_type = 118; account = 0; change = 0; address_index = 42 }))
read_path-derive_hd_path_example =
    read_path-derive_hd_path large indexes 118 0 0 42 refl refl refl refl (omega arith)
      (omega arith) (omega arith) (omega arith)

abbrev bad_indexes : PathIndexes
bad_indexes = record {
  coin_type = whole 118;
  account = none;
  change = some (negative 0);
  address_index = some fractional;
}

derive_hd_path-first_invalid_example :
    FailsWith (derive_hd_path large bad_indexes) (first_invalid bad_indexes)
derive_hd_path-first_invalid_example = derive_hd_path-first_invalid large bad_indexes

prefix_test : validate_prefix (codes " soulon ") ≡ ok (codes "soulon")
unfolding validate_prefix matches_prefix trim codes
prefix_test = refl

is_address_for_prefix-IsAddress_example :
    ((p : Text) × (validate_prefix (codes " soulon ") ≡ ok p)
      × ((is_address_for_prefix (codes "soulon1qqqqqq") (codes " soulon ") ≡ ok true)
          ↔ IsAddress (p ++ codes "1") 6 (trim (codes "soulon1qqqqqq"))))
    ⊎ ((e : Thrown) × (validate_prefix (codes " soulon ") ≡ err e)
        × (is_address_for_prefix (codes "soulon1qqqqqq") (codes " soulon ") ≡ err e))
is_address_for_prefix-IsAddress_example =
    is_address_for_prefix-IsAddress (codes "soulon1qqqqqq") (codes " soulon ")

address_test : is_address_for_prefix (codes "soulon1qqbqqq") (codes "soulon") ≡ ok false
unfolding is_address_for_prefix validate_prefix matches_prefix trim codes matches_address
    literal_from is_syntax escape_for_regex strip_prefix is_bech32 Option.bind
address_test = refl
