-- ===== src/Core/Account.antt =====
-- soulon-wallet/src/core/wallet.ts: the validation of mnemonics, prefixes, path indexes and
-- addresses, and the wallets made from them. The key library is the parameter `Keyring`; `large`
-- is the text that a number from 2 ^ 53 on gets in a path.
pub mod Words
pub mod Path
pub mod Address
mod Tests
use soulon_wallet.Prelude.{
  ℕ, zero, suc, ◌+◌, ◌≤◌, leb, ltb, ◌==◌, Bool, true, false, not, ◌&&◌, ◌||◌, if◌then◌else◌, all,
  length, is_empty, or_default, is_digit, is_lower, is_space, strip_prefix, trim, String, Text,
  codes, List, [], ◌∷◌, ◌++◌, map, Option, none, some,
}
use mathlib.Core.Option
use soulon_wallet.Prelude.Trim.{starts_blank}
use soulon_wallet.Prelude.Decimal.{number_text}
use soulon_wallet.Prelude.Results.{Result, ok, err, throw_if, ◌>>=◌, ◌>>◌}
use soulon_wallet.Core.Errors.{WalletError, Thrown, soulon, error_of}
use soulon_wallet.Core.Types.{Number, whole, negative, fractional}

pub record CreateWalletInput : Type 0 where
  pub mnemonic : Text
  pub prefix : Text
  pub bip39_passphrase : Option Text

pub record PathIndexes : Type 0 where
  pub coin_type : Number
  pub account : Option Number
  pub change : Option Number
  pub address_index : Option Number

pub record CreateWalletWithPathInput : Type 0 where
  pub wallet : CreateWalletInput
  pub indexes : PathIndexes

abbrev pub fail : String → Text → Thrown
fail code message = soulon (error_of code message)

unfoldable pub normalize_non_empty : Text → String → Text → Result Thrown Text
normalize_non_empty text code message = do
  let normalized = trim text
  throw_if (is_empty normalized) (fail code message)
  ok normalized

-- `split(/\s+/)`: the words between runs of white space; a run at an end has an empty word there.
unfoldable pub cons_word : ℕ → List Text → List Text
cons_word c [] = (c ∷ []) ∷ []
cons_word c (w ∷ ws) = (c ∷ w) ∷ ws

unfoldable pub split_words : Text → List Text
split_words [] = [] ∷ []
split_words (c ∷ s) =
    let words = split_words s in
    if is_space c then (if starts_blank s then words else [] ∷ words) else cons_word c words

-- `words.join(" ")`.
unfoldable pub join_words : List Text → Text
join_words [] = []
join_words (w ∷ []) = w
join_words (w ∷ v ∷ ws) = w ++ 32 ∷ join_words (v ∷ ws)

unfoldable pub validate_mnemonic : Text → Result Thrown Text
unfolding normalize_non_empty
validate_mnemonic mnemonic = do
  normalized ← normalize_non_empty mnemonic "INVALID_MNEMONIC" (codes "Mnemonic is required")
  let words = split_words normalized
  throw_if (not (length words == 12 || length words == 24))
      (fail "INVALID_MNEMONIC" (codes "Mnemonic must contain 12 or 24 words"))
  ok (join_words words)

-- `/^[a-z][a-z0-9]{1,31}$/`.
unfoldable pub matches_prefix : Text → Bool
matches_prefix [] = false
matches_prefix (c ∷ s) =
    is_lower c && all (λ d. is_lower d || is_digit d) s && leb 1 (length s) && leb (length s) 31

unfoldable pub validate_prefix : Text → Result Thrown Text
unfolding normalize_non_empty
validate_prefix prefix = do
  normalized ← normalize_non_empty prefix "INVALID_PREFIX" (codes "Address prefix is required")
  throw_if (not (matches_prefix normalized))
      (fail "INVALID_PREFIX" (codes "Address prefix format is invalid"))
  ok normalized

-- `!Number.isInteger(value) || value < 0` throws.
unfoldable pub natural : Number → String → Text → Result Thrown ℕ
natural (whole n) code message = ok n
natural (negative n) code message = err (fail code message)
natural fractional code message = err (fail code message)

unfoldable pub validate_path_index : Option Number → String → Text → Result Thrown ℕ
unfolding natural
validate_path_index value code label =
    natural (or_default value (whole 0)) code (label ++ codes " must be a non-negative integer")

unfoldable pub validate_coin_type : Number → Result Thrown ℕ
unfolding natural
validate_coin_type coin_type =
    natural coin_type "INVALID_COIN_TYPE" (codes "Coin type must be a non-negative integer")

-- The characters of `/[.*+?^${}()|[\]\\]/`.
unfoldable pub is_syntax : ℕ → Bool
is_syntax c =
    c == b'.'
    || c == b'*'
    || c == b'+'
    || c == b'?'
    || c == b'^'
    || c == b'$'
    || c == b'{'
    || c == b'}'
    || c == b'('
    || c == b')'
    || c == b'|'
    || c == b'['
    || c == b']'
    || c == 92

unfoldable pub escape_for_regex : Text → Text
escape_for_regex [] = []
escape_for_regex (c ∷ s) =
    if is_syntax c then 92 ∷ c ∷ escape_for_regex s else c ∷ escape_for_regex s

-- The literal text that a pattern without operators stands for: a backslash quotes the character
-- behind it, which `quoted` records. A pattern with an operator is none.
unfoldable pub literal_from : Bool → Text → Option Text
literal_from true [] = none
literal_from false [] = some []
literal_from true (c ∷ p) = Option.map (λ t. c ∷ t) (literal_from false p)
literal_from false (c ∷ p) =
    let quoted = literal_from true p in
    let plain = Option.map (λ t. c ∷ t) (literal_from false p) in
    if c == 92 then quoted else if is_syntax c then none else plain

-- `[02-9ac-hj-np-z]`.
unfoldable pub is_bech32 : ℕ → Bool
is_bech32 c =
    c == b'0'
    || (leb b'2' c && leb c b'9')
    || c == b'a'
    || (leb b'c' c && leb c b'h')
    || (leb b'j' c && leb c b'n')
    || (leb b'p' c && leb c b'z')

-- `[02-9ac-hj-np-z]{least,}$`, behind the literal part of a pattern, if that matched.
unfoldable pub matches_tail : ℕ → Option Text → Bool
matches_tail least none = false
matches_tail least (some tail) = all is_bech32 tail && leb least (length tail)

-- `new RegExp("^" + source + "[02-9ac-hj-np-z]{least,}$").test(address)`, with a literal source.
unfoldable pub matches_address : Text → ℕ → Text → Bool
unfolding matches_tail
matches_address source least address =
    matches_tail least
      (Option.bind (literal_from false source) (λ literal. strip_prefix literal address))

unfoldable pub is_address_for_prefix : Text → Text → Result Thrown Bool
is_address_for_prefix address prefix = do
  normalized_prefix ← validate_prefix prefix
  let normalized_address = trim address
  if is_empty normalized_address
      then ok false
      else ok
          (matches_address (escape_for_regex normalized_prefix ++ codes "1") 6 normalized_address)

-- The key library: BIP-39 and BIP-32 derivation, and the accounts of a signer.
pub record Keyring : Type 1 where
  pub Signer : Type 0
  pub HdPath : Type 0
  pub string_to_path : Text → Result Thrown HdPath
  pub from_mnemonic : Text → Text → Option (List HdPath) → Option Text → Result Thrown Signer
  pub generate : ℕ → Text → Result Thrown Signer
  pub mnemonic_of : Signer → Text
  pub get_accounts : Signer → Result Thrown (List Text)

module _ (large : ℕ → Text) where
  unfoldable pub derive_hd_path : PathIndexes → Result Thrown Text
  unfolding validate_coin_type validate_path_index
  derive_hd_path input = do
    coin_type ← validate_coin_type input.coin_type
    account ← validate_path_index input.account "INVALID_ACCOUNT_INDEX" (codes "Account index")
    change ← validate_path_index input.change "INVALID_CHANGE_INDEX" (codes "Change index")
    address_index ←
        validate_path_index input.address_index "INVALID_ADDRESS_INDEX" (codes "Address index")
    ok (
        codes "m/44'/"
        ++ (number_text large coin_type
            ++ (codes "'/"
                ++ (number_text large account
                    ++ (codes "'/"
                        ++ (number_text large change
                            ++ (codes "/" ++ number_text large address_index)))))))

module _ (large : ℕ → Text) (keys : Keyring) where
  open keys use {Signer, string_to_path, from_mnemonic, generate, mnemonic_of, get_accounts}

  unfoldable pub create_wallet_from_mnemonic : CreateWalletInput → Result Thrown Signer
  create_wallet_from_mnemonic input = do
    mnemonic ← validate_mnemonic input.mnemonic
    prefix ← validate_prefix input.prefix
    from_mnemonic mnemonic prefix none input.bip39_passphrase

  unfoldable pub create_wallet_from_mnemonic_with_path :
      CreateWalletWithPathInput → Result Thrown Signer
  create_wallet_from_mnemonic_with_path input = do
    mnemonic ← validate_mnemonic input.wallet.mnemonic
    prefix ← validate_prefix input.wallet.prefix
    path ← derive_hd_path large input.indexes
    hd_path ← string_to_path path
    from_mnemonic mnemonic prefix (some (hd_path ∷ [])) input.wallet.bip39_passphrase

  unfoldable pub create_random_wallet : Text → Result Thrown (Text × Signer)
  create_random_wallet prefix = do
    normalized_prefix ← validate_prefix prefix
    wallet ← generate 24 normalized_prefix
    ok (mnemonic_of wallet, wallet)

  -- `const [account] = …; if (!account?.address)`.
  abbrev first_address : List Text → Text
  first_address [] = []
  first_address (a ∷ rest) = a

  unfoldable pub get_first_account_address : Signer → Option Text → Result Thrown Text
  get_first_account_address signer prefix = do
    accounts ← get_accounts signer
    let address = first_address accounts
    throw_if (is_empty address)
        (fail "ACCOUNT_NOT_FOUND" (codes "No account available from signer"))
    matches ← elim prefix [ none ↦ ok true | some p ↦ is_address_for_prefix address p ]
    throw_if (not matches)
        (fail "INVALID_ADDRESS" (codes "Derived address does not match expected prefix"))
    ok address

  unfoldable pub derive_address_from_mnemonic : CreateWalletWithPathInput → Result Thrown Text
  unfolding create_wallet_from_mnemonic_with_path get_first_account_address
  derive_address_from_mnemonic input = do
    signer ← create_wallet_from_mnemonic_with_path input
    get_first_account_address signer (some input.wallet.prefix)
