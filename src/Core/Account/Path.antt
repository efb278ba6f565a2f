-- ===== src/Core/Account/Path.antt =====
-- soulon-wallet/src/core/wallet.ts: the derivation path.
use soulon_wallet.Prelude.{
  ℕ, ◌^◌, ◌<◌, Bool, true, false, if◌then◌else◌, or_default, is_digit, strip_prefix, codes, Text,
  String, [], ◌∷◌, ◌++◌, Option, none, some, ◌≡◌, refl, lt→ltb, arith,
}
use mathlib.Core.Option
use soulon_wallet.Prelude.Decimal.{
  decimal, number_text, read_number, read_number-decimal, read_number-decimal_end,
}
use soulon_wallet.Prelude.Prefix.{strip_prefix-append}
use soulon_wallet.Prelude.Results.{Result, ok, err, ◌>>=◌}
use soulon_wallet.Core.Errors.{Thrown}
use soulon_wallet.Core.Types.{Number, whole, negative, fractional}
use soulon_wallet.Core.Account.{PathIndexes, fail, natural, derive_hd_path}

-- A reader of paths, written without regard to how they are made: numbers in decimal between
-- fixed separators, and nothing behind the last.
pub record HdNumbers : Type 0 where
  pub coin_type : ℕ
  pub account : ℕ
  pub change : ℕ
  pub address_index : ℕ

unfoldable pub read_last : ℕ → ℕ → ℕ → ℕ × Text → Option HdNumbers
read_last c a h (i, []) =
    some (record { coin_type = c; account = a; change = h; address_index = i })
read_last c a h (i, d ∷ s) = none

-- A number, the separator behind it, and the rest by `k`.
unfoldable pub read_field {ℓ} : {A : Type ℓ} → Text → (ℕ → Text → Option A) → Text → Option A
read_field separator k s =
    let (n, rest) = read_number 0 s in Option.bind (strip_prefix separator rest) (k n)

unfoldable pub read_path : Text → Option HdNumbers
read_path s = Option.bind (strip_prefix (codes "m/44'/") s) (
    read_field (codes "'/") λ c.
      read_field (codes "'/") λ a. read_field (codes "/") λ h t. read_last c a h (read_number 0 t))

module _ (large : ℕ → Text) where
  number_text-decimal : (n : ℕ) → n < 2 ^ 53 → number_text large n ≡ decimal n
  unfolding number_text
  number_text-decimal n h = rw (lt→ltb _ _ h)

  read_field-number {ℓ} :
      {A : Type ℓ} (n c : ℕ) (separator rest : Text) (k : ℕ → Text → Option A)
      → n < 2 ^ 53
      → is_digit c ≡ false
      → read_field (c ∷ separator) k (number_text large n ++ c ∷ (separator ++ rest)) ≡ k n rest
  unfolding read_field Option.bind
  read_field-number n c separator rest k h d = rw (
    number_text-decimal n h,
    read_number-decimal n c (separator ++ rest) (omega arith) d,
    strip_prefix-append (c ∷ separator) rest,
  )

  abbrev path_text : ℕ → ℕ → ℕ → ℕ → Text
  path_text c a h i =
      codes "m/44'/"
      ++ (number_text large c
          ++ (codes "'/"
              ++ (number_text large a
                  ++ (codes "'/" ++ (number_text large h ++ (codes "/" ++ number_text large i))))))

  read_path-path_text :
      (c a h i : ℕ)
      → c < 2 ^ 53
      → a < 2 ^ 53
      → h < 2 ^ 53
      → i < 2 ^ 53
      → read_path (path_text c a h i)
        ≡ some (record { coin_type = c; account = a; change = h; address_index = i })
  unfolding read_path codes Option.bind read_last
  read_path-path_text c a h i lc la lh li = rw (
    strip_prefix-append,
    read_field-number c 39 (b'/' ∷ []) _ _ lc refl,
    read_field-number a 39 (b'/' ∷ []) _ _ la refl,
    read_field-number h b'/' [] _ _ lh refl,
    number_text-decimal i li,
    read_number-decimal_end i (omega arith),
  )

  -- If every index is a whole number below 2 ^ 53 (0 where an optional one is missing), a path is
  -- derived, and reading it gives back the four indexes.
  pub read_path-derive_hd_path :
      (input : PathIndexes) (c a h i : ℕ)
      → input.coin_type ≡ whole c
      → or_default input.account (whole 0) ≡ whole a
      → or_default input.change (whole 0) ≡ whole h
      → or_default input.address_index (whole 0) ≡ whole i
      → c < 2 ^ 53
      → a < 2 ^ 53
      → h < 2 ^ 53
      → i < 2 ^ 53
      → (p : Text) × (derive_hd_path large input ≡ ok p)
        × (read_path p
            ≡ some (record { coin_type = c; account = a; change = h; address_index = i }))
  unfolding derive_hd_path read_path codes
  read_path-derive_hd_path input c a h i ec ea eh ei lc la lh li =
      (path_text c a h i, rw (ec, ea, eh, ei), read_path-path_text c a h i lc la lh li)

-- The code of the first index, in the order coin type, account, change, address index, that is no
-- whole number.
unfoldable pub is_whole : Number → Bool
is_whole (whole n) = true
is_whole (negative n) = false
is_whole fractional = false

unfoldable pub first_invalid : PathIndexes → Option String
unfolding is_whole
first_invalid input =
    if is_whole input.coin_type
    then if is_whole (or_default input.account (whole 0))
      then if is_whole (or_default input.change (whole 0))
        then if is_whole (or_default input.address_index (whole 0))
          then none
          else some "INVALID_ADDRESS_INDEX"
        else some "INVALID_CHANGE_INDEX"
      else some "INVALID_ACCOUNT_INDEX"
    else some "INVALID_COIN_TYPE"

-- A computation that has a value or fails with a code, and the code that it is said to fail with.
abbrev pub FailsWith : Result Thrown Text → Option String → Type 0
FailsWith r none = (a : Text) × (r ≡ ok a)
FailsWith r (some code) = (message : Text) × (r ≡ err (fail code message))

natural-FailsWith :
    (v : Number) (code : String) (message : Text) (k : ℕ → Result Thrown Text)
    (other : Option String)
    → ((n : ℕ) → FailsWith (k n) other)
    → FailsWith (natural v code message >>= k) (if is_whole v then other else some code)
unfolding natural is_whole
natural-FailsWith (whole n) code message k other h = h n
natural-FailsWith (negative n) code message k other h = (message, refl)
natural-FailsWith fractional code message k other h = (message, refl)

-- A path is derived if all four indexes are whole numbers, and otherwise the error has the code
-- of the first that is none.
pub derive_hd_path-first_invalid :
    (large : ℕ → Text) (input : PathIndexes)
    → FailsWith (derive_hd_path large input) (first_invalid input)
unfolding first_invalid derive_hd_path
derive_hd_path-first_invalid large input = natural-FailsWith input.coin_type _ _ _ _ λ c.
    natural-FailsWith (or_default input.account (whole 0)) _ _ _ _ λ a.
      natural-FailsWith (or_default input.change (whole 0)) _ _ _ _
        λ h. natural-FailsWith (or_default input.address_index (whole 0)) _ _ _ _ λ i. (_, refl)
