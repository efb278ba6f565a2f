-- ===== src/Prelude/Decimal.antt =====
-- Decimal text of numbers, and reading it back.
use Prim.Native.Nat.{ℕ, zero, suc, ◌+◌, ◌-◌, ◌*◌, ◌/◌, ◌%◌, ◌^◌, ◌<◌}
use mathlib.Core.Path.{◌≡◌, refl, ap, ◌∙◌}
use mathlib.Core.Logic.{inl, inr}
use mathlib.Core.Bool.{false}
use mathlib.Core.List.{[], ◌∷◌, ◌++◌}
use native.Mathlib.Omega.{arith}
use native.Mathlib.Nat.{pow-suc}
use soulon_wallet.Prelude.Tests.{ltb, if◌then◌else◌, ltb→lt, Bool-cases}
use soulon_wallet.Prelude.Strings.{Text, is_digit}

-- The digits of `n` in front of `out`; `fuel` bounds their number.
unfoldable pub put_digits : ℕ → ℕ → Text → Text
put_digits zero n out = out
put_digits (suc fuel) n out =
    let more = put_digits fuel (n / 10) ((b'0' + n % 10) ∷ out) in
    if ltb n 10 then (b'0' + n) ∷ out else more

-- The text of a number below 10 ^ 21.
unfoldable pub decimal : ℕ → Text
unfolding put_digits
decimal n = put_digits 21 n []

-- The text of a number that is whole. From 2 ^ 53 on `String` writes the shortest digits that the
-- number is rounded from, and from 10 ^ 21 on an exponent: that text is the parameter.
unfoldable pub number_text : (ℕ → Text) → ℕ → Text
number_text large n = if ltb n (2 ^ 53) then decimal n else large n

-- The number that the digits at the front spell behind `acc`, and what follows them.
unfoldable pub read_number : ℕ → Text → ℕ × Text
read_number acc [] = (acc, [])
read_number acc (c ∷ s) =
    let rest = read_number (acc * 10 + (c - b'0')) s in if is_digit c then rest else (acc, c ∷ s)

-- `BigInt(text)` of a text of digits, behind the digits that spell `acc`.
unfoldable pub digits_value : ℕ → Text → ℕ
digits_value acc [] = acc
digits_value acc (c ∷ s) = digits_value (acc * 10 + (c - b'0')) s

read_number-digit :
    (d acc : ℕ) (out : Text)
    → d < 10
    → read_number acc ((b'0' + d) ∷ out) ≡ read_number (acc * 10 + d) out
unfolding read_number
read_number-digit d acc out h = ground arith

-- Reading what was put: the digits stand in front of `out`.
read_number-put_digits :
    (fuel n acc : ℕ) (out : Text)
    → n < 10 ^ fuel
    → (p : ℕ) × (read_number acc (put_digits fuel n out) ≡ read_number (acc * p + n) out)
unfolding put_digits
read_number-put_digits zero n acc out h = (1, ap (λ k. read_number k out) (omega arith))
read_number-put_digits (suc fuel) n acc out h = elim (Bool-cases (ltb n 10)) [
  | inl small ↦ (10, rw small (read_number-digit n acc out (ltb→lt _ _ small)))
  | inr big ↦
      let below : n < 10 ^ fuel * 10 = rw (← pow-suc 10 fuel) h in
      let (p, rest) =
        read_number-put_digits fuel (n / 10) acc ((b'0' + n % 10) ∷ out) (omega arith) in
      (
        p * 10,
        rw big (
            rest
            ∙ read_number-digit (n % 10) (acc * p + n / 10) out (omega arith)
            ∙ ap (λ k. read_number k out) (omega arith)),
      )
]

put_digits-append :
    (fuel n : ℕ) (out rest : Text) → put_digits fuel n out ++ rest ≡ put_digits fuel n (out ++ rest)
unfolding put_digits
put_digits-append zero n out rest = refl
put_digits-append (suc fuel) n out rest = elim (Bool-cases (ltb n 10)) [
  | inl small ↦ rw small
  | inr big ↦ rw big (put_digits-append fuel (n / 10) ((b'0' + n % 10) ∷ out) rest)
]

-- A number below 10 ^ 21 is read back from its text, and the reading stops behind it.
pub read_number-decimal :
    (n : ℕ) (c : ℕ) (out : Text)
    → n < 10 ^ 21
    → is_digit c ≡ false
    → read_number 0 (decimal n ++ c ∷ out) ≡ (n, c ∷ out)
unfolding decimal read_number
read_number-decimal n c out h stop =
    let (p, eq) = read_number-put_digits 21 n 0 (c ∷ out) h in
    ap (read_number 0) (put_digits-append 21 n [] (c ∷ out)) ∙ eq ∙ rw stop (ground arith)

pub read_number-decimal_end : (n : ℕ) → n < 10 ^ 21 → read_number 0 (decimal n) ≡ (n, [])
unfolding decimal read_number
read_number-decimal_end n h = let (p, eq) = read_number-put_digits 21 n 0 [] h in eq ∙ ground arith
