-- ===== src/Prelude/Int.antt =====
-- Integers over the native numbers, and the operations of JavaScript on them that the code uses.
use Prim.Native.Nat.{ℕ, zero, suc, ◌+◌, ◌-◌, ◌*◌, ◌/◌, ◌%◌}
use mathlib.Core.Path.{◌≡◌, refl, sym, ap, ◌∙◌}
use soulon_wallet.Prelude.Tests.{ltb, if◌then◌else◌}
use native.Mathlib.Omega.{arith}

-- `negsuc n` is -(n + 1).
pub data ℤ : Type 0 where
  pos : ℕ → ℤ
  negsuc : ℕ → ℤ

-- The number -n.
abbrev pub minus : ℕ → ℤ
minus zero = pos zero
minus (suc n) = negsuc n

-- `Math.floor(a / d)`.
abbrev pub floor_div : ℤ → ℕ → ℤ
floor_div (pos n) d = pos (n / d)
floor_div (negsuc n) d = negsuc (n / d)

-- `a % d`, which has the sign of `a`.
abbrev pub rem : ℤ → ℕ → ℤ
rem (pos n) d = pos (n % d)
rem (negsuc n) d = minus (suc n % d)

-- `a * k`.
abbrev pub times : ℤ → ℕ → ℤ
times (pos n) k = pos (n * k)
times (negsuc n) k = minus (suc n * k)

-- `n + a`.
abbrev pub plus : ℕ → ℤ → ℤ
plus n (pos m) = pos (n + m)
plus n (negsuc m) = if ltb m n then pos (n - suc m) else negsuc (m - n)

abbrev pub pos_part : ℤ → ℕ
pos_part (pos n) = n
pos_part (negsuc n) = 0

abbrev pub neg_part : ℤ → ℕ
neg_part (pos n) = 0
neg_part (negsuc n) = suc n

pos_part-minus : (n : ℕ) → pos_part (minus n) ≡ 0
pos_part-minus zero = refl
pos_part-minus (suc n) = refl

neg_part-minus : (n : ℕ) → neg_part (minus n) ≡ n
neg_part-minus zero = refl
neg_part-minus (suc n) = refl

-- The two parts of a product with `k` differ as those of `a` do, `k` times.
pub times-parts :
    (a : ℤ) (k : ℕ) → pos_part (times a k) + neg_part a * k ≡ neg_part (times a k) + pos_part a * k
times-parts (pos n) k = omega arith
times-parts (negsuc n) k = rw (pos_part-minus (suc n * k), neg_part-minus (suc n * k)) (omega arith)

pub plus-parts :
    (n : ℕ) (a : ℤ) → pos_part (plus n a) + neg_part a ≡ neg_part (plus n a) + (n + pos_part a)
plus-parts n (pos m) = omega arith
plus-parts n (negsuc m) = ground arith

pub times-minus : (n k : ℕ) → times (minus n) k ≡ minus (n * k)
times-minus zero k = let e : 0 * k ≡ 0 = omega arith in ap pos e ∙ ap minus (sym e)
times-minus (suc n) k = refl
