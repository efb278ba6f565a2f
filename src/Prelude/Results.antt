-- ===== src/Prelude/Results.antt =====
-- Code that may throw: a result with the thrown value, its sequencing and its inversion.
use mathlib.Core.Path.{◌≡◌, refl}
use mathlib.Core.Bool.{Bool, true, false}
use mathlib.Core.Logic.{◌⊎◌, inl, inr}

pub data Result {ℓ κ} (E : Type ℓ) (A : Type κ) : Type (ℓ ⊔ κ) where
  ok : A → Result E A
  err : E → Result E A

-- `if (test) throw e`.
abbrev pub throw_if {ℓ} : {E : Type ℓ} → Bool → E → Result E (Unit {0})
throw_if true thrown = err thrown
throw_if false thrown = ok tt

pub Result-cases {ℓ κ} :
    {E : Type ℓ} {A : Type κ} (r : Result E A) → ((a : A) × (r ≡ ok a)) ⊎ ((e : E) × (r ≡ err e))
Result-cases (ok a) = inl (a, refl)
Result-cases (err e) = inr (e, refl)

module _ {ℓ κ ι} {E : Type ℓ} {A : Type κ} {B : Type ι} where
  infixl 5 ◌>>=◌
  abbrev pub ◌>>=◌ : Result E A → (A → Result E B) → Result E B
  err thrown >>= k = err thrown
  ok value >>= k = k value

  pub >>=-eq-ok :
      (first : Result E A) (k : A → Result E B) {b : B}
      → (first >>= k) ≡ ok b
      → (value : A) × (first ≡ ok value) × (k value ≡ ok b)
  >>=-eq-ok (err thrown) k h = cc
  >>=-eq-ok (ok value) k h = (value, refl, h)

infixl 5 ◌>>◌
abbrev pub ◌>>◌ {ℓ ι} : {E : Type ℓ} {B : Type ι} → Result E (Unit {0}) → Result E B → Result E B
err thrown >> next = err thrown
ok done >> next = next

-- A check in front of a result.
pub throw_if-ok {ℓ ι} :
    {E : Type ℓ} {B : Type ι} (flag : Bool) (thrown : E) (next : Result E B) {b : B}
    → (throw_if flag thrown >> next) ≡ ok b
    → (flag ≡ false) × (next ≡ ok b)
throw_if-ok true thrown next h = cc
throw_if-ok false thrown next h = (refl, h)
