-- ===== src/Prelude/Splits.antt =====
-- Texts taken apart at the first occurrence of a code unit.
use mathlib.Core.Bool.{Bool, true, false}
use mathlib.Core.List.{[], ◌∷◌, ◌++◌}
use mathlib.Core.Logic.{inl, inr}
use mathlib.Core.Option
use mathlib.Core.Option.{Option, none, some}
use mathlib.Core.Path.{◌≡◌, refl, sym, ap, ◌∙◌}
use Prim.Native.Nat.{ℕ}
use native.Mathlib.Omega.{arith}
use soulon_wallet.Prelude.Tests.{◌==◌, Bool-cases}
use soulon_wallet.Prelude.Lists.{any, all}
use soulon_wallet.Prelude.Strings.{Text, split_at_first}

map-cons_some :
    (d : ℕ) (found : Option (Text × Text)) (parts : Text × Text)
    → Option.map {B = Text × Text} (λ p. (d ∷ p.0, p.1)) found ≡ some parts
    → (behind : Text) × (found ≡ some (behind, parts.1)) × (parts.0 ≡ d ∷ behind)
map-cons_some d none parts h = absurd (cc h)
map-cons_some d (some (a', b')) parts h =
    let same : (d ∷ a', b') ≡ parts = cc h in
    (a', ap (λ p. some (a', p.1)) same, sym (ap (λ p. p.0) same))

pub split_at_first-some :
    (c : ℕ) (s : Text) (parts : Text × Text)
    → split_at_first c s ≡ some parts
    → s ≡ parts.0 ++ c ∷ parts.1
unfolding split_at_first
split_at_first-some c [] parts h = absurd (cc h)
split_at_first-some c (d ∷ s) parts h = elim (Bool-cases (c == d)) [
  | inl hit ↦
      let found = rw (split_at_first, hit) at h in
      let same : ([], s) ≡ parts = cc found in
      let equal : d ≡ c = ground arith in rw equal (ap (λ p. p.0 ++ c ∷ p.1) same)
  | inr miss ↦
      let found = rw (split_at_first, miss) at h in
      let (behind, e, shape) = map-cons_some d (split_at_first c s) parts found in
      ap (λ t. d ∷ t) (split_at_first-some c s (behind, parts.1) e)
      ∙ ap (λ t. t ++ c ∷ parts.1) (sym shape)
]

-- A text without the code unit is the part before it.
pub split_at_first-append :
    (c : ℕ) (s t : Text) → any (λ d. c == d) s ≡ false → split_at_first c (s ++ c ∷ t) ≡ some (s, t)
unfolding split_at_first
split_at_first-append c [] t h =
    let same : (c == c) ≡ true = ground arith in rw (split_at_first, same)
split_at_first-append c (d ∷ s) t h =
    let differs : (c == d) ≡ false = ground arith in
    let more : any (λ d. c == d) s ≡ false = ground arith in
    rw (split_at_first, differs, split_at_first-append c s t more)

pub split_at_first-absent :
    (c : ℕ) (s : Text) → any (λ d. c == d) s ≡ false → split_at_first c s ≡ none
unfolding split_at_first
split_at_first-absent c [] h = refl
split_at_first-absent c (d ∷ s) h =
    let differs : (c == d) ≡ false = ground arith in
    let more : any (λ d. c == d) s ≡ false = ground arith in
    rw (split_at_first, differs, split_at_first-absent c s more)

-- What every member satisfies keeps out what does not satisfy it.
pub any_of_all :
    (p q : ℕ → Bool) (s : Text)
    → ((c : ℕ) → p c ≡ true → q c ≡ false)
    → all p s ≡ true
    → any q s ≡ false
any_of_all p q [] h a = refl
any_of_all p q (c ∷ s) h a =
    let here = h c (ground arith) in let more = any_of_all p q s h (ground arith) in rw (here) more
