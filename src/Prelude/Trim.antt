-- ===== src/Prelude/Trim.antt =====
-- What trimming leaves: no space at either end, and a second trim changes nothing.
use mathlib.Core.Bool.{Bool, false}
use mathlib.Core.List.{[], ◌∷◌, ◌++◌}
use mathlib.Core.Path.{◌≡◌, refl, ap, ◌∙◌}
use Prim.Native.Nat.{ℕ}
use native.Mathlib.Omega.{arith}
use soulon_wallet.Prelude.Lists.{any, is_empty}
use soulon_wallet.Prelude.Strings.{Text, is_space, trim_start, cons_trimmed, trim_end, trim}

unfoldable pub starts_blank : Text → Bool
starts_blank [] = false
starts_blank (c ∷ s) = is_space c

unfoldable pub ends_blank : Text → Bool
ends_blank [] = false
ends_blank (c ∷ []) = is_space c
ends_blank (c ∷ d ∷ s) = ends_blank (d ∷ s)

starts_blank-trim_start : (s : Text) → starts_blank (trim_start s) ≡ false
unfolding starts_blank trim_start
starts_blank-trim_start [] = refl
starts_blank-trim_start (c ∷ s) = ground (arith, starts_blank-trim_start s)

trim_start_of_plain : (s : Text) → starts_blank s ≡ false → trim_start s ≡ s
unfolding starts_blank trim_start
trim_start_of_plain [] h = refl
trim_start_of_plain (c ∷ s) h = rw h

ends_blank-cons_trimmed :
    (c : ℕ) (s : Text) → ends_blank s ≡ false → ends_blank (cons_trimmed c s) ≡ false
unfolding ends_blank cons_trimmed
ends_blank-cons_trimmed c [] h = ground arith
ends_blank-cons_trimmed c (d ∷ s) h = h

ends_blank-trim_end : (s : Text) → ends_blank (trim_end s) ≡ false
unfolding trim_end ends_blank
ends_blank-trim_end [] = refl
ends_blank-trim_end (c ∷ s) = ends_blank-cons_trimmed c (trim_end s) (ends_blank-trim_end s)

trim_end_of_plain : (s : Text) → ends_blank s ≡ false → trim_end s ≡ s
unfolding trim_end ends_blank cons_trimmed
trim_end_of_plain [] h = refl
trim_end_of_plain (c ∷ []) h = rw h
trim_end_of_plain (c ∷ d ∷ s) h = ap (cons_trimmed c) (trim_end_of_plain (d ∷ s) h)

starts_blank-trim_end : (s : Text) → starts_blank s ≡ false → starts_blank (trim_end s) ≡ false
unfolding starts_blank trim_end cons_trimmed
starts_blank-trim_end [] h = refl
starts_blank-trim_end (c ∷ s) h = go (trim_end s)
  where
    go : (t : Text) → starts_blank (cons_trimmed c t) ≡ false
    go [] = rw h h
    go (d ∷ t) = h

pub starts_blank-trim : (s : Text) → starts_blank (trim s) ≡ false
unfolding trim
starts_blank-trim s = starts_blank-trim_end (trim_start s) (starts_blank-trim_start s)

pub ends_blank-trim : (s : Text) → ends_blank (trim s) ≡ false
unfolding trim
ends_blank-trim s = ends_blank-trim_end (trim_start s)

-- Text with no space at either end stays as it is.
pub trim_of_plain : (s : Text) → starts_blank s ≡ false → ends_blank s ≡ false → trim s ≡ s
unfolding trim
trim_of_plain s h k = ap trim_end (trim_start_of_plain s h) ∙ trim_end_of_plain s k

pub trim_idem : (s : Text) → trim (trim s) ≡ trim s
trim_idem s = trim_of_plain (trim s) (starts_blank-trim s) (ends_blank-trim s)

-- Text without any space stays as it is.
pub ends_blank_of_NoSpaces : (s : Text) → any is_space s ≡ false → ends_blank s ≡ false
unfolding ends_blank
ends_blank_of_NoSpaces [] h = refl
ends_blank_of_NoSpaces (c ∷ []) h = ground arith
ends_blank_of_NoSpaces (c ∷ d ∷ s) h = ends_blank_of_NoSpaces (d ∷ s) (ground arith)

pub starts_blank_of_NoSpaces : (s : Text) → any is_space s ≡ false → starts_blank s ≡ false
unfolding starts_blank
starts_blank_of_NoSpaces [] h = refl
starts_blank_of_NoSpaces (c ∷ s) h = ground arith

pub trim_of_NoSpaces : (s : Text) → any is_space s ≡ false → trim s ≡ s
trim_of_NoSpaces s h = trim_of_plain s (starts_blank_of_NoSpaces s h) (ends_blank_of_NoSpaces s h)

pub starts_blank-append :
    (s t : Text) → is_empty s ≡ false → starts_blank s ≡ false → starts_blank (s ++ t) ≡ false
unfolding starts_blank
starts_blank-append [] t n h = cc
starts_blank-append (c ∷ s) t n h = h

pub ends_blank-append :
    (s t : Text) → is_empty t ≡ false → ends_blank t ≡ false → ends_blank (s ++ t) ≡ false
unfolding ends_blank
ends_blank-append [] t n h = h
ends_blank-append (c ∷ []) [] n h = cc
ends_blank-append (c ∷ []) (d ∷ t) n h = h
ends_blank-append (c ∷ d ∷ s) t n h = ends_blank-append (d ∷ s) t n h
