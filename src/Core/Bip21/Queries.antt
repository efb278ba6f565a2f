-- ===== src/Core/Bip21/Queries.antt =====
-- soulon-wallet/src/core/bip21.ts: the query of a payment URI, and what its library call is
-- documented to do.
use soulon_wallet.Prelude.{
  ℕ, ltb, leb, Bool, true, false, not, ◌&&◌, ◌||◌, if◌then◌else◌, any, all, All, is_empty, is_digit,
  is_space, eq_text, trim, split_at_first, Text, codes, List, [], ◌∷◌, ◌++◌, Option, none, some,
  ◌≡◌, refl, ap, ◌∙◌, arith, Option-cases, inl, inr,
}
use soulon_wallet.Prelude.Results.{ok}
use soulon_wallet.Prelude.Splits.{split_at_first-some}
use soulon_wallet.Core.Bip21.{
  is_whole_part, is_fraction, is_decimal_amount, SearchParams, get, validate_given, param,
}
use soulon_wallet.Core.Bip21.Payments.{is_amount, validate_amount-ok, validate_amount_idem}

abbrev is_high : ℕ → Bool
is_high c = leb 0xd800 c && leb c 0xdbff

abbrev is_low : ℕ → Bool
is_low c = leb 0xdc00 c && leb c 0xdfff

-- UTF-16 without a lone surrogate.
unfoldable pub is_well_formed : Text → Bool
is_well_formed [] = true
is_well_formed (c ∷ []) = not (is_high c || is_low c)
is_well_formed (c ∷ d ∷ s) =
    let pair = is_low d && is_well_formed s in
    let single = not (is_low c) && is_well_formed (d ∷ s) in if is_high c then pair else single

abbrev pub IsClean : Text × Text → Type 0
IsClean p = (is_well_formed p.0 ≡ true) × (is_well_formed p.1 ≡ true)

-- What the documentation of `URLSearchParams` says: the serialisation is read back as the pairs,
-- it is empty only without pairs, and it has no white space.
pub record IsSearchParams (params : SearchParams) : Type 0 where
  pub inverse :
      (pairs : List (Text × Text))
      → All IsClean pairs
      → params.from_string (params.to_string pairs) ≡ pairs
  pub empty : params.to_string [] ≡ []
  pub nonempty :
      (p : Text × Text) (pairs : List (Text × Text))
      → is_empty (params.to_string (p ∷ pairs)) ≡ false
  pub no_spaces : (pairs : List (Text × Text)) → any is_space (params.to_string pairs) ≡ false

-- Small code units are no surrogates.
is_well_formed_of_small : (s : Text) → all (λ c. ltb c 0xd800) s ≡ true → is_well_formed s ≡ true
unfolding is_well_formed
is_well_formed_of_small [] h = refl
is_well_formed_of_small (c ∷ []) h = ground arith
is_well_formed_of_small (c ∷ d ∷ s) h =
    ground (arith, is_well_formed_of_small (d ∷ s) (ground arith))

-- An amount or its absence.
abbrev pub IsAmountGiven : Option Text → Type 0
IsAmountGiven none = Unit
IsAmountGiven (some a) = is_amount (trim a) ≡ true

abbrev pub trimmed : Option Text → Option Text
trimmed none = none
trimmed (some a) = some (trim a)

pub validate_given-trimmed : (a : Option Text) → IsAmountGiven a → validate_given a ≡ ok (trimmed a)
unfolding validate_given
validate_given-trimmed none h = refl
validate_given-trimmed (some a) h = rw (validate_given, validate_amount-ok a h)

pub validate_given_idem :
    (a : Option Text) → IsAmountGiven a → validate_given (trimmed a) ≡ ok (trimmed a)
unfolding validate_given
validate_given_idem none h = refl
validate_given_idem (some a) h = rw (validate_given, validate_amount_idem a h)

abbrev pub query_pairs : Option Text → Option Text → List (Text × Text)
query_pairs amount memo = param "amount" amount ++ param "memo" memo

pub get-amount : (a m : Option Text) → get (codes "amount") (query_pairs a m) ≡ a
unfolding get eq_text codes
get-amount none none = refl
get-amount none (some m) = refl
get-amount (some a) none = refl
get-amount (some a) (some m) = refl

pub get-memo : (a m : Option Text) → get (codes "memo") (query_pairs a m) ≡ m
unfolding get eq_text codes
get-memo none none = refl
get-memo none (some m) = refl
get-memo (some a) none = refl
get-memo (some a) (some m) = refl

pub get-message : (a m : Option Text) → get (codes "message") (query_pairs a m) ≡ none
unfolding get eq_text codes
get-message none none = refl
get-message none (some m) = refl
get-message (some a) none = refl
get-message (some a) (some m) = refl

all_of_all :
    (p q : ℕ → Bool) (s : Text)
    → ((c : ℕ) → p c ≡ true → q c ≡ true)
    → all p s ≡ true
    → all q s ≡ true
all_of_all p q [] h a = refl
all_of_all p q (c ∷ s) h a =
    let here = h c (ground arith) in let more = all_of_all p q s h (ground arith) in rw (here) more

all-append : (p : ℕ → Bool) (s t : Text) → all p s ≡ true → all p t ≡ true → all p (s ++ t) ≡ true
all-append p [] t h k = k
all-append p (c ∷ s) t h k =
    let here : p c ≡ true = ground arith in rw (here) (all-append p s t (ground arith) k)

abbrev is_small : ℕ → Bool
is_small c = ltb c 0xd800

digits-small : (s : Text) → all is_digit s ≡ true → all is_small s ≡ true
digits-small s h = all_of_all is_digit is_small s (λ c k. ground arith) h

is_whole_part-small : (s : Text) → is_whole_part s ≡ true → all is_small s ≡ true
unfolding is_whole_part
is_whole_part-small [] h = refl
is_whole_part-small (c ∷ []) h = ground arith
is_whole_part-small (c ∷ d ∷ s) h =
    let here : is_small c ≡ true = ground arith in rw (here) (digits-small (d ∷ s) (ground arith))

is_decimal_amount-small : (a : Text) → is_decimal_amount a ≡ true → all is_small a ≡ true
unfolding is_decimal_amount
is_decimal_amount-small a h = elim (Option-cases (split_at_first b'.' a)) [
  | inl e ↦ is_whole_part-small a (rw (is_decimal_amount, e) at h)
  | inr ((w, f), e) ↦
      let tests : (is_whole_part w && is_fraction f) ≡ true = rw (is_decimal_amount, e) at h in
      let whole = is_whole_part-small w (ground arith) in
      let fraction = digits-small f (ground arith) in
      ap (all is_small) (split_at_first-some b'.' a (w, f) e)
      ∙ all-append is_small w (b'.' ∷ f) whole fraction
]

amount-clean : (a : Text) → is_amount a ≡ true → is_well_formed a ≡ true
amount-clean a h = is_well_formed_of_small a (is_decimal_amount-small a (ground arith))

abbrev pub IsCleanMemo : Option Text → Type 0
IsCleanMemo none = Unit
IsCleanMemo (some m) = is_well_formed m ≡ true

pub query_pairs-IsClean :
    (a m : Option Text) → IsAmountGiven a → IsCleanMemo m → All IsClean (query_pairs (trimmed a) m)
unfolding is_well_formed codes
query_pairs-IsClean none none h k = tt
query_pairs-IsClean none (some m) h k = ((refl, k), tt)
query_pairs-IsClean (some a) none h k = ((refl, amount-clean (trim a) h), tt)
query_pairs-IsClean (some a) (some m) h k = ((refl, amount-clean (trim a) h), ((refl, k), tt))
