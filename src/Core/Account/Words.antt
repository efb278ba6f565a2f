-- ===== src/Core/Account/Words.antt =====
-- soulon-wallet/src/core/wallet.ts: the normal form of a mnemonic.
use soulon_wallet.Prelude.{
  ℕ, ◌==◌, Bool, true, false, ◌||◌, if◌then◌else◌, any, All, length, is_empty, is_space, trim, Text,
  List, [], ◌∷◌, ◌++◌, ◌≡◌, ◌⊎◌, inl, inr, refl, ap, ◌∙◌, arith, Bool-cases,
}
use mathlib.Core.Path.{subst}
use soulon_wallet.Prelude.Trim.{
  starts_blank, ends_blank, starts_blank-trim, ends_blank-trim, trim_of_plain,
  ends_blank_of_NoSpaces, starts_blank_of_NoSpaces, starts_blank-append, ends_blank-append,
}
use soulon_wallet.Prelude.Results.{ok}
use soulon_wallet.Core.Account.{split_words, cons_word, join_words, validate_mnemonic}

abbrev pub IsWord : Text → Type 0
IsWord w = (is_empty w ≡ false) × (any is_space w ≡ false)

-- The first word is empty exactly if the text starts with a space; the others are words.
abbrev Shape : Bool → List Text → Type 0
Shape blank [] = ⊥
Shape blank (w ∷ ws) = (any is_space w ≡ false) × (is_empty w ≡ blank) × All IsWord ws

Shape-cons_word :
    (c : ℕ) (b : Bool) (words : List Text)
    → is_space c ≡ false
    → Shape b words
    → Shape false (cons_word c words)
unfolding cons_word
Shape-cons_word c b [] h s = absurd s
Shape-cons_word c b (w ∷ ws) h (p, q, r) = (ground arith, refl, r)

Shape-blank :
    (b : Bool) (words : List Text) → Shape b words → Shape true (if b then words else [] ∷ words)
Shape-blank b [] s = absurd s
Shape-blank true (w ∷ ws) s = s
Shape-blank false (w ∷ ws) (p, q, r) = (refl, refl, ((q, p), r))

split_words-Shape :
    (s : Text) → is_empty s ≡ false → ends_blank s ≡ false → Shape (starts_blank s) (split_words s)
unfolding split_words starts_blank ends_blank
split_words-Shape [] n h = cc
split_words-Shape (c ∷ []) n h = rw h (Shape-cons_word c true ([] ∷ []) h (refl, refl, tt))
split_words-Shape (c ∷ d ∷ s) n h = elim (Bool-cases (is_space c)) [
  | inl blank ↦
      rw blank (Shape-blank (is_space d) (split_words (d ∷ s)) (split_words-Shape (d ∷ s) refl h))
  | inr plain ↦ rw plain (
      Shape-cons_word c (is_space d) (split_words (d ∷ s)) plain (split_words-Shape (d ∷ s) refl h))
]

split_words_of_NoSpaces : (w : Text) → any is_space w ≡ false → split_words w ≡ w ∷ []
unfolding split_words cons_word
split_words_of_NoSpaces [] h = refl
split_words_of_NoSpaces (c ∷ w) h =
    let plain : is_space c ≡ false = ground arith in
    let rest : any is_space w ≡ false = ground arith in rw (plain, split_words_of_NoSpaces w rest)

is_space-space : is_space 32 ≡ true
unfolding is_space
is_space-space = refl

split_words-append :
    (w t : Text)
    → any is_space w ≡ false
    → starts_blank t ≡ false
    → split_words (w ++ 32 ∷ t) ≡ w ∷ split_words t
unfolding split_words cons_word
split_words-append [] t h k = rw (is_space-space, k)
split_words-append (c ∷ w) t h k =
    let plain : is_space c ≡ false = ground arith in
    let rest : any is_space w ≡ false = ground arith in rw (plain, split_words-append w t rest k)

is_empty-join_words :
    (w : Text) (ws : List Text) → IsWord w → is_empty (join_words (w ∷ ws)) ≡ false
unfolding join_words
is_empty-join_words [] ws h = absurd (ground arith)
is_empty-join_words (c ∷ w) [] h = refl
is_empty-join_words (c ∷ w) (v ∷ ws) h = refl

starts_blank-join_words :
    (w : Text) (ws : List Text) → IsWord w → starts_blank (join_words (w ∷ ws)) ≡ false
unfolding join_words
starts_blank-join_words w [] h = starts_blank_of_NoSpaces w h.1
starts_blank-join_words w (v ∷ ws) h = starts_blank-append w _ h.0 (starts_blank_of_NoSpaces w h.1)

ends_blank-join_words :
    (w : Text) (ws : List Text) → All IsWord (w ∷ ws) → ends_blank (join_words (w ∷ ws)) ≡ false
unfolding join_words
ends_blank-join_words w [] h = ends_blank_of_NoSpaces w h.0.1
ends_blank-join_words w (v ∷ ws) h =
    let last = ends_blank-join_words v ws h.1 in
    ends_blank-append w (32 ∷ join_words (v ∷ ws)) refl
      (ends_blank-append (32 ∷ []) (join_words (v ∷ ws)) (is_empty-join_words v ws h.1.0) last)

-- Words joined by single spaces are split into the same words.
pub split_words-join_words :
    (w : Text) (ws : List Text) → All IsWord (w ∷ ws) → split_words (join_words (w ∷ ws)) ≡ w ∷ ws
unfolding join_words
split_words-join_words w [] h = split_words_of_NoSpaces w h.0.1
split_words-join_words w (v ∷ ws) h =
    split_words-append w (join_words (v ∷ ws)) h.0.1 (starts_blank-join_words v ws h.1.0)
    ∙ ap (λ l. w ∷ l) (split_words-join_words v ws h.1)

-- A list of words: what splitting a trimmed text that is not empty gives.
AreWords : List Text → Type 0
AreWords [] = ⊥
AreWords (w ∷ ws) = All IsWord (w ∷ ws)

AreWords-of_Shape : (words : List Text) → Shape false words → AreWords words
unfolding AreWords
AreWords-of_Shape [] s = s
AreWords-of_Shape (w ∷ ws) (p, q, r) = ((q, p), r)

-- A mnemonic in normal form: 12 or 24 words, joined by single spaces.
pub record IsMnemonic (m : Text) : Type 0 where
  pub words : All IsWord (split_words m)
  pub counted : (length (split_words m) ≡ 12) ⊎ (length (split_words m) ≡ 24)
  pub joined : join_words (split_words m) ≡ m
  pub accepted : validate_mnemonic m ≡ ok m

abbrev is_word_count : List Text → Bool
is_word_count ws = length ws == 12 || length ws == 24

-- Words of the right number, joined, are accepted as they are.
validate_mnemonic-join_words :
    (w : Text) (ws : List Text)
    → All IsWord (w ∷ ws)
    → is_word_count (w ∷ ws) ≡ true
    → validate_mnemonic (join_words (w ∷ ws)) ≡ ok (join_words (w ∷ ws))
unfolding validate_mnemonic
validate_mnemonic-join_words w ws h n =
    let same =
      trim_of_plain (join_words (w ∷ ws)) (starts_blank-join_words w ws h.0)
        (ends_blank-join_words w ws h) in
    rw (same, is_empty-join_words w ws h.0, split_words-join_words w ws h, n)

IsMnemonic-join_words :
    (w : Text) (ws : List Text)
    → All IsWord (w ∷ ws)
    → is_word_count (w ∷ ws) ≡ true
    → IsMnemonic (join_words (w ∷ ws))
IsMnemonic-join_words w ws h n =
    let split = split_words-join_words w ws h in
    record {
      words = rw split h;
      counted = rw split (ground arith);
      joined = rw split;
      accepted = validate_mnemonic-join_words w ws h n;
    }

AreWords-IsMnemonic :
    (words : List Text)
    → AreWords words
    → is_word_count words ≡ true
    → IsMnemonic (join_words words) × (split_words (join_words words) ≡ words)
unfolding AreWords
AreWords-IsMnemonic [] a n = absurd a
AreWords-IsMnemonic (w ∷ ws) a n = (IsMnemonic-join_words w ws a n, split_words-join_words w ws a)

split_words-trim-AreWords : (m : Text) → is_empty (trim m) ≡ false → AreWords (split_words (trim m))
split_words-trim-AreWords m left = AreWords-of_Shape _ (
    subst (λ b. Shape b (split_words (trim m))) (starts_blank-trim m)
      (split_words-Shape (trim m) left (ends_blank-trim m)))

-- What `validateMnemonic` returns is in normal form, so that it returns it unchanged when it is
-- validated again, and its words are the words of the trimmed input.
pub validate_mnemonic-IsMnemonic :
    (m r : Text)
    → validate_mnemonic m ≡ ok r
    → IsMnemonic r × (split_words r ≡ split_words (trim m))
unfolding validate_mnemonic
validate_mnemonic-IsMnemonic m r h = elim (Bool-cases (is_empty (trim m))) [
  | inl none_left ↦ cc (rw none_left at h)
  | inr left ↦ elim (Bool-cases (is_word_count (split_words (trim m)))) [
    | inl good ↦
        let joined : join_words (split_words (trim m)) ≡ r = cc (rw (left, good) at h) in
        rw (← joined)
          (AreWords-IsMnemonic (split_words (trim m)) (split_words-trim-AreWords m left) good)
    | inr bad ↦ cc (rw (left, bad) at h)
  ]
]
