-- ===== src/Popup/Html/Marks.antt =====
-- wallet-extension/src/popup: escaped text has no character of the markup.
use soulon_wallet.Prelude.{
  ℕ, ◌==◌, Bool, false, ◌||◌, any, keep, Text, codes, List, [], ◌∷◌, ◌++◌, Option, none, some, ◌≡◌,
  refl, sym, ap, ◌∙◌, arith, Bool-cases, inl, inr,
}
use soulon_wallet.Popup.Html.{replace_all, escape_html, Piece, markup, shown, html}

abbrev pub is_mark : ℕ → Bool
is_mark c = c == b'<' || c == b'>' || c == b'"' || c == b'\''

-- The characters that begin and end tags and attributes, in their order.
unfoldable pub marks : Text → Text
marks text = keep is_mark text

abbrev Lacks : ℕ → Text → Type 0
Lacks c s = any (λ d. d == c) s ≡ false

Lacks-append : (c : ℕ) (s t : Text) → Lacks c s → Lacks c t → Lacks c (s ++ t)
Lacks-append c [] t h k = k
Lacks-append c (d ∷ s) t h k =
    let here : (d == c) ≡ false = ground arith in
    let more : Lacks c s = ground arith in rw (here) (Lacks-append c s t more k)

-- The replaced character is gone unless its replacement has it, and no other one comes in.
replace_all-Lacks : (c : ℕ) (by s : Text) → Lacks c by → Lacks c (replace_all c by s)
unfolding replace_all
replace_all-Lacks c by [] h = refl
replace_all-Lacks c by (d ∷ s) h = elim (Bool-cases (d == c)) [
  | inl hit ↦
      rw (replace_all, hit) (Lacks-append c by (replace_all c by s) h (replace_all-Lacks c by s h))
  | inr miss ↦ rw (replace_all, miss, miss) (replace_all-Lacks c by s h)
]

replace_all-keeps : (c e : ℕ) (by s : Text) → Lacks e by → Lacks e s → Lacks e (replace_all c by s)
unfolding replace_all
replace_all-keeps c e by [] h k = refl
replace_all-keeps c e by (d ∷ s) h k =
    let other : (d == e) ≡ false = ground arith in
    let more : Lacks e s = ground arith in
    let rest = replace_all-keeps c e by s h more in
    elim (Bool-cases (d == c)) [
      | inl hit ↦ rw (replace_all, hit) (Lacks-append e by (replace_all c by s) h rest)
      | inr miss ↦ rw (replace_all, miss, other) rest
    ]

marks-nil : (s : Text) → Lacks b'<' s → Lacks b'>' s → Lacks b'"' s → Lacks b'\'' s → marks s ≡ []
unfolding marks
marks-nil [] h i j k = refl
marks-nil (c ∷ s) h i j k =
    let none_here : is_mark c ≡ false = ground arith in
    rw (marks, keep, none_here)
      (marks-nil s (ground arith) (ground arith) (ground arith) (ground arith))

-- Escaped text has none of the characters of the markup.
pub marks-escape_html : (text : Text) → marks (escape_html text) ≡ []
unfolding escape_html codes
marks-escape_html text =
    let amp = codes "&amp;" in
    let lt = codes "&lt;" in
    let gt = codes "&gt;" in
    let quot = codes "&quot;" in
    let apos = codes "&#039;" in
    let t1 = replace_all b'&' amp text in
    let t2 = replace_all b'<' lt t1 in
    let t3 = replace_all b'>' gt t2 in
    let t4 = replace_all b'"' quot t3 in
    marks-nil (replace_all b'\'' apos t4)
      (replace_all-keeps b'\'' b'<' apos t4 refl (
        replace_all-keeps b'"' b'<' quot t3 refl
          (replace_all-keeps b'>' b'<' gt t2 refl (replace_all-Lacks b'<' lt t1 refl))))
      (replace_all-keeps b'\'' b'>' apos t4 refl
        (replace_all-keeps b'"' b'>' quot t3 refl (replace_all-Lacks b'>' gt t2 refl)))
      (replace_all-keeps b'\'' b'"' apos t4 refl (replace_all-Lacks b'"' quot t3 refl))
      (replace_all-Lacks b'\'' apos t4 refl)

-- The templates of some HTML, with a gap for each escaped value.
unfoldable pub skeleton : List Piece → List (Option Text)
skeleton [] = []
skeleton (markup text ∷ pieces) = some text ∷ skeleton pieces
skeleton (shown text ∷ pieces) = none ∷ skeleton pieces

keep-append : (s t : Text) → keep is_mark (s ++ t) ≡ keep is_mark s ++ keep is_mark t
keep-append [] t = refl
keep-append (c ∷ s) t = elim (Bool-cases (is_mark c)) [
  | inl mark ↦ rw (keep, mark) (ap (λ l. c ∷ l) (keep-append s t))
  | inr other ↦ rw (keep, other) (keep-append s t)
]

marks_of : List (Option Text) → Text
marks_of [] = []
marks_of (none ∷ gaps) = marks_of gaps
marks_of (some text ∷ gaps) = marks text ++ marks_of gaps

marks-html : (pieces : List Piece) → marks (html pieces) ≡ marks_of (skeleton pieces)
unfolding marks html skeleton marks_of
marks-html [] = refl
marks-html (markup text ∷ pieces) =
    keep-append text (html pieces) ∙ ap (λ l. marks text ++ l) (marks-html pieces)
marks-html (shown text ∷ pieces) =
    keep-append (escape_html text) (html pieces) ∙ rw (marks-escape_html text) (marks-html pieces)

-- HTML with the same templates has the same markup characters, whatever values it shows.
pub marks-skeleton :
    (pieces others : List Piece)
    → skeleton pieces ≡ skeleton others
    → marks (html pieces) ≡ marks (html others)
marks-skeleton pieces others same = marks-html pieces ∙ ap marks_of same ∙ sym (marks-html others)

pub skeleton-append : (ps qs : List Piece) → skeleton (ps ++ qs) ≡ skeleton ps ++ skeleton qs
unfolding skeleton
skeleton-append [] qs = refl
skeleton-append (markup text ∷ ps) qs = ap (λ l. some text ∷ l) (skeleton-append ps qs)
skeleton-append (shown text ∷ ps) qs = ap (λ l. none ∷ l) (skeleton-append ps qs)
