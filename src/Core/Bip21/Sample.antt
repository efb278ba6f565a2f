-- ===== src/Core/Bip21/Sample.antt =====
-- A simple `URLSearchParams` and `toLowerCase` with the behaviour that the theorems ask for.
use mathlib.Core.List.{append-nil}
use soulon_wallet.Prelude.{
  ℕ, ◌+◌, ◌-◌, ◌==◌, false, if◌then◌else◌, any, is_empty, is_space, map, ascii_lower, Text, List,
  [], ◌∷◌, ◌++◌, ◌≡◌, refl, ap, ◌∙◌, arith,
}
use soulon_wallet.Core.Bip21.{SearchParams}
use soulon_wallet.Core.Bip21.Payments.{KeepsSchemes}
use soulon_wallet.Core.Bip21.Queries.{IsSearchParams}

-- Code units out of the way of the separators.
abbrev shift : ℕ → ℕ
shift c = c + 0x20000

unfoldable pub encode : List (Text × Text) → Text
encode [] = []
encode ((key, v) ∷ pairs) = map shift key ++ b'=' ∷ (map shift v ++ b'&' ∷ encode pairs)

-- The name being read, its value, and the pairs behind it.
abbrev Reading : Type 0
Reading = Text × Text × List (Text × Text)

abbrev closed : Text → Reading → List (Text × Text)
closed [] (key, v, pairs) = []
closed (c ∷ s) (key, v, pairs) = (key, v) ∷ pairs

abbrev read_char : ℕ → Text → Reading → Reading
read_char c s r =
    if c == b'='
    then ([], r.0, r.2)
    else if c == b'&'
    then ([], [], closed s r)
    else ((c - 0x20000) ∷ r.0, r.1, r.2)

unfoldable pub read : Text → Reading
read [] = ([], [], [])
read (c ∷ s) = read_char c s (read s)

abbrev pub simple : SearchParams
simple = record { to_string = encode; from_string = λ s. closed s (read s) }

read-shift : (t s : Text) → read (map shift t ++ s) ≡ (t ++ (read s).0, (read s).1, (read s).2)
unfolding read
read-shift [] s = refl
read-shift (c ∷ t) s =
    let not_equals : (shift c == b'=') ≡ false = ground arith in
    let not_and : (shift c == b'&') ≡ false = ground arith in
    let back : shift c - 0x20000 ≡ c = omega arith in
    rw (read, not_equals, not_and, back, read-shift t s)

read-pair :
    (key v : Text) (pairs : List (Text × Text))
    → closed (encode pairs) (read (encode pairs)) ≡ pairs
    → read (encode ((key, v) ∷ pairs)) ≡ (key, v, pairs)
unfolding encode read
read-pair key v pairs h =
    read-shift key (b'=' ∷ (map shift v ++ b'&' ∷ encode pairs))
    ∙ rw (read-shift v (b'&' ∷ encode pairs), h, append-nil key, append-nil v)

closed-pair : (key s : Text) (r : Reading) → closed (map shift key ++ b'=' ∷ s) r ≡ (r.0, r.1) ∷ r.2
closed-pair [] s r = refl
closed-pair (c ∷ key) s r = refl

closed-encode : (pairs : List (Text × Text)) → closed (encode pairs) (read (encode pairs)) ≡ pairs
unfolding encode
closed-encode [] = refl
closed-encode ((key, v) ∷ pairs) =
    closed-pair key (map shift v ++ b'&' ∷ encode pairs) (read (encode ((key, v) ∷ pairs)))
    ∙ ap (λ r. (r.0, r.1) ∷ r.2) (read-pair key v pairs (closed-encode pairs))

no_spaces-shift : (t s : Text) → any is_space s ≡ false → any is_space (map shift t ++ s) ≡ false
unfolding is_space
no_spaces-shift [] s h = h
no_spaces-shift (c ∷ t) s h =
    let here : is_space (shift c) ≡ false = ground arith in rw (here) (no_spaces-shift t s h)

no_spaces-encode : (pairs : List (Text × Text)) → any is_space (encode pairs) ≡ false
unfolding encode is_space
no_spaces-encode [] = refl
no_spaces-encode ((key, v) ∷ pairs) =
    no_spaces-shift key _ (no_spaces-shift v _ (no_spaces-encode pairs))

nonempty-encode :
    (p : Text × Text) (pairs : List (Text × Text)) → is_empty (encode (p ∷ pairs)) ≡ false
unfolding encode
nonempty-encode ([], v) pairs = refl
nonempty-encode (c ∷ key, v) pairs = refl

pub simple-IsSearchParams : IsSearchParams simple
unfolding encode
simple-IsSearchParams = record {
  inverse = λ pairs h. closed-encode pairs;
  empty = refl;
  nonempty = nonempty-encode;
  no_spaces = no_spaces-encode;
}

unfoldable pub low : Text → Text
low = map ascii_lower

pub low-keeps : KeepsSchemes low
unfolding low
low-keeps [] h = refl
low-keeps (c ∷ s) h =
    let here : ascii_lower c ≡ c = ground arith in
    rw (here) (ap (λ t. c ∷ t) (low-keeps s (ground arith)))
