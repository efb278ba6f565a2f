-- ===== src/Popup/Html.antt =====
-- wallet-extension/src/popup/popup_screens.ts: text in HTML. The functions that render return their
-- HTML in pieces: markup as it stands in the templates, and values that go through `escapeHtml`.
pub mod Marks
use soulon_wallet.Prelude.{ℕ, ◌==◌, if◌then◌else◌, String, Text, codes, List, [], ◌∷◌, ◌++◌}

-- `replaceAll` of one code unit.
unfoldable pub replace_all : ℕ → Text → Text → Text
replace_all c by [] = []
replace_all c by (d ∷ s) = let rest = replace_all c by s in if d == c then by ++ rest else d ∷ rest

unfoldable pub escape_html : Text → Text
unfolding replace_all
escape_html text = replace_all b'\'' (codes "&#039;") (
    replace_all b'"' (codes "&quot;") (
      replace_all b'>' (codes "&gt;")
        (replace_all b'<' (codes "&lt;") (replace_all b'&' (codes "&amp;") text))))

pub data Piece : Type 0 where
  markup : Text → Piece
  shown : Text → Piece

unfoldable pub html : List Piece → Text
unfolding escape_html
html [] = []
html (markup text ∷ pieces) = text ++ html pieces
html (shown text ∷ pieces) = escape_html text ++ html pieces

abbrev pub raw : String → List Piece
raw text = markup (codes text) ∷ []

abbrev pub raw_text : Text → List Piece
raw_text text = markup text ∷ []

-- `${escapeHtml(text)}`.
abbrev pub esc : Text → List Piece
esc text = shown text ∷ []

abbrev pub concat : List (List Piece) → List Piece
concat [] = []
concat (p ∷ ps) = p ++ concat ps
