-- ===== src/App/Csv/ReadBack.antt =====
-- wallet-app/src/lib/eventExport.ts: the CSV text is read back to the fields of the events.
use mathlib.Core.List.{append_assoc, append-nil}
use soulon_wallet.Prelude.{
  ℕ, ◌==◌, if◌then◌else◌, drop, map, Text, codes, List, [], ◌∷◌, ◌++◌, ◌≡◌, refl, ap, sym, ◌∙◌, inl,
  inr, Bool-cases, ==_iff, ==_iff,
}
use soulon_wallet.App.Csv.{
  IndexerEvent, csv_header, double_quotes, escape_csv, join, fields_of, serialize_events_to_csv,
}

-- What is read from some place on: the rest of the field there, the other fields of its row, and
-- the rows behind it.
pub record Table : Type 0 where
  pub field : Text
  pub row : List Text
  pub rows : List (List Text)

abbrev empty : Table
empty = record { field = []; row = []; rows = [] }

abbrev pub put : ℕ → Table → Table
put c t = record t { field = c ∷ t.field }

-- What a character outside of quotes makes of the table behind it.
abbrev pub plain : ℕ → Table → Table
plain c t =
    if c == b','
    then record { field = []; row = t.field ∷ t.row; rows = t.rows }
    else if c == b'\n'
    then record { field = []; row = []; rows = (t.field ∷ t.row) ∷ t.rows }
    else put c t

-- Outside of quotes, inside of them, and behind a quote inside of them.
pub data Place : Type 0 where
  outside quoted behind_quote : Place

-- A reader of CSV as RFC 4180 has it, with LF as the line break.
unfoldable pub read : Place → Text → Table
read place [] = empty
read outside (c ∷ s) =
    let inner = read quoted s in
    let rest = plain c (read outside s) in if c == b'"' then inner else rest
read quoted (c ∷ s) =
    let after = read behind_quote s in
    let rest = put c (read quoted s) in if c == b'"' then after else rest
read behind_quote (c ∷ s) =
    let inner = put c (read quoted s) in
    let rest = plain c (read outside s) in if c == b'"' then inner else rest

unfoldable pub read_csv : Text → List (List Text)
unfolding read
read_csv text = let t = read outside text in (t.field ∷ t.row) ∷ t.rows

abbrev prepend : Text → Table → Table
prepend s t = record t { field = s ++ t.field }

read-double_quotes :
    (s rest : Text)
    → read quoted (double_quotes s ++ b'"' ∷ rest) ≡ prepend s (read behind_quote rest)
unfolding read double_quotes
read-double_quotes [] rest = refl
read-double_quotes (c ∷ s) rest = elim (Bool-cases (c == b'"')) [
  | inl quote ↦ rw (quote) (
      ap (put b'"') (read-double_quotes s rest)
      ∙ ap (λ d. put d (prepend s (read behind_quote rest))) (sym ((==_iff c b'"').0 quote)))
  | inr other ↦ rw (other, other) (ap (put c) (read-double_quotes s rest))
]

-- A field in quotes, with what stands behind it.
read-escape_csv :
    (s rest : Text) → read outside (escape_csv s ++ rest) ≡ prepend s (read behind_quote rest)
unfolding read escape_csv
read-escape_csv s rest =
    ap (read quoted) (append_assoc (double_quotes s) (b'"' ∷ []) rest) ∙ read-double_quotes s rest

-- What stands behind a field that ends a row.
abbrev ending : List (List Text) → Table
ending rows = record { field = []; row = []; rows = rows }

abbrev row_before : Text → List Text → List (List Text) → Table
row_before field [] rows = prepend field (ending rows)
row_before field (next ∷ fields) rows =
    let behind = row_before next fields rows in
    record { field = field ++ []; row = behind.field ∷ behind.row; rows = behind.rows }

abbrev all_rows : Table → List (List Text)
all_rows t = (t.field ∷ t.row) ∷ t.rows

read-row :
    (field : Text) (fields : List Text) (rest : Text) (rows : List (List Text))
    → read behind_quote rest ≡ ending rows
    → read outside (join b',' (map escape_csv (field ∷ fields)) ++ rest)
      ≡ row_before field fields rows
unfolding join read
read-row field [] rest rows h = read-escape_csv field rest ∙ ap (prepend field) h
read-row field (next ∷ fields) rest rows h =
    let more = join b',' (map escape_csv (next ∷ fields)) in
    ap (read outside) (append_assoc (escape_csv field) (b',' ∷ more) rest)
    ∙ read-escape_csv field (b',' ∷ (more ++ rest))
    ∙ ap (λ t. prepend field (plain b',' t)) (read-row next fields rest rows h)

-- The first row with one more field in front.
abbrev widened : Text → List (List Text) → List (List Text)
widened field [] = []
widened field (row ∷ rows) = (field ∷ row) ∷ rows

all_rows-row_before :
    (field : Text) (fields : List Text) (rows : List (List Text))
    → all_rows (row_before field fields rows) ≡ (field ∷ fields) ∷ rows
all_rows-row_before field [] rows = rw (append-nil field) refl
all_rows-row_before field (next ∷ fields) rows =
    rw (append-nil field) (ap (widened field) (all_rows-row_before next fields rows))

abbrev others_of : IndexerEvent → List Text
others_of event = drop 1 (fields_of event)

abbrev line_of : IndexerEvent → Text
line_of event = join b',' (map escape_csv (fields_of event))

read-lines :
    (event : IndexerEvent) (events : List IndexerEvent)
    → all_rows (read outside (join b'\n' (map line_of (event ∷ events))))
      ≡ map fields_of (event ∷ events)
unfolding join read
read-lines event [] =
    ap (λ text. all_rows (read outside text)) (sym (append-nil (line_of event)))
    ∙ ap all_rows (read-row event.id (others_of event) [] [] refl)
    ∙ all_rows-row_before event.id (others_of event) []
read-lines event (next ∷ events) =
    let behind = join b'\n' (map line_of (next ∷ events)) in
    let rows = all_rows (read outside behind) in
    ap all_rows (read-row event.id (others_of event) (b'\n' ∷ behind) rows refl)
    ∙ all_rows-row_before event.id (others_of event) rows
    ∙ ap (λ l. fields_of event ∷ l) (read-lines next events)

-- The CSV text of any events, read as CSV, is the header and a row for each event with its fields as
-- they are, whatever quotes, commas and line breaks are in them.
pub read_csv-serialize_events_to_csv :
    (events : List IndexerEvent)
    → read_csv (serialize_events_to_csv events) ≡ csv_header ∷ map fields_of events
unfolding read_csv serialize_events_to_csv join codes read
read_csv-serialize_events_to_csv [] = refl
read_csv-serialize_events_to_csv (event ∷ events) =
    ap (λ rows. csv_header ∷ rows) (read-lines event events)
