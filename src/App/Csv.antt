-- ===== src/App/Csv.antt =====
-- wallet-app/src/lib/eventExport.ts: the CSV text of events, and the name of the file. The parts of
-- the local date are parameters.
pub mod ReadBack
use soulon_wallet.Prelude.{
  ℕ, suc, ◌==◌, if◌then◌else◌, length, map, or_default, Text, codes, List, [], ◌∷◌, ◌++◌, Option,
  none, some,
}
use soulon_wallet.Prelude.Decimal.{decimal}

-- The fields of an event that the CSV has; no field of the others is read.
pub record IndexerEvent : Type 0 where
  pub id : Text
  pub type : Text
  pub height : ℕ
  pub block_hash : Option Text
  pub produced_at : Text
  pub payload : Text

abbrev pub csv_header : List Text
csv_header =
    codes "id"
    ∷ codes "type"
    ∷ codes "height"
    ∷ codes "block_hash"
    ∷ codes "produced_at"
    ∷ codes "payload"
    ∷ []

-- `value.replace(/"/g, '""')`.
unfoldable pub double_quotes : Text → Text
double_quotes [] = []
double_quotes (c ∷ s) =
    let rest = double_quotes s in if c == b'"' then b'"' ∷ b'"' ∷ rest else c ∷ rest

unfoldable pub escape_csv : Text → Text
unfolding double_quotes
escape_csv value = b'"' ∷ (double_quotes value ++ b'"' ∷ [])

unfoldable pub join : ℕ → List Text → Text
join separator [] = []
join separator (text ∷ []) = text
join separator (text ∷ next ∷ texts) = text ++ separator ∷ join separator (next ∷ texts)

abbrev pub fields_of : IndexerEvent → List Text
fields_of event =
    event.id
    ∷ event.type
    ∷ decimal event.height
    ∷ or_default event.block_hash []
    ∷ event.produced_at
    ∷ event.payload
    ∷ []

unfoldable pub serialize_events_to_csv : List IndexerEvent → Text
unfolding escape_csv join
serialize_events_to_csv events =
    let rows = map (λ event. join b',' (map escape_csv (fields_of event))) events in
    join b'\n' (join b',' csv_header ∷ rows)

pub data ExportFormat : Type 0 where
  json csv : ExportFormat

pub record LocalDate : Type 0 where
  pub year : ℕ
  pub month : ℕ
  pub day : ℕ
  pub hour : ℕ
  pub minute : ℕ
  pub second : ℕ

-- `padStart(2, '0')`.
unfoldable pub two_digits : ℕ → Text
two_digits n = let digits = decimal n in if length digits == 1 then b'0' ∷ digits else digits

-- The month of a `Date` counts from 0.
unfoldable pub build_events_export_file_name : ExportFormat → LocalDate → Text
unfolding two_digits
build_events_export_file_name format now =
    codes "events-"
    ++ decimal now.year
    ++ two_digits (suc now.month)
    ++ two_digits now.day
    ++ codes "-"
    ++ two_digits now.hour
    ++ two_digits now.minute
    ++ two_digits now.second
    ++ (elim format [ json ↦ codes ".json" | csv ↦ codes ".csv" ])
