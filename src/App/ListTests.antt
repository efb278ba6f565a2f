-- ===== src/App/ListTests.antt =====
-- Runs of the pages of events and of the CSV text, and their theorems at concrete inputs.
use soulon_wallet.Prelude.{
  true, false, map, trim, trim_start, trim_end, cons_trimmed, is_space, Text, codes, List, [], ◌∷◌,
  none, ◌≡◌, refl,
}
use soulon_wallet.Prelude.Decimal.{decimal, digits_value}
use soulon_wallet.Prelude.Results.{ok}
use soulon_wallet.Core.Types.{Number, whole}
use soulon_wallet.App.Csv.{
  IndexerEvent, csv, csv_header, fields_of, serialize_events_to_csv, escape_csv, double_quotes,
  join, build_events_export_file_name, two_digits,
}
use soulon_wallet.App.Csv.ReadBack.{read_csv, read_csv-serialize_events_to_csv}
use soulon_wallet.App.Session.{Auth}
use soulon_wallet.Prelude.{all, is_empty, eq_text, ◌||◌, some}
use soulon_wallet.App.EventDetailPage.{
  DetailEvent, open_detail, effective_event, run_effect, receive_detail,
}
use soulon_wallet.App.EventDetailPage
use soulon_wallet.App.Client.{Browser, replied}
use soulon_wallet.App.WalletApi.{get_indexer}
use soulon_wallet.App.WalletApi.Unauthorized.{IsSignedOut, receive_events-get_indexer}
use soulon_wallet.App.EventDetailPage.Target.{is_answer, fits, run-effective_event}
use soulon_wallet.App.EventsState.{
  first_page, set_offset, apply_filters, parse_height_filter, whole_height, receive_events,
}
use soulon_wallet.App.EventsPage.{
  PageEvent, handle, run, start_export, finish_export, export_failed,
}
use soulon_wallet.App.EventsPage
use soulon_wallet.App.EventsPage.Paged.{IsPaged, run-IsPaged}

abbrev signed_out_auth : Auth
signed_out_auth = record { storage = none; session = none; invalid_reason = [] }

abbrev number : Text → Number
number text = whole (digits_value 0 text)

abbrev noted : IndexerEvent
noted = record {
  id = codes "e,1";
  type = codes "say \"hi\"";
  height = 7;
  block_hash = none;
  produced_at = codes "now";
  payload = codes "a\nb";
}

csv_test :
    serialize_events_to_csv (noted ∷ [])
    ≡ codes
        "id,type,height,block_hash,produced_at,payload\n\"e,1\",\"say \"\"hi\"\"\",\"7\",\"\",\"now\",\"a\nb\""
unfolding serialize_events_to_csv escape_csv double_quotes join codes decimal
csv_test = refl

name_test :
    build_events_export_file_name csv
      (record { year = 2024; month = 0; day = 9; hour = 23; minute = 5; second = 30 })
    ≡ codes "events-20240109-230530.csv"
unfolding build_events_export_file_name two_digits codes decimal
name_test = refl

read_csv-serialize_events_to_csv_example :
    read_csv (serialize_events_to_csv (noted ∷ [])) ≡ csv_header ∷ map fields_of (noted ∷ [])
read_csv-serialize_events_to_csv_example = read_csv-serialize_events_to_csv (noted ∷ [])

-- A first page with more behind it.
abbrev loaded : List PageEvent
loaded =
    EventsPage.events_received (ok (record { events = noted ∷ []; total = 30; has_more = true }))
    ∷ []

abbrev browsing : List PageEvent
browsing =
    EventsPage.events_received (ok (record { events = noted ∷ []; total = 30; has_more = true }))
    ∷ EventsPage.next_clicked
    ∷ EventsPage.events_received (ok (record { events = noted ∷ []; total = 30; has_more = true }))
    ∷ EventsPage.min_height_typed (codes "5")
    ∷ EventsPage.max_height_typed (codes "3")
    ∷ EventsPage.apply_clicked
    ∷ EventsPage.next_clicked
    ∷ []

-- The filters are refused, and the third page is loaded.
offset_test : (run number browsing (first_page signed_out_auth)).offset ≡ 20
unfolding run handle receive_events set_offset apply_filters parse_height_filter whole_height codes
    trim trim_start trim_end cons_trimmed is_space digits_value
offset_test = refl

-- On the first page, the button that refreshes the list loads nothing.
refresh_test :
    (run number
      (EventsPage.refresh_clicked ∷ [])
      (run number loaded (first_page signed_out_auth))).loading
    ≡ false
unfolding run handle receive_events set_offset
refresh_test = refl

run-IsPaged_example : IsPaged (run number browsing (first_page signed_out_auth))
run-IsPaged_example = run-IsPaged number signed_out_auth browsing

abbrev other_event : IndexerEvent
other_event = record noted { id = codes "e2" }

-- Two visits whose answers come in the wrong order.
abbrev crossing : List DetailEvent
crossing =
    EventDetailPage.navigated (some (codes " e2 ")) none
    ∷ EventDetailPage.detail_received (record { number = 1; target = codes "e2" }) (ok other_event)
    ∷ EventDetailPage.detail_received (record { number = 0; target = codes "e,1" }) (ok noted)
    ∷ []

crossing_test :
    effective_event
      (EventDetailPage.run crossing (open_detail (some (codes "e,1")) none signed_out_auth))
    ≡ some other_event
unfolding effective_event EventDetailPage.run EventDetailPage.handle open_detail run_effect
    receive_detail codes eq_text trim trim_start trim_end cons_trimmed is_space
crossing_test = refl

crossing_answers : all is_answer crossing ≡ true
unfolding codes eq_text
crossing_answers = refl

run-effective_event_example :
    let s = EventDetailPage.run crossing (open_detail (some (codes "e,1")) none signed_out_auth) in
    is_empty s.target_event_id || fits s.target_event_id (effective_event s) ≡ true
run-effective_event_example =
    run-effective_event (some (codes "e,1")) none signed_out_auth crossing crossing_answers

-- A backend that no longer knows the session.
abbrev refusing : Browser
refusing = record { fetch = λ t. replied 401 none; now = λ t. 0 }

receive_events-get_indexer_example : IsSignedOut (codes "/events") (codes "?page=2") (
    receive_events
      (get_indexer refusing
        (record { timeout_ms = 5_000; retry_count = 1 })
        (λ payload. record { events = []; total = 0; has_more = false })
        (record { retry_count = some 2; retry_backoff_ms = some 250 })
        (record { fetched = 0; events = []; slept = [] })).0
      (first_page signed_out_auth))
receive_events-get_indexer_example =
    receive_events-get_indexer refusing (record { timeout_ms = 5_000; retry_count = 1 })
      (λ payload. record { events = []; total = 0; has_more = false })
      (record { retry_count = some 2; retry_backoff_ms = some 250 })
      (record { fetched = 0; events = []; slept = [] }) (first_page signed_out_auth)
      (codes "/events") (codes "?page=2") 401 none (λ u. refl) refl refl
