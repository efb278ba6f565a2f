-- ===== src/App/EventsPage/Paged.antt =====
-- wallet-app/src/pages/EventsPage.tsx: what holds of the page and of its filters at all times.
use soulon_wallet.Prelude.{
  ℕ, suc, ◌+◌, ◌-◌, ◌*◌, ◌/◌, ◌==◌, ltb, any, Bool, true, false, not, ◌||◌, if◌then◌else◌, is_empty,
  trim, Text, List, [], ◌∷◌, Option, none, some, ◌≡◌, refl, ap, sym, ◌∙◌, arith, inl, inr, ◌⊎◌,
  Bool-cases,
}
use soulon_wallet.Prelude.Results.{Result, ok, err}
use soulon_wallet.Core.Types.{Number}
use soulon_wallet.App.Errors.{RequestError, api, other_error, no_error, is_session_invalid_error}
use soulon_wallet.App.Export.{IndexerEventsResponse}
use soulon_wallet.App.Csv.{IndexerEvent, ExportFormat}
use soulon_wallet.App.Session.{Auth}
use soulon_wallet.App.EventsState.{
  EventsQueryState, EventsPage, page_size_options, plain_query, cleared_inputs, first_page,
  parse_height_filter, is_above, unless_empty, set_query, apply_filters, reset_filters, set_offset,
  load_failed, receive_events, events_of, can_next, current_page,
}
use soulon_wallet.App.EventsPage.{
  export_page, ExportFailure, cancelled, limit_exceeded, request_failed, start_export,
  tell_progress, export_failed, finish_export, PageEvent, unless_loading, is_exporting, handle, run,
}
use soulon_wallet.App.EventsPage

abbrev IsOffered : ℕ → Type 0
IsOffered limit = any (λ option. option == limit) page_size_options ≡ true

abbrev pub is_given : Option Text → Bool
is_given none = true
is_given (some text) = not (is_empty text)

-- The offset is a number of whole pages, the limits are offered, and the filters make sense.
record IsSound (offset : ℕ) (query : EventsQueryState) (limit_input : ℕ) : Type 0 where
  pages : ℕ
  whole_pages : offset ≡ pages * query.limit
  limit_offered : IsOffered query.limit
  input_offered : IsOffered limit_input
  heights : is_above query.min_height query.max_height ≡ false
  type_given : is_given query.type ≡ true

abbrev Sound : EventsPage → Type 0
Sound s = IsSound s.offset s.query_state s.limit_input

if-Sound : (flag : Bool) (s t : EventsPage) → Sound s → Sound t → Sound (if flag then s else t)
if-Sound true s t h k = h
if-Sound false s t h k = k

unless_empty-lem : (text : Text) → is_given (unless_empty text) ≡ true
unless_empty-lem text = elim (Bool-cases (is_empty text)) [
  | inl blank ↦ rw (blank) refl
  | inr full ↦ rw (full, full) refl
]

set_query-Sound :
    (query : EventsQueryState) (s : EventsPage)
    → IsOffered query.limit
    → IsOffered s.limit_input
    → is_above query.min_height query.max_height ≡ false
    → is_given query.type ≡ true
    → Sound (set_query query s)
unfolding set_query
set_query-Sound query s offered input heights given = record {
  pages = 0;
  whole_pages = ground arith;
  limit_offered = offered;
  input_offered = input;
  heights = heights;
  type_given = given;
}

module _ (number : Text → Number) where
  apply_filters-Sound : (s : EventsPage) → Sound s → Sound (apply_filters number s)
  unfolding apply_filters
  apply_filters-Sound s h =
      let min_height = parse_height_filter number s.min_height_input in
      let max_height = parse_height_filter number s.max_height_input in
      elim (Bool-cases (is_above min_height max_height)) [
        | inl above ↦ rw (above) (if-Sound _ _ _ h h)
        | inr fine ↦ rw (fine) (
            if-Sound _ _ _ h (
              set_query-Sound _ s h.input_offered h.input_offered fine
                (unless_empty-lem (trim s.event_type_input))))
      ]

reset_filters-Sound : (s : EventsPage) → Sound (reset_filters s)
unfolding reset_filters
reset_filters-Sound s = set_query-Sound plain_query (cleared_inputs s) refl refl refl refl

set_offset-Sound :
    (pages : ℕ) (offset : ℕ) (s : EventsPage)
    → offset ≡ pages * s.query_state.limit
    → Sound s
    → Sound (set_offset offset s)
unfolding set_offset
set_offset-Sound pages offset s e h = if-Sound (offset == s.offset) s _ h (record {
  pages = pages;
  whole_pages = e;
  limit_offered = h.limit_offered;
  input_offered = h.input_offered;
  heights = h.heights;
  type_given = h.type_given;
})

load_failed-Sound : (e : RequestError) (s : EventsPage) → Sound s → Sound (load_failed e s)
unfolding load_failed
load_failed-Sound (api e) s h = if-Sound (is_session_invalid_error e) _ _ h h
load_failed-Sound (other_error message) s h = h
load_failed-Sound no_error s h = h

receive_events-Sound :
    (answer : Result RequestError (IndexerEventsResponse IndexerEvent)) (s : EventsPage)
    → Sound s
    → Sound (receive_events answer s)
unfolding receive_events
receive_events-Sound (ok response) s h = h
receive_events-Sound (err e) s h = load_failed-Sound e s h

export_failed-Sound : (e : ExportFailure) (s : EventsPage) → Sound s → Sound (export_failed e s)
unfolding export_failed
export_failed-Sound cancelled s h = h
export_failed-Sound limit_exceeded s h = h
export_failed-Sound (request_failed (api e)) s h = if-Sound (is_session_invalid_error e) _ _ h h
export_failed-Sound (request_failed (other_error message)) s h = h
export_failed-Sound (request_failed no_error) s h = h

finish_export-Sound :
    (format : ExportFormat) (answer : Result ExportFailure (List IndexerEvent)) (s : EventsPage)
    → Sound s
    → Sound (finish_export format answer s)
unfolding finish_export
finish_export-Sound format (err e) s h = export_failed-Sound e s h
finish_export-Sound format (ok all_events) s h = if-Sound (is_empty all_events) _ _ h h

IsOffered-cases : (limit : ℕ) → IsOffered limit → (limit ≡ 10) ⊎ ((limit ≡ 20) ⊎ (limit ≡ 50))
IsOffered-cases limit h = ground arith

-- One page back, one page on, and the number of the page, for the limits on offer.
page_before :
    (limit offset pages : ℕ)
    → IsOffered limit
    → offset ≡ pages * limit
    → offset - limit ≡ (pages - 1) * limit
page_before limit offset pages h e = elim (IsOffered-cases limit h) [
  | inl ten ↦ rw (ten, e, ten) (omega arith)
  | inr (inl twenty) ↦ rw (twenty, e, twenty) (omega arith)
  | inr (inr fifty) ↦ rw (fifty, e, fifty) (omega arith)
]

page_after :
    (limit offset pages : ℕ)
    → IsOffered limit
    → offset ≡ pages * limit
    → offset + limit ≡ suc pages * limit
page_after limit offset pages h e = elim (IsOffered-cases limit h) [
  | inl ten ↦ rw (ten, e, ten) (omega arith)
  | inr (inl twenty) ↦ rw (twenty, e, twenty) (omega arith)
  | inr (inr fifty) ↦ rw (fifty, e, fifty) (omega arith)
]

page_at :
    (limit offset pages : ℕ) → IsOffered limit → offset ≡ pages * limit → offset / limit ≡ pages
page_at limit offset pages h e = elim (IsOffered-cases limit h) [
  | inl ten ↦ rw (ten, e, ten) (omega arith)
  | inr (inl twenty) ↦ rw (twenty, e, twenty) (omega arith)
  | inr (inr fifty) ↦ rw (fifty, e, fifty) (omega arith)
]

prev-Sound : (s : EventsPage) → Sound s → Sound (set_offset (s.offset - s.query_state.limit) s)
prev-Sound s h =
    set_offset-Sound (h.pages - 1) (s.offset - s.query_state.limit) s
      (page_before s.query_state.limit s.offset h.pages h.limit_offered h.whole_pages) h

next-Sound : (s : EventsPage) → Sound s → Sound (set_offset (s.offset + s.query_state.limit) s)
next-Sound s h =
    set_offset-Sound (suc h.pages) (s.offset + s.query_state.limit) s
      (page_after s.query_state.limit s.offset h.pages h.limit_offered h.whole_pages) h

module _ (number : Text → Number) where
  handle-Sound : (e : PageEvent) (s : EventsPage) → Sound s → Sound (handle number e s)
  unfolding handle export_page start_export tell_progress
  handle-Sound (EventsPage.limit_chosen n) s h =
      if-Sound s.loading s _ h (elim (Bool-cases (any (λ option. option == n) page_size_options)) [
        | inl offered ↦ rw (offered) (record {
          pages = h.pages;
          whole_pages = h.whole_pages;
          limit_offered = h.limit_offered;
          input_offered = offered;
          heights = h.heights;
          type_given = h.type_given;
        })
        | inr strange ↦ rw (strange) h
      ])
  handle-Sound (EventsPage.order_chosen order) s h = if-Sound s.loading s _ h h
  handle-Sound (EventsPage.type_typed text) s h = if-Sound s.loading s _ h h
  handle-Sound (EventsPage.min_height_typed text) s h = if-Sound s.loading s _ h h
  handle-Sound (EventsPage.max_height_typed text) s h = if-Sound s.loading s _ h h
  handle-Sound EventsPage.apply_clicked s h =
      if-Sound s.loading s _ h (apply_filters-Sound number s h)
  handle-Sound EventsPage.reset_clicked s h = if-Sound s.loading s _ h (reset_filters-Sound s)
  handle-Sound EventsPage.refresh_clicked s h =
      if-Sound s.loading s _ h (set_offset-Sound 0 0 s (ground arith) h)
  handle-Sound EventsPage.prev_clicked s h =
      if-Sound s.loading s _ h (if-Sound (ltb 0 s.offset) _ s (prev-Sound s h) h)
  handle-Sound EventsPage.next_clicked s h =
      if-Sound s.loading s _ h (if-Sound (can_next s) _ s (next-Sound s h) h)
  handle-Sound (EventsPage.events_received answer) s h = receive_events-Sound answer s h
  handle-Sound EventsPage.auth_changed s h = h
  handle-Sound (EventsPage.lifecycle_told event) s h = h
  handle-Sound (EventsPage.export_clicked format) s h = if-Sound s.loading s _ h (
      if-Sound (is_exporting s || is_empty (events_of s)) s _ h
        (if-Sound (is_empty (events_of s)) _ _ h h))
  handle-Sound (EventsPage.export_all_clicked format) s h =
      if-Sound s.loading s _ h (if-Sound (is_exporting s) s _ h h)
  handle-Sound (EventsPage.progress_told page total) s h = if-Sound (is_exporting s) _ s h h
  handle-Sound (EventsPage.export_received answer) s h =
      elim s.exporting_all
        as (λ o. Sound (elim o [ none ↦ s | some format ↦ finish_export format answer s ])) [
          | none ↦ h
          | some format ↦ finish_export-Sound format answer s h
        ]

  run-Sound : (es : List PageEvent) (s : EventsPage) → Sound s → Sound (run number es s)
  unfolding run
  run-Sound [] s h = h
  run-Sound (e ∷ es) s h = run-Sound es (handle number e s) (handle-Sound e s h)

-- The offset is that of the page whose number is shown, the limit is one of those on offer, no
-- height is asked for that no event can have, and the type, if there is one, is not empty.
pub record IsPaged (s : EventsPage) : Type 0 where
  pub on_page : s.offset ≡ (current_page s - 1) * s.query_state.limit
  pub limit_offered : any (λ option. option == s.query_state.limit) page_size_options ≡ true
  pub heights : is_above s.query_state.min_height s.query_state.max_height ≡ false
  pub type_given : is_given s.query_state.type ≡ true

Sound-IsPaged : (s : EventsPage) → Sound s → IsPaged s
unfolding current_page
Sound-IsPaged s h = record {
  on_page =
      let at : s.offset / s.query_state.limit ≡ h.pages =
        page_at s.query_state.limit s.offset h.pages h.limit_offered h.whole_pages in
      let shown : s.offset / s.query_state.limit + 1 - 1 ≡ h.pages = ground arith in
      h.whole_pages ∙ ap (λ n. n * s.query_state.limit) (sym shown);
  limit_offered = h.limit_offered;
  heights = h.heights;
  type_given = h.type_given;
}

-- From the page as it opens, after any clicks, texts, answers and exports, whatever numbers the texts
-- are: the offset is that of the page whose number is shown, with a limit that the page offers; the
-- least height of the filter is not above the greatest one; and the type is absent or not empty.
pub run-IsPaged :
    (number : Text → Number) (auth : Auth) (es : List PageEvent)
    → IsPaged (run number es (first_page auth))
run-IsPaged number auth es = Sound-IsPaged (run number es (first_page auth)) (
    run-Sound number es (first_page auth) (record {
      pages = 0;
      whole_pages = refl;
      limit_offered = refl;
      input_offered = refl;
      heights = refl;
      type_given = refl;
    }))
