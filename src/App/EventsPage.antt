-- ===== src/App/EventsPage.antt =====
-- wallet-app/src/pages/EventsPage.tsx: the exports of the list of events, and its handlers. A button
-- that is disabled does nothing; the answers are parameters.
pub mod Paged
use soulon_wallet.Prelude.{
  ℕ, ◌+◌, ◌-◌, ◌/◌, ◌==◌, leb, ltb, any, Bool, true, false, not, ◌&&◌, ◌||◌, if◌then◌else◌,
  is_empty, is_some, length, trim, String, Text, codes, List, [], ◌∷◌, ◌++◌, Option, none, some,
}
use soulon_wallet.Prelude.Decimal.{decimal}
use soulon_wallet.Prelude.Results.{Result, ok, err}
use soulon_wallet.Core.Types.{Number, whole, negative, fractional}
use soulon_wallet.App.Errors.{RequestError, api, other_error, no_error, is_session_invalid_error}
use soulon_wallet.App.Client.{
  RequestLifecycleEvent, RequestErrorAttribution, Layer, http, transport, parse,
}
use soulon_wallet.App.Export.{IndexerEventsResponse}
use soulon_wallet.App.Csv.{IndexerEvent, ExportFormat}
use soulon_wallet.App.Session.{Auth, sign_out}
use soulon_wallet.App.Login.{status_text}
use soulon_wallet.App.EventsState.{
  SortOrder, EventsQueryState, EventsPage, page_size_options, plain_query, first_page, whole_height,
  parse_height_filter, is_above, unless_empty, set_query, apply_filters, cleared_inputs,
  reset_filters, set_offset, layer_text, attribution_text, last_attribution, load_failed,
  receive_events, events_of, can_next, current_page, asc, desc,
}

-- `exportAsJson` and `exportAsCsv`.
unfoldable pub export_page : ExportFormat → EventsPage → EventsPage
export_page format s =
    if is_empty (events_of s)
    then record s { error = codes "当前页没有可导出的事件数据" }
    else record s { downloaded = (format, events_of s) ∷ s.downloaded; error = [] }

-- What the collection of all events throws.
pub data ExportFailure : Type 0 where
  cancelled limit_exceeded : ExportFailure
  request_failed : RequestError → ExportFailure

-- `exportAllAsJson` and `exportAllAsCsv`, up to the first fetch.
unfoldable pub start_export : ExportFormat → EventsPage → EventsPage
start_export format s = record s {
  exporting_all = some format;
  export_progress = codes "开始拉取事件...";
}

unfoldable pub tell_progress : ℕ → ℕ → EventsPage → EventsPage
tell_progress page total_collected s = record s {
  export_progress =
      codes "已拉取 " ++ decimal page ++ codes " 页，累计 " ++ decimal total_collected ++ codes " 条";
}

unfoldable pub export_failed : ExportFailure → EventsPage → EventsPage
unfolding is_session_invalid_error sign_out
export_failed cancelled s = record s { export_progress = codes "导出已取消" }
export_failed limit_exceeded s = record s {
  export_progress = [];
  error = codes "导出数据量超过 10000 条上限，请收窄筛选条件后重试";
}
export_failed (request_failed (api e)) s =
    if is_session_invalid_error e
    then record s { auth = sign_out (some (codes "会话已失效，请重新登录。")) s.auth; export_progress = [] }
    else record s { export_progress = []; error = e.message }
export_failed (request_failed (other_error message)) s = record s {
  export_progress = [];
  error = message;
}
export_failed (request_failed no_error) s = record s {
  export_progress = [];
  error = codes "全量导出失败";
}

unfoldable pub finish_export :
    ExportFormat → Result ExportFailure (List IndexerEvent) → EventsPage → EventsPage
unfolding export_failed
finish_export format (err e) s = record (export_failed e s) { exporting_all = none }
finish_export format (ok all_events) s =
    if is_empty all_events
    then record s { error = codes "筛选条件下没有可导出的事件数据"; export_progress = []; exporting_all = none }
    else record s {
      downloaded = (format, all_events) ∷ s.downloaded;
      error = [];
      export_progress = codes "导出完成，共 " ++ decimal (length all_events) ++ codes " 条";
      exporting_all = none;
    }

-- A cancellation reaches the export through its signal, and comes back as its failure.
pub data PageEvent : Type 0 where
  limit_chosen : ℕ → PageEvent
  order_chosen : SortOrder → PageEvent
  type_typed min_height_typed max_height_typed : Text → PageEvent
  apply_clicked reset_clicked refresh_clicked prev_clicked next_clicked : PageEvent
  auth_changed : PageEvent
  events_received : Result RequestError (IndexerEventsResponse IndexerEvent) → PageEvent
  lifecycle_told : RequestLifecycleEvent → PageEvent
  export_clicked export_all_clicked : ExportFormat → PageEvent
  progress_told : ℕ → ℕ → PageEvent
  export_received : Result ExportFailure (List IndexerEvent) → PageEvent

-- The fields and buttons that are disabled while a list is loaded.
abbrev pub unless_loading : EventsPage → EventsPage → EventsPage
unless_loading s next = if s.loading then s else next

abbrev pub is_exporting : EventsPage → Bool
is_exporting s = elim s.exporting_all [ none ↦ false | some format ↦ true ]

unfoldable pub handle : (Text → Number) → PageEvent → EventsPage → EventsPage
unfolding apply_filters reset_filters set_offset receive_events export_page start_export
    tell_progress finish_export
handle number (limit_chosen n) s =
    unless_loading s
      (if any (λ option. option == n) page_size_options then record s { limit_input = n } else s)
handle number (order_chosen order) s = unless_loading s (record s { order_input = order })
handle number (type_typed text) s = unless_loading s (record s { event_type_input = text })
handle number (min_height_typed text) s = unless_loading s (record s { min_height_input = text })
handle number (max_height_typed text) s = unless_loading s (record s { max_height_input = text })
handle number apply_clicked s = unless_loading s (apply_filters number s)
handle number reset_clicked s = unless_loading s (reset_filters s)
handle number refresh_clicked s = unless_loading s (set_offset 0 s)
handle number prev_clicked s =
    unless_loading s (if ltb 0 s.offset then set_offset (s.offset - s.query_state.limit) s else s)
handle number next_clicked s =
    unless_loading s (if can_next s then set_offset (s.offset + s.query_state.limit) s else s)
handle number (events_received answer) s = receive_events answer s
handle number auth_changed s = record s { loading = true }
handle number (lifecycle_told event) s = record s { lifecycle = some event }
handle number (export_clicked format) s =
    unless_loading s (if is_exporting s || is_empty (events_of s) then s else export_page format s)
handle number (export_all_clicked format) s =
    unless_loading s (if is_exporting s then s else start_export format s)
handle number (progress_told page total) s =
    if is_exporting s then tell_progress page total s else s
handle number (export_received answer) s = elim s.exporting_all [
  | none ↦ s
  | some format ↦ finish_export format answer s
]

unfoldable pub run : (Text → Number) → List PageEvent → EventsPage → EventsPage
unfolding handle
run number [] s = s
run number (e ∷ es) s = run number es (handle number e s)
