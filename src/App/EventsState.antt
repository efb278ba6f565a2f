-- ===== src/App/EventsState.antt =====
-- wallet-app/src/pages/EventsPage.tsx: the state of the list of events, its filters, its pages and its
-- loads. React runs the effect that loads when the offset changes, when there is a new query object,
-- and when the session changes and `signOut` with it. `Number` of a text is a parameter.
use soulon_wallet.Prelude.{
  ℕ, ◌+◌, ◌/◌, ◌==◌, ltb, Bool, true, false, not, ◌&&◌, ◌||◌, if◌then◌else◌, is_empty, is_some,
  trim, Text, codes, List, [], ◌∷◌, ◌++◌, Option, none, some,
}
use soulon_wallet.Prelude.Results.{Result, ok, err}
use soulon_wallet.Core.Types.{Number, whole, negative, fractional}
use soulon_wallet.App.Errors.{RequestError, api, other_error, no_error, is_session_invalid_error}
use soulon_wallet.App.Client.{
  RequestLifecycleEvent, RequestErrorAttribution, Layer, http, transport, parse,
}
use soulon_wallet.App.Export.{IndexerEventsResponse}
use soulon_wallet.App.Csv.{IndexerEvent, ExportFormat}
use soulon_wallet.App.Session.{Auth, sign_out}
use soulon_wallet.App.Login.{status_text}

pub data SortOrder : Type 0 where
  asc desc : SortOrder

pub record EventsQueryState : Type 0 where
  pub limit : ℕ
  pub order : SortOrder
  pub type : Option Text
  pub min_height : Option ℕ
  pub max_height : Option ℕ

-- `downloaded` has the files that were saved, the newest first.
pub record EventsPage : Type 0 where
  pub event_data : Option (IndexerEventsResponse IndexerEvent)
  pub loading : Bool
  pub error : Text
  pub offset : ℕ
  pub query_state : EventsQueryState
  pub limit_input : ℕ
  pub order_input : SortOrder
  pub event_type_input : Text
  pub min_height_input : Text
  pub max_height_input : Text
  pub lifecycle : Option RequestLifecycleEvent
  pub exporting_all : Option ExportFormat
  pub export_progress : Text
  pub downloaded : List (ExportFormat × List IndexerEvent)
  pub auth : Auth

abbrev pub page_size_options : List ℕ
page_size_options = 10 ∷ 20 ∷ 50 ∷ []

abbrev pub plain_query : EventsQueryState
plain_query = record { limit = 10; order = desc; type = none; min_height = none; max_height = none }

abbrev pub first_page : Auth → EventsPage
first_page auth = record {
  event_data = none;
  loading = true;
  error = [];
  offset = 0;
  query_state = plain_query;
  limit_input = 10;
  order_input = desc;
  event_type_input = [];
  min_height_input = [];
  max_height_input = [];
  lifecycle = none;
  exporting_all = none;
  export_progress = [];
  downloaded = [];
  auth = auth;
}

unfoldable pub whole_height : Number → Option ℕ
whole_height (whole n) = some n
whole_height (negative n) = none
whole_height fractional = none

unfoldable pub parse_height_filter : (Text → Number) → Text → Option ℕ
unfolding whole_height
parse_height_filter number value =
    let trimmed = trim value in
    let parsed = whole_height (number trimmed) in if is_empty trimmed then none else parsed

abbrev pub is_above : Option ℕ → Option ℕ → Bool
is_above (some low) (some high) = ltb high low
is_above (some low) none = false
is_above none high = false

-- `text.trim() || undefined`.
abbrev pub unless_empty : Text → Option Text
unless_empty text = if is_empty text then none else some text

unfoldable pub set_query : EventsQueryState → EventsPage → EventsPage
set_query query s = record s { offset = 0; query_state = query; error = []; loading = true }

unfoldable pub apply_filters : (Text → Number) → EventsPage → EventsPage
unfolding parse_height_filter set_query
apply_filters number s =
    let min_height = parse_height_filter number s.min_height_input in
    let max_height = parse_height_filter number s.max_height_input in
    if (not (is_empty (trim s.min_height_input)) && not (is_some min_height))
      || (not (is_empty (trim s.max_height_input)) && not (is_some max_height))
    then record s { error = codes "高度筛选必须是大于等于 0 的整数" }
    else if is_above min_height max_height
    then record s { error = codes "最小高度不能大于最大高度" }
    else set_query
        (record {
          limit = s.limit_input;
          order = s.order_input;
          type = unless_empty (trim s.event_type_input);
          min_height = min_height;
          max_height = max_height;
        })
        s

abbrev pub cleared_inputs : EventsPage → EventsPage
cleared_inputs s = record s {
  limit_input = 10;
  order_input = desc;
  event_type_input = [];
  min_height_input = [];
  max_height_input = [];
}

unfoldable pub reset_filters : EventsPage → EventsPage
unfolding set_query
reset_filters s = set_query plain_query (cleared_inputs s)

-- The setter of the offset, with the effect: setting it to what it is does nothing.
unfoldable pub set_offset : ℕ → EventsPage → EventsPage
set_offset offset s = if offset == s.offset then s else record s { offset = offset; loading = true }

abbrev pub layer_text : Layer → Text
layer_text http = codes "http"
layer_text transport = codes "transport"
layer_text parse = codes "parse"

abbrev pub attribution_text : Option RequestErrorAttribution → Text
attribution_text none = []
attribution_text (some a) =
    codes " layer="
    ++ layer_text a.layer
    ++ codes " reason="
    ++ codes a.reason
    ++ codes " retryable="
    ++ (if a.retryable then codes "true" else codes "false")

abbrev pub last_attribution : Option RequestLifecycleEvent → Option RequestErrorAttribution
last_attribution none = none
last_attribution (some event) = event.attribution

unfoldable pub load_failed : RequestError → EventsPage → EventsPage
unfolding is_session_invalid_error sign_out
load_failed (api e) s =
    if is_session_invalid_error e
    then record s { auth = sign_out (some (codes "会话已失效，请重新登录。")) s.auth }
    else record s {
      error =
          codes "code="
          ++ e.code
          ++ codes " status="
          ++ status_text e.status
          ++ codes " msg="
          ++ e.message
          ++ attribution_text (last_attribution s.lifecycle);
    }
load_failed (other_error message) s = record s { error = message }
load_failed no_error s = record s { error = codes "未知错误" }

-- `loadEvents`, from its answer on.
unfoldable pub receive_events :
    Result RequestError (IndexerEventsResponse IndexerEvent) → EventsPage → EventsPage
unfolding load_failed
receive_events (ok response) s = record s {
  event_data = some response;
  error = [];
  loading = false;
}
receive_events (err e) s = record (load_failed e s) { loading = false }

abbrev pub events_of : EventsPage → List IndexerEvent
events_of s = elim s.event_data [ none ↦ [] | some response ↦ response.events ]

abbrev pub can_next : EventsPage → Bool
can_next s = elim s.event_data [ none ↦ false | some response ↦ response.has_more ]

-- For a limit of 0 the source has no number.
unfoldable pub current_page : EventsPage → ℕ
current_page s = s.offset / s.query_state.limit + 1
