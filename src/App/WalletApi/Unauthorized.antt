-- ===== src/App/WalletApi/Unauthorized.antt =====
-- wallet-app/src: what an answer of the backend that refuses the session does to the application.
use soulon_wallet.Prelude.{
  ℕ, ◌==◌, leb, true, false, ◌&&◌, ◌||◌, trim, trim_start, trim_end, cons_trimmed, eq_text, Text,
  codes, ◌++◌, Option, none, some, ◌≡◌, refl, ap, ◌∙◌, arith,
}
use soulon_wallet.Prelude.Results.{err}
use soulon_wallet.App.Errors.{ApiError, api, is_session_invalid_error}
use soulon_wallet.App.Client.{
  RequestOptions, Payload, scalar, object, Trace, Browser, ApiClient, replied, request, outcome,
  http_failure, resolve_structured_error_payload, get,
}
use soulon_wallet.App.Client.Retry.{verdict, request-IsCall}
use soulon_wallet.App.Export.{IndexerEventsResponse}
use soulon_wallet.App.Csv.{IndexerEvent}
use soulon_wallet.App.Session.{sign_out, require_auth}
use soulon_wallet.App.EventsState.{EventsPage, load_failed, receive_events}
use soulon_wallet.App.WalletApi.{IndexerEventsRequestOptions, get_indexer}

abbrev pub code_of : Option Payload → Option Text
code_of none = none
code_of (some scalar) = none
code_of (some (object fields)) = fields.code

-- Without a code of its own, a refusal has the client's.
http_failure-code :
    (status : ℕ) (body : Option Payload)
    → code_of body ≡ none
    → (http_failure status body).error.code ≡ codes "HTTP_ERROR"
unfolding http_failure resolve_structured_error_payload trim trim_start trim_end cons_trimmed
http_failure-code status none h = refl
http_failure-code status (some scalar) h = refl
http_failure-code status (some (object fields)) h = rw (h) refl

http_failure-session :
    (status : ℕ) (body : Option Payload)
    → (status == 401 || status == 403) ≡ true
    → code_of body ≡ none
    → is_session_invalid_error (http_failure status body).error ≡ true
unfolding is_session_invalid_error http_failure eq_text codes
http_failure-session status body refused h = rw (http_failure-code status body h) refused

outcome-refused :
    (timeout_ms status : ℕ) (body : Option Payload)
    → (status == 401 || status == 403) ≡ true
    → outcome timeout_ms (replied status body) ≡ err (http_failure status body)
unfolding outcome
outcome-refused timeout_ms status body refused =
    let outside : (leb 200 status && leb status 299) ≡ false = ground arith in rw (outside) refl

-- The page of events without a session, as its guard sees it.
abbrev pub IsSignedOut : Text → Text → EventsPage → Type 0
IsSignedOut pathname search s =
    (require_auth pathname search s.auth
      ≡ some (record { from = pathname ++ search; reason = some (codes "会话已失效，请重新登录。") }))
    × (s.auth.storage ≡ none)

load_failed-IsSignedOut :
    (e : ApiError) (pathname search : Text) (s : EventsPage)
    → is_session_invalid_error e ≡ true
    → IsSignedOut pathname search (receive_events (err (api e)) s)
unfolding receive_events load_failed sign_out require_auth codes
load_failed-IsSignedOut e pathname search s h = rw (h) (refl, refl)

-- When the backend answers each attempt to load the list with status 401 or 403, without a code of its
-- own, then the page ends the session: nothing of it is left in the storage, and the guard leads to the
-- login, which is told where to go back to and why.
pub receive_events-get_indexer :
    (browser : Browser) (client : ApiClient) (decode : Payload → IndexerEventsResponse IndexerEvent)
    (options : IndexerEventsRequestOptions) (t : Trace) (s : EventsPage) (pathname search : Text)
    (status : ℕ) (body : Option Payload)
    → ((u : Trace) → browser.fetch u ≡ replied status body)
    → (status == 401 || status == 403) ≡ true
    → code_of body ≡ none
    → IsSignedOut pathname search (receive_events (get_indexer browser client decode options t).0 s)
unfolding get_indexer verdict
receive_events-get_indexer browser client decode options t s pathname search status body answers
      refused plain =
    let asked : RequestOptions = record {
      method = some get;
      timeout_ms = none;
      retry_count = options.retry_count;
      retry_backoff_ms = options.retry_backoff_ms;
    } in
    let call = request-IsCall browser client asked t in
    let failed : (request browser client asked t).0 ≡ err (http_failure status body).error =
      call.result
      ∙ ap (λ reply. verdict (outcome client.timeout_ms reply)) (answers call.before)
      ∙ ap verdict (outcome-refused client.timeout_ms status body refused) in
    rw (failed) (
      load_failed-IsSignedOut (http_failure status body).error pathname search s
        (http_failure-session status body refused plain))
