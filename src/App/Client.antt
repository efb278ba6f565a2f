-- ===== src/App/Client.antt =====
-- wallet-app/src/api/client.ts: requests with retries. The browser is a parameter: what `fetch`
-- answers, as a function of what the call has done so far, and the clock. Callbacks do not throw.
-- Left out are the URL, the headers and the request's id, which are the same in every attempt.
pub mod Retry
use soulon_wallet.Prelude.{
  ℕ, zero, suc, ◌+◌, ◌-◌, ◌*◌, leb, ltb, ◌==◌, Bool, true, false, ◌&&◌, ◌||◌, if◌then◌else◌,
  or_default, is_empty, not, trim, String, Text, codes, List, [], ◌∷◌, ◌++◌, Option, none, some,
}
use soulon_wallet.Prelude.Decimal.{decimal}
use soulon_wallet.Prelude.Results.{Result, ok, err}
use soulon_wallet.App.Errors.{
  ApiError, is_wallet_semantic_error_code, resolve_wallet_semantic_error_message,
}

pub data HttpMethod : Type 0 where
  get post put patch delete : HttpMethod

pub record RequestOptions : Type 0 where
  pub method : Option HttpMethod
  pub timeout_ms : Option ℕ
  pub retry_count : Option ℕ
  pub retry_backoff_ms : Option ℕ

-- The fields of a JSON object that the error handling reads, when they have the type it wants.
pub record Fields : Type 0 where
  pub error : Option Text
  pub message : Option Text
  pub code : Option Text
  pub retryable : Option Bool

pub data Payload : Type 0 where
  scalar : Payload
  object : Fields → Payload

-- Why `fetch` throws: a DOMException named AbortError, another error with its message, or a value
-- that is no error.
pub data Reason : Type 0 where
  abort_error : Reason
  error_object : Text → Reason
  other_value : Text → Reason

-- A status, with the body unless it is no JSON; the controller's abort before that; or a failure.
pub data Reply : Type 0 where
  replied : ℕ → Option Payload → Reply
  aborted : Reply
  rejected : Reason → Reply

pub data Layer : Type 0 where
  http transport parse : Layer

pub data Stage : Type 0 where
  start retry success failure : Stage

pub record RequestErrorAttribution : Type 0 where
  pub layer : Layer
  pub reason : String
  pub status : Option ℕ
  pub code : Text
  pub retryable : Bool

-- `durationMs` is `at` less the time at which the call started.
pub record RequestLifecycleEvent : Type 0 where
  pub stage : Stage
  pub attempt : ℕ
  pub at : ℕ
  pub status : Option ℕ
  pub attribution : Option RequestErrorAttribution

-- What a call has done: its fetches, and its events and sleeps, the newest first.
pub record Trace : Type 0 where
  pub fetched : ℕ
  pub events : List RequestLifecycleEvent
  pub slept : List ℕ

pub record Browser : Type 0 where
  pub fetch : Trace → Reply
  pub now : Trace → ℕ

pub record ApiClient : Type 0 where
  pub timeout_ms : ℕ
  pub retry_count : ℕ

unfoldable pub is_retryable_status : ℕ → Bool
is_retryable_status status = status == 429 || leb 500 status

unfoldable pub resolve_error_message : Option Payload → Text → Text
resolve_error_message (some (object f)) fallback =
    or_default f.error (or_default f.message fallback)
resolve_error_message (some scalar) fallback = fallback
resolve_error_message none fallback = fallback

pub record StructuredErrorPayload : Type 0 where
  pub code : Option Text
  pub message : Text
  pub retryable : Option Bool

unfoldable pub resolve_structured_error_payload : Option Payload → Text → StructuredErrorPayload
unfolding resolve_error_message is_wallet_semantic_error_code resolve_wallet_semantic_error_message
resolve_structured_error_payload (some (object f)) fallback =
    let message = resolve_error_message (some (object f)) fallback in
    let code = trim (or_default f.code []) in
    if not (is_empty code) && is_wallet_semantic_error_code code
    then record {
      code = some code;
      message = resolve_wallet_semantic_error_message code message;
      retryable = f.retryable;
    }
    else record { code = none; message = message; retryable = f.retryable }
resolve_structured_error_payload payload fallback = record {
  code = none;
  message = resolve_error_message payload fallback;
  retryable = none;
}

-- A failed attempt: its error, and what is reported of it on a retry and at the end.
pub record Failure : Type 0 where
  pub error : ApiError
  pub layer : Layer
  pub retry_reason : String
  pub failure_reason : String
  pub event_status : Option ℕ

unfoldable pub http_failure : ℕ → Option Payload → Failure
unfolding resolve_structured_error_payload is_retryable_status
http_failure status payload =
    let structured = resolve_structured_error_payload payload (codes "HTTP " ++ decimal status) in
    record {
      error = record {
        code = or_default structured.code (codes "HTTP_ERROR");
        message = structured.message;
        status = some status;
        retryable = or_default structured.retryable (is_retryable_status status);
      };
      layer = http;
      retry_reason = "retryable_http_status";
      failure_reason = "http_status_not_ok";
      event_status = some status;
    }

abbrev pub parse_failure : ℕ → Failure
parse_failure status = record {
  error = record {
    code = codes "PARSE_ERROR";
    message = codes "响应解析失败";
    status = none;
    retryable = false;
  };
  layer = parse;
  retry_reason = "response_json_parse_failed";
  failure_reason = "response_json_parse_failed";
  event_status = some status;
}

abbrev pub transport_failure : Text → Text → String → Failure
transport_failure code message reason = record {
  error = record { code = code; message = message; status = none; retryable = true };
  layer = transport;
  retry_reason = reason;
  failure_reason = reason;
  event_status = none;
}

unfoldable pub rejection : ℕ → Reason → Failure
rejection timeout_ms abort_error =
    transport_failure (codes "TIMEOUT") (codes "请求超时（>" ++ decimal timeout_ms ++ codes "ms）")
      "request_timeout"
rejection timeout_ms (error_object message) =
    transport_failure (codes "NETWORK") message "network_exception"
rejection timeout_ms (other_value text) =
    transport_failure (codes "NETWORK") (codes "网络异常") "network_exception"

-- `response.ok` says that the status is from 200 to 299. An aborted `fetch` throws what the
-- controller was aborted with, here the string 'timeout'.
unfoldable pub outcome : ℕ → Reply → Result Failure Payload
unfolding http_failure rejection
outcome timeout_ms (replied status body) =
    if leb 200 status && leb status 299
    then elim body [ none ↦ err (parse_failure status) | some payload ↦ ok payload ]
    else err (http_failure status body)
outcome timeout_ms aborted = err (rejection timeout_ms (other_value (codes "timeout")))
outcome timeout_ms (rejected reason) = err (rejection timeout_ms reason)

abbrev pub attribution_of : String → Failure → RequestErrorAttribution
attribution_of reason f = record {
  layer = f.layer;
  reason = reason;
  status = f.error.status;
  code = f.error.code;
  retryable = f.error.retryable;
}

module _ (browser : Browser) where
  unfoldable pub emit : Stage → ℕ → Option ℕ → Option RequestErrorAttribution → Trace → Trace
  emit stage attempt status attribution t =
      let event : RequestLifecycleEvent = record {
        stage = stage;
        attempt = attempt;
        at = browser.now t;
        status = status;
        attribution = attribution;
      } in
      record t { events = event ∷ t.events }

  abbrev pub status_of : Reply → Option ℕ
  status_of (replied status body) = some status
  status_of aborted = none
  status_of (rejected reason) = none

  module _ (timeout_ms max_retries retry_backoff_ms : ℕ) where
    -- The state in which the next attempt starts.
    abbrev pub retried : ℕ → Failure → Trace → Trace
    retried attempt f t =
        let told =
          emit retry (attempt + 1) f.event_status (some (attribution_of f.retry_reason f)) t in
        record told { slept = retry_backoff_ms * (attempt + 1) ∷ told.slept }

    abbrev pub fetched_once : Trace → Trace
    fetched_once t = record t { fetched = t.fetched + 1 }

    -- The loop, on the attempts that are left.
    unfoldable pub request_from : ℕ → ℕ → Trace → Result ApiError Payload × Trace
    unfolding emit outcome
    request_from zero attempt t = (
      err (record {
        code = codes "UNKNOWN";
        message = codes "请求失败";
        status = none;
        retryable = false;
      }),
      t,
    )
    request_from (suc rounds) attempt t =
        let reply = browser.fetch t in
        elim (outcome timeout_ms reply) [
          | ok payload ↦ (ok payload, emit success attempt (status_of reply) none (fetched_once t))
          | err f ↦
              let again = request_from rounds (attempt + 1) (retried attempt f (fetched_once t)) in
              if f.error.retryable && ltb attempt max_retries then again else (
                err f.error,
                emit failure attempt f.event_status (some (attribution_of f.failure_reason f))
                    (fetched_once t),
              )
        ]

abbrev pub is_get : HttpMethod → Bool
is_get get = true
is_get method = false

-- `options.retryCount ?? (method === 'GET' ? this.retryCount : 0)`.
unfoldable pub max_retries_of : ApiClient → RequestOptions → ℕ
max_retries_of client options =
    or_default options.retry_count
      (if is_get (or_default options.method get) then client.retry_count else 0)

unfoldable pub request :
    Browser → ApiClient → RequestOptions → Trace → Result ApiError Payload × Trace
unfolding request_from emit max_retries_of
request browser client options t =
    request_from browser (or_default options.timeout_ms client.timeout_ms)
      (max_retries_of client options) (or_default options.retry_backoff_ms 200)
      (max_retries_of client options + 1) 0 (emit browser start 0 none none t)
