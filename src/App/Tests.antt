-- ===== src/App/Tests.antt =====
-- Runs of the client, and its theorems at concrete inputs.
use soulon_wallet.Prelude.{
  List, false, ℕ, zero, suc, ◌+◌, or_default, codes, [], ◌∷◌, none, some, ◌≡◌, refl,
}
use soulon_wallet.Prelude.Results.{ok, err}
use soulon_wallet.App.Client.{
  RequestOptions, post, scalar, Reply, replied, aborted, start, Trace, Browser, ApiClient, outcome,
  http_failure, rejection, is_retryable_status, resolve_structured_error_payload,
  resolve_error_message, transport_failure, emit, max_retries_of, request_from, request,
}
use soulon_wallet.Prelude.{List, false, arith}
use soulon_wallet.Prelude.{Text, trim, trim_start, trim_end, cons_trimmed, is_space}
use soulon_wallet.Core.Bip21.Sample.{simple, simple-IsSearchParams, low, low-keeps}
use soulon_wallet.Core.Bip21.Queries.{is_well_formed}
use soulon_wallet.App.PaymentForm.{Bip21FormInput, create_bip21_payment_uri}
use soulon_wallet.App.PaymentForm.ReadBack.{IsFilled}
use soulon_wallet.App.HomePage.{HomePage, home, handle_generate_bip21, handle_parse_bip21}
use soulon_wallet.App.HomePage.Form.{trimmed_form, handle_parse_bip21-handle_generate_bip21}
use soulon_wallet.App.Export.{CollectAllEventsOptions, FetchEventsPage, collect_all_events}
use soulon_wallet.App.Export.Complete.{page_of, collect_all_events-all}
use soulon_wallet.App.Client.Retry.{IsCall, request-IsCall, request-not_get}

abbrev answer_of : ℕ → Reply
answer_of zero = replied 503 none
answer_of (suc n) = replied 200 (some scalar)

-- A backend that is overloaded for the first request.
abbrev browser : Browser
browser = record { fetch = λ t. answer_of t.fetched; now = λ t. 1_000 }

abbrev client : ApiClient
client = record { timeout_ms = 8_000; retry_count = 2 }

abbrev fetching : RequestOptions
fetching = record { method = none; timeout_ms = none; retry_count = none; retry_backoff_ms = none }

abbrev posting : RequestOptions
posting = record {
  method = some post;
  timeout_ms = none;
  retry_count = none;
  retry_backoff_ms = none;
}

abbrev idle : Trace
idle = record { fetched = 0; events = []; slept = [] }

retry_test : (request browser client fetching idle).0 ≡ ok scalar
unfolding request max_retries_of request_from emit outcome http_failure
    resolve_structured_error_payload resolve_error_message is_retryable_status
retry_test = refl

pause_test : (request browser client fetching idle).1.slept ≡ 200 ∷ []
unfolding request max_retries_of request_from emit outcome http_failure
    resolve_structured_error_payload resolve_error_message is_retryable_status
pause_test = refl

-- The timer's abort is a string, so the code takes it for a failure of the network.
aborted_test :
    outcome 8_000 aborted
    ≡ err (transport_failure (codes "NETWORK") (codes "网络异常") "network_exception")
unfolding outcome rejection
aborted_test = refl

request-IsCall_example :
    IsCall browser
      (or_default fetching.timeout_ms client.timeout_ms)
      (max_retries_of client fetching)
      (or_default fetching.retry_backoff_ms 200)
      0
      (emit browser start 0 none none idle)
      (request browser client fetching idle)
request-IsCall_example = request-IsCall browser client fetching idle

request-not_get_example : (request browser client posting idle).1.fetched ≡ idle.fetched + 1
request-not_get_example = request-not_get browser client posting post idle refl (λ e. cc) refl

abbrev three : List ℕ
three = 7 ∷ 8 ∷ 9 ∷ []

abbrev two_at_once : CollectAllEventsOptions
two_at_once = record { page_size = some 2; max_pages = none; max_records = none }

abbrev server : FetchEventsPage ℕ
server p limit offset = ok (page_of three limit offset)

collect_all_events-all_example : collect_all_events server (λ p. false) two_at_once ≡ ok three
collect_all_events-all_example =
    collect_all_events-all server (λ p. false) three two_at_once (λ p limit offset. refl)
      (λ p. refl) (omega arith) (omega arith) (omega arith)

abbrev form : Bip21FormInput
form = record { address = codes " soulon1abc"; amount = codes " "; memo = codes "tea " }

form-IsFilled : IsFilled form
unfolding is_well_formed trim trim_start trim_end cons_trimmed is_space codes
form-IsFilled = record { address_valid = refl; amount_valid = tt; memo_clean = refl }

-- The home page with the form filled in.
abbrev filled_home : HomePage
filled_home = record (home (record { storage = none; session = none; invalid_reason = [] })) {
  form = form;
}

handle_parse_bip21-handle_generate_bip21_example :
    (uri : Text) × (create_bip21_payment_uri simple low form ≡ ok uri)
    × (handle_parse_bip21 simple low (handle_generate_bip21 simple low filled_home)
        ≡ record filled_home {
          form = trimmed_form form;
          bip21_input = uri;
          generated_uri = uri;
          bip21_error = [];
          copy_status = [];
        })
handle_parse_bip21-handle_generate_bip21_example =
    handle_parse_bip21-handle_generate_bip21 simple low filled_home simple-IsSearchParams low-keeps
      form-IsFilled
