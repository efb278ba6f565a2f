-- ===== src/App/WalletApi.antt =====
-- wallet-app/src/api/walletApi.ts: the requests of the backend's interface, over App.Client. What a
-- JSON value is as a page of events is a parameter, as is the page's URL, which the client builds.
pub mod Unauthorized
use soulon_wallet.Prelude.{ℕ, Text, codes, Option, none, some}
use soulon_wallet.Prelude.Results.{Result, ok, err}
use soulon_wallet.App.Errors.{ApiError, RequestError, api}
use soulon_wallet.App.Client.{RequestOptions, get, Payload, Trace, Browser, ApiClient, request}
use soulon_wallet.App.Export.{IndexerEventsResponse}
use soulon_wallet.App.Csv.{IndexerEvent}

pub record IndexerEventsRequestOptions : Type 0 where
  pub retry_count : Option ℕ
  pub retry_backoff_ms : Option ℕ

-- The promise of a request, for the code that awaits it.
abbrev pub awaited {ℓ} :
    {A : Type ℓ} → (Payload → A) → Result ApiError Payload → Result RequestError A
awaited decode (ok payload) = ok (decode payload)
awaited decode (err e) = err (api e)

module _ (browser : Browser) (client : ApiClient) where
  -- `getIndexerEvents` and `getIndexerEventById`, which differ in the URL and in what they return.
  unfoldable pub get_indexer {ℓ} :
      {A : Type ℓ}
      → (Payload → A)
      → IndexerEventsRequestOptions
      → Trace
      → Result RequestError A × Trace
  unfolding request
  get_indexer decode options t =
      let answered =
        request browser client
          (record {
            method = some get;
            timeout_ms = none;
            retry_count = options.retry_count;
            retry_backoff_ms = options.retry_backoff_ms;
          })
          t in
      (awaited decode answered.0, answered.1)
