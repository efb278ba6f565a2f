-- ===== src/App/Client/Retry.antt =====
-- wallet-app/src/api/client.ts: how often a request is made, and what it comes to.
use mathlib.Core.List.{append_assoc}
use soulon_wallet.Prelude.{
  replicate-append, ℕ, zero, suc, ◌+◌, ◌*◌, ◌≤◌, ltb, true, ◌&&◌, if◌then◌else◌, or_default, List,
  [], ◌∷◌, ◌++◌, replicate, map, none, some, ◌≡◌, ◌≢◌, inl, inr, refl, ap, ◌∙◌, sym, arith,
  Bool-cases,
}
use soulon_wallet.Prelude.Results.{Result, ok, err, Result-cases}
use soulon_wallet.App.Errors.{ApiError}
use soulon_wallet.App.Client.{
  RequestLifecycleEvent, HttpMethod, get, RequestOptions, Payload, Failure, Stage, start, retry,
  success, failure, Trace, Browser, ApiClient, outcome, emit, retried, fetched_once, status_of,
  attribution_of, request_from, max_retries_of, request,
}

-- The result of a call whose last attempt came to this, and the event that reports it.
unfoldable pub verdict : Result Failure Payload → Result ApiError Payload
verdict (ok payload) = ok payload
verdict (err f) = err f.error

unfoldable pub last_stage : Result Failure Payload → Stage
last_stage (ok payload) = success
last_stage (err f) = failure

-- The pauses before the attempts behind `a`, the newest first.
unfoldable pub pauses : ℕ → ℕ → ℕ → List ℕ
pauses b a zero = []
pauses b a (suc n) = pauses b (a + 1) n ++ b * (a + 1) ∷ []

abbrev pub stages : Trace → List Stage
stages t = map (λ e. e.stage) t.events

-- From attempt `a` on, `n` attempts were retried, and the next one starts in the state `before`: each
-- of them failed, in the state that the one in front of it led to, and its failure is retryable.
abbrev pub Retried : Browser → ℕ → ℕ → ℕ → ℕ → ℕ → Trace → Trace → Type 0
Retried browser timeout_ms max_retries backoff a zero t before = before ≡ t
Retried browser timeout_ms max_retries backoff a (suc n) t before =
    (f : Failure) × (outcome timeout_ms (browser.fetch t) ≡ err f)
    × (f.error.retryable ≡ true)
    × Retried browser timeout_ms max_retries backoff (a + 1) n
        (retried browser timeout_ms max_retries backoff a f
          (fetched_once browser timeout_ms max_retries backoff t))
        before

-- The call went on from attempt `a` with `n` more attempts, each behind a retryable failure. The
-- last one started in the state `before`, which is that of the end without the last fetch and the
-- last event, and came to the result: a success, a failure that is not retryable, or the failure of
-- the last attempt allowed.
pub record IsCall (browser : Browser) (timeout_ms max_retries backoff a : ℕ) (t : Trace)
    (r : Result ApiError Payload × Trace) : Type 0 where
  pub n : ℕ
  pub within : a + n ≤ max_retries
  pub before : Trace
  pub caused : Retried browser timeout_ms max_retries backoff a n t before
  pub fetched_before : before.fetched ≡ t.fetched + n
  pub slept_before : r.1.slept ≡ before.slept
  pub final : RequestLifecycleEvent
  pub told_before : r.1.events ≡ final ∷ before.events
  pub result : r.0 ≡ verdict (outcome timeout_ms (browser.fetch before))
  pub over :
      (f : Failure)
      → outcome timeout_ms (browser.fetch before) ≡ err f
      → f.error.retryable ≡ true
      → a + n ≡ max_retries
  pub fetched : r.1.fetched ≡ t.fetched + n + 1
  pub slept : r.1.slept ≡ pauses backoff a n ++ t.slept
  pub reported :
      stages r.1
      ≡ last_stage (outcome timeout_ms (browser.fetch before)) ∷ replicate n retry ++ stages t

module _ (browser : Browser) (timeout_ms max_retries backoff : ℕ) where
  abbrev Call : ℕ → Trace → Result ApiError Payload × Trace → Type 0
  Call a t r = IsCall browser timeout_ms max_retries backoff a t r

  -- The state behind a failure that is retried.
  abbrev following : ℕ → Failure → Trace → Trace
  following a f t =
      retried browser timeout_ms max_retries backoff a f
        (fetched_once browser timeout_ms max_retries backoff t)

  -- A call that ends with this attempt.
  IsCall-stopped :
      (a : ℕ) (t : Trace) (o : Result Failure Payload) (r : Result ApiError Payload × Trace)
      → outcome timeout_ms (browser.fetch t) ≡ o
      → a ≤ max_retries
      → r.0 ≡ verdict o
      → ((f : Failure) → o ≡ err f → f.error.retryable ≡ true → a ≡ max_retries)
      → r.1.fetched ≡ t.fetched + 1
      → r.1.slept ≡ t.slept
      → (final : RequestLifecycleEvent) → r.1.events ≡ final ∷ t.events
      → stages r.1 ≡ last_stage o ∷ stages t
      → Call a t r
  unfolding pauses
  IsCall-stopped a t o r e within result over fetched slept final told reported = record {
    n = 0;
    within = omega (arith, within);
    before = t;
    caused = refl;
    fetched_before = omega arith;
    slept_before = slept;
    final = final;
    told_before = told;
    result = rw (e) result;
    over = λ f h yes. let last = over f (sym e ∙ h) yes in omega (arith, last);
    fetched = omega (arith, fetched);
    slept = slept;
    reported = rw (e) reported;
  }

  -- A call that goes on with the next attempt.
  IsCall-retried :
      (a : ℕ) (t : Trace) (f : Failure) (r : Result ApiError Payload × Trace)
      → outcome timeout_ms (browser.fetch t) ≡ err f
      → f.error.retryable ≡ true
      → Call (a + 1) (following a f t) r
      → (following a f t).fetched ≡ t.fetched + 1
      → (following a f t).slept ≡ backoff * (a + 1) ∷ t.slept
      → stages (following a f t) ≡ retry ∷ stages t
      → Call a t r
  unfolding pauses
  IsCall-retried a t f r e may c fetched slept reported = record {
    n = suc c.n;
    within = omega (arith, c.within);
    before = c.before;
    caused = (f, e, may, c.caused);
    slept_before = c.slept_before;
    final = c.final;
    told_before = c.told_before;
    fetched_before = omega (arith, c.fetched_before, fetched);
    result = c.result;
    over = λ f h yes. let last = c.over f h yes in omega (arith, last);
    fetched = omega (arith, c.fetched, fetched);
    slept =
        c.slept
        ∙ ap (λ l. pauses backoff (a + 1) c.n ++ l) slept
        ∙ sym (append_assoc (pauses backoff (a + 1) c.n) (backoff * (a + 1) ∷ []) t.slept);
    reported =
        c.reported
        ∙ ap
            (λ l.
              last_stage (outcome timeout_ms (browser.fetch c.before)) ∷ replicate c.n retry ++ l)
            reported
        ∙ ap (λ l. last_stage (outcome timeout_ms (browser.fetch c.before)) ∷ l)
            (sym (replicate-append c.n retry (stages t)));
  }

  -- The end of a call that fails.
  abbrev ended : ℕ → Failure → Trace → Result ApiError Payload × Trace
  ended a f t = (
    err f.error,
    emit browser failure a f.event_status (some (attribution_of f.failure_reason f))
        (fetched_once browser timeout_ms max_retries backoff t),
  )

  failed-IsCall :
      (a : ℕ) (t : Trace) (f : Failure) (again : Result ApiError Payload × Trace)
      → outcome timeout_ms (browser.fetch t) ≡ err f
      → a ≤ max_retries
      → (ltb a max_retries ≡ true → Call (a + 1) (following a f t) again)
      → Call a t (if f.error.retryable && ltb a max_retries then again else ended a f t)
  unfolding emit verdict last_stage
  failed-IsCall a t f again e within ih =
      elim (Bool-cases (f.error.retryable && ltb a max_retries)) [
        | inl go ↦
            rw (go) (IsCall-retried a t f again e (ground arith) (ih (ground arith)) refl refl refl)
        | inr end ↦ rw (end) (
            IsCall-stopped a t (err f) (ended a f t) e within refl
              (λ g h yes.
                let same : f ≡ g = cc (h) in
                let on : f.error.retryable ≡ true = ap (λ x. x.error.retryable) same ∙ yes in
                ground arith)
              refl refl _ refl refl)
      ]

  round-IsCall :
      (rounds a : ℕ) (t : Trace)
      → a ≤ max_retries
      → ((next : Trace)
          → ltb a max_retries ≡ true
          → Call
              (a + 1)
              next
              (request_from browser timeout_ms max_retries backoff rounds (a + 1) next))
      → Call a t (request_from browser timeout_ms max_retries backoff (suc rounds) a t)
  unfolding request_from emit verdict last_stage
  round-IsCall rounds a t within ih = elim (Result-cases (outcome timeout_ms (browser.fetch t))) [
    | inl (payload, e) ↦
        rw (request_from, e)
          (IsCall-stopped a t (ok payload)
            (
              ok payload,
              emit browser success a (status_of browser (browser.fetch t)) none
                  (fetched_once browser timeout_ms max_retries backoff t),
            )
            e within refl (λ f h yes. absurd (cc (h))) refl refl _ refl refl)
    | inr (f, e) ↦
        rw (request_from, e) (failed-IsCall a t f _ e within (λ more. ih (following a f t) more))
  ]

  request_from-IsCall :
      (rounds a : ℕ) (t : Trace)
      → a + rounds ≡ max_retries
      → Call a t (request_from browser timeout_ms max_retries backoff (suc rounds) a t)
  request_from-IsCall zero a t h =
      round-IsCall zero a t (omega (arith, h)) (λ next more. absurd (ground arith))
  request_from-IsCall (suc rounds) a t h =
      round-IsCall (suc rounds) a t (omega (arith, h))
        (λ next more. request_from-IsCall rounds (a + 1) next (omega (arith, h)))

max_retries_of-not_get :
    (client : ApiClient) (options : RequestOptions) (method : HttpMethod)
    → options.method ≡ some method
    → method ≢ get
    → options.retry_count ≡ none
    → max_retries_of client options ≡ 0
unfolding max_retries_of
max_retries_of-not_get client options get m other none_given = absurd (other refl)
max_retries_of-not_get client options method m other none_given = rw (none_given, m) refl

-- A request reports its start, then makes at most as many further attempts as it may retry, each
-- reported as a retry and behind a pause of the backoff times its number, and reports one success
-- or one failure at the end. Every attempt but the last failed with an error that may be retried, so
-- no other failure is ever followed by an attempt. The result is what the last attempt came to: a success, a failure
-- that may not be retried, or the failure of the last attempt that was allowed.
pub request-IsCall :
    (browser : Browser) (client : ApiClient) (options : RequestOptions) (t : Trace)
    → IsCall browser
        (or_default options.timeout_ms client.timeout_ms)
        (max_retries_of client options)
        (or_default options.retry_backoff_ms 200)
        0
        (emit browser start 0 none none t)
        (request browser client options t)
unfolding request
request-IsCall browser client options t =
    let one_more : max_retries_of client options + 1 ≡ suc (max_retries_of client options) =
      omega arith in
    rw (one_more) (
      request_from-IsCall browser (or_default options.timeout_ms client.timeout_ms)
        (max_retries_of client options) (or_default options.retry_backoff_ms 200)
        (max_retries_of client options) 0 (emit browser start 0 none none t) (omega arith))

-- A request that is no GET and does not ask for retries is fetched exactly once, whatever comes
-- of it.
pub request-not_get :
    (browser : Browser) (client : ApiClient) (options : RequestOptions) (method : HttpMethod)
    (t : Trace)
    → options.method ≡ some method
    → method ≢ get
    → options.retry_count ≡ none
    → (request browser client options t).1.fetched ≡ t.fetched + 1
unfolding emit
request-not_get browser client options method t m other none_given =
    let call = request-IsCall browser client options t in
    let no_retry = max_retries_of-not_get client options method m other none_given in
    omega (arith, call.within, call.fetched, no_retry)
