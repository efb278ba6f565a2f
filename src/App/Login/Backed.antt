-- ===== src/App/Login/Backed.antt =====
-- wallet-app/src/pages/LoginPage.tsx: what it takes to be logged in.
use soulon_wallet.Prelude.{
  ℕ, Bool, true, false, not, ◌||◌, if◌then◌else◌, is_empty, is_some, any, trim, Text, codes, List,
  [], ◌∷◌, Option, none, some, ◌≡◌, refl, ap, ◌∙◌, inl, inr, ◌⊎◌, arith, Bool-cases,
}
use soulon_wallet.Prelude.Trim.{trim_idem}
use soulon_wallet.Prelude.Results.{Result, ok, err}
use soulon_wallet.App.Errors.{RequestError}
use soulon_wallet.App.Session.{AuthSession, Json, Auth, sign_in, clear_invalid_reason}
use soulon_wallet.App.Login.{
  SignatureChallengeResponse, SignatureAuthorizeResponse, SignatureAuthorization, LoginState,
  LoginEvent, opened, submit, receive_challenge, confirm, finish_confirm, receive_confirm,
  signature_of, handle, is_waiting, run,
}
use soulon_wallet.App.Login

-- The backend accepts a signature.
abbrev pub is_accepted : LoginEvent → Bool
is_accepted (Login.confirm_received now (ok result)) = result.success
is_accepted event = false

abbrev pub is_owned : Option AuthSession → Bool
is_owned none = true
is_owned (some session) = not (is_empty session.account_id)

abbrev is_named : Option SignatureAuthorization → Bool
is_named none = true
is_named (some request) = not (is_empty (trim request.account_id))

-- The session is that of before, and the request under way names an account.
abbrev Kept : Auth → LoginState → Type 0
Kept auth s = (s.auth ≡ auth) × (is_named s.confirming ≡ true)

-- The request under way and the session both name an account.
abbrev IsSound : LoginState → Type 0
IsSound s = (is_named s.confirming ≡ true) × (is_owned s.auth.session ≡ true)

if-Kept :
    (auth : Auth) (flag : Bool) (s t : LoginState)
    → Kept auth s
    → Kept auth t
    → Kept auth (if flag then s else t)
if-Kept auth true s t h k = h
if-Kept auth false s t h k = k

Kept-IsSound : (s t : LoginState) → IsSound s → Kept s.auth t → IsSound t
Kept-IsSound s t h kept = (kept.1, ap (λ auth. is_owned auth.session) kept.0 ∙ h.1)

submit-Kept : (auth : Auth) (s : LoginState) → Kept auth s → Kept auth (submit s)
unfolding submit
submit-Kept auth s h = if-Kept auth (is_empty (trim s.account_id)) _ _ h h

receive_challenge-Kept :
    (auth : Auth) (answer : Result RequestError SignatureChallengeResponse) (s : LoginState)
    → Kept auth s
    → Kept auth (receive_challenge answer s)
unfolding receive_challenge
receive_challenge-Kept auth (ok response) s h = h
receive_challenge-Kept auth (err e) s h = h

confirm-Kept :
    (hex : ℕ → Text) (now : ℕ) (auth : Auth) (s : LoginState)
    → Kept auth s
    → Kept auth (confirm hex now s)
unfolding confirm
confirm-Kept hex now auth s h =
    elim s.challenge
      as (λ c. Kept auth (elim c [
        | none ↦ record s { form_error = codes "请先发起授权请求。" }
        | some challenge ↦
            if is_empty (trim s.account_id)
            then record s { form_error = codes "请输入登录账号。" }
            else record s {
              confirming = some (record {
                account_id = trim s.account_id;
                request_id = challenge.request_id;
                signature = signature_of hex now (trim s.account_id) challenge;
              });
            }
      ])) [
        | none ↦ h
        | some challenge ↦ elim (Bool-cases (is_empty (trim s.account_id))) [
          | inl blank ↦ rw (blank) h
          | inr given ↦ rw (given) (h.0, rw (trim_idem s.account_id, given) refl)
        ]
      ]

module _ (json : Json) where
  finish_confirm-Kept :
      (now : ℕ) (request : SignatureAuthorization)
      (answer : Result RequestError SignatureAuthorizeResponse) (s : LoginState)
      → is_accepted (Login.confirm_received now answer) ≡ false
      → Kept s.auth (finish_confirm json now request answer s)
  unfolding finish_confirm
  finish_confirm-Kept now request (ok result) s h = rw (h) (refl, refl)
  finish_confirm-Kept now request (err e) s h = (refl, refl)

  receive_confirm-Kept :
      (now : ℕ) (answer : Result RequestError SignatureAuthorizeResponse) (s : LoginState)
      → is_accepted (Login.confirm_received now answer) ≡ false
      → is_named s.confirming ≡ true
      → Kept s.auth (receive_confirm json now answer s)
  unfolding receive_confirm
  receive_confirm-Kept now answer s h named =
      elim s.confirming
        as (λ c.
          Kept s.auth
            (elim c [ none ↦ s | some request ↦ finish_confirm json now request answer s ])) [
              | none ↦ (refl, named)
              | some request ↦ finish_confirm-Kept now request answer s h
            ]

  -- A request that names an account opens a session with one.
  finish_confirm-IsSound :
      (now : ℕ) (request : SignatureAuthorization)
      (answer : Result RequestError SignatureAuthorizeResponse) (s : LoginState)
      → is_named (some request) ≡ true
      → is_owned s.auth.session ≡ true
      → IsSound (finish_confirm json now request answer s)
  unfolding finish_confirm sign_in clear_invalid_reason
  finish_confirm-IsSound now request (ok result) s named owned = elim (Bool-cases result.success) [
    | inl accepted ↦ rw (accepted) (refl, named)
    | inr refused ↦ rw (refused) (refl, owned)
  ]
  finish_confirm-IsSound now request (err e) s named owned = (refl, owned)

  receive_confirm-IsSound :
      (now : ℕ) (answer : Result RequestError SignatureAuthorizeResponse) (s : LoginState)
      → IsSound s
      → IsSound (receive_confirm json now answer s)
  unfolding receive_confirm
  receive_confirm-IsSound now answer s h =
      elim s.confirming
          as (λ c.
            is_named c ≡ true
            → IsSound
                (elim c [ none ↦ s | some request ↦ finish_confirm json now request answer s ])) [
                  | none ↦ λ named. h
                  | some request ↦ λ named. finish_confirm-IsSound now request answer s named h.1
                ]
        h.0

  module _ (hex : ℕ → Text) where
    handle-Kept :
        (e : LoginEvent) (s : LoginState)
        → is_accepted e ≡ false
        → is_named s.confirming ≡ true
        → Kept s.auth (handle json hex e s)
    unfolding handle
    handle-Kept (Login.account_typed text) s h named = (refl, named)
    handle-Kept Login.submitted s h named =
        if-Kept s.auth (is_waiting s) s _ (refl, named) (submit-Kept s.auth s (refl, named))
    handle-Kept (Login.challenge_received answer) s h named =
        if-Kept s.auth s.requesting_challenge _ s
          (receive_challenge-Kept s.auth answer s (refl, named)) (refl, named)
    handle-Kept (Login.confirm_clicked now) s h named =
        if-Kept s.auth (is_waiting s || not (is_some s.challenge)) s _ (refl, named)
          (confirm-Kept hex now s.auth s (refl, named))
    handle-Kept (Login.confirm_received now answer) s h named =
        receive_confirm-Kept now answer s h named

    handle-IsSound : (e : LoginEvent) (s : LoginState) → IsSound s → IsSound (handle json hex e s)
    unfolding handle
    handle-IsSound (Login.confirm_received now answer) s h = receive_confirm-IsSound now answer s h
    handle-IsSound (Login.account_typed text) s h = h
    handle-IsSound Login.submitted s h =
        Kept-IsSound s (handle json hex Login.submitted s) h
          (handle-Kept Login.submitted s refl h.0)
    handle-IsSound (Login.challenge_received answer) s h =
        Kept-IsSound s (handle json hex (Login.challenge_received answer) s) h
          (handle-Kept (Login.challenge_received answer) s refl h.0)
    handle-IsSound (Login.confirm_clicked now) s h =
        Kept-IsSound s (handle json hex (Login.confirm_clicked now) s) h
          (handle-Kept (Login.confirm_clicked now) s refl h.0)

    run-IsSound : (es : List LoginEvent) (s : LoginState) → IsSound s → IsSound (run json hex es s)
    unfolding run
    run-IsSound [] s h = h
    run-IsSound (e ∷ es) s h = run-IsSound es (handle json hex e s) (handle-IsSound e s h)

    run-Kept :
        (es : List LoginEvent) (s : LoginState)
        → any is_accepted es ≡ false
        → is_named s.confirming ≡ true
        → Kept s.auth (run json hex es s)
    unfolding run
    run-Kept [] s h named = (refl, named)
    run-Kept (e ∷ es) s h named =
        let first : is_accepted e ≡ false = ground arith in
        let later : any is_accepted es ≡ false = ground arith in
        let kept = handle-Kept e s first named in
        let rest = run-Kept es (handle json hex e s) later kept.1 in (rest.0 ∙ kept.0, rest.1)

    -- From the login page as it opens, any sequence of clicks, texts and answers leaves the session,
    -- its entry in the storage and the reason as they were, or the backend has accepted a signature;
    -- and the session never gets an empty account, if it had none to begin with.
    pub run-opened :
        (auth : Auth) (es : List LoginEvent)
        → is_owned auth.session ≡ true
        → (((run json hex es (opened auth)).auth ≡ auth) ⊎ (any is_accepted es ≡ true))
          × (is_owned (run json hex es (opened auth)).auth.session ≡ true)
    run-opened auth es owned =
        let sound = run-IsSound es (opened auth) (refl, owned) in
        elim (Bool-cases (any is_accepted es)) [
          | inl accepted ↦ (inr accepted, sound.1)
          | inr refused ↦ (inl (run-Kept es (opened auth) refused refl).0, sound.1)
        ]
