-- ===== src/App/Session/Reload.antt =====
-- wallet-app/src/auth: the session in memory and the one in the storage, over every sequence of events.
use soulon_wallet.Prelude.{
  ℕ, ◌+◌, trim, ltb, ◌==◌, leb, ◌||◌, false, if◌then◌else◌, is_empty, or_default, Text, codes, List,
  [], ◌∷◌, Option, none, some, ◌≡◌, refl, inl, inr, Bool-cases,
}
use soulon_wallet.App.Session.{
  AuthSession, StoredSession, Json, default_session_ttl_ms, Auth, AuthEvent, is_valid_session,
  restore, parse_stored_session, open_app, tick, sign_in, sign_out, clear_invalid_reason, step, run,
}
use soulon_wallet.App.Session

-- `JSON.parse` reads back what `JSON.stringify` writes, which is not empty.
pub record ReadsBack (json : Json) : Type 0 where
  pub parse-stringify :
      (s : AuthSession)
      → json.parse (json.stringify s)
        ≡ some (record { account_id = some s.account_id; expires_at = some s.expires_at })
  pub is_empty-stringify : (s : AuthSession) → is_empty (json.stringify s) ≡ false

-- What a session is worth when the page is loaded at some time.
abbrev pub still_valid : ℕ → Option AuthSession → Option AuthSession
still_valid now none = none
still_valid now (some s) =
    if is_empty s.account_id || (s.expires_at == 0 || leb s.expires_at now) then none else some s

-- At each time, the storage gives the session in memory, unless that is no longer valid.
abbrev Agrees : Json → Auth → Type 0
Agrees json auth =
    (now : ℕ) → (parse_stored_session json now auth.storage).session ≡ still_valid now auth.session

module _ (json : Json) where
  none-Agrees :
      (reason : Text)
      → Agrees json (record { storage = none; session = none; invalid_reason = reason })
  unfolding parse_stored_session
  none-Agrees reason now = refl

  -- What a stored entry is worth.
  entry-still_valid :
      (now : ℕ) (raw : Text) (parsed : StoredSession)
      → json.parse raw ≡ some parsed
      → is_empty raw ≡ false
      → (parse_stored_session json now (some raw)).session
        ≡ still_valid now (
            some (record {
              account_id = or_default parsed.account_id [];
              expires_at = or_default parsed.expires_at 0;
            }))
  unfolding parse_stored_session restore is_valid_session
  entry-still_valid now raw parsed read full =
      let expires_at = or_default parsed.expires_at 0 in
      elim (Bool-cases
        (is_empty (or_default parsed.account_id []) || (expires_at == 0 || leb expires_at now))) [
          | inl lost ↦ rw (full, read, lost) refl
          | inr kept ↦ rw (full, read, kept) refl
        ]

  restore-Agrees :
      (t : ℕ) (raw : Text) (parsed : Option StoredSession)
      → json.parse raw ≡ parsed
      → is_empty raw ≡ false
      → (reason : Text)
      → Agrees json (record {
        storage = (restore t raw parsed).storage;
        session = (restore t raw parsed).session;
        invalid_reason = reason;
      })
  unfolding restore
  restore-Agrees t raw none read full reason = none-Agrees reason
  restore-Agrees t raw (some parsed) read full reason = λ now.
      elim (Bool-cases (is_valid_session t parsed)) [
        | inl kept ↦ rw (kept) (entry-still_valid now raw parsed read full)
        | inr lost ↦ rw (lost) (none-Agrees reason now)
      ]

  open_app-Agrees : (t : ℕ) (storage : Option Text) → Agrees json (open_app json t storage)
  unfolding open_app parse_stored_session
  open_app-Agrees t none now = refl
  open_app-Agrees t (some raw) now = elim (Bool-cases (is_empty raw)) [
    | inl blank ↦ rw (blank, blank) refl
    | inr full ↦ rw (full) (restore-Agrees t raw (json.parse raw) refl full [] now)
  ]

  tick-Agrees : (t : ℕ) (auth : Auth) → Agrees json auth → Agrees json (tick t auth)
  unfolding tick
  tick-Agrees t auth h =
      elim auth.session
        as (λ session. Agrees json (elim session [
          | none ↦ auth
          | some previous ↦
              if ltb t previous.expires_at
              then auth
              else record { storage = none; session = none; invalid_reason = codes "会话已过期，请重新登录。" }
        ])) [
          | none ↦ h
          | some previous ↦ elim (Bool-cases (ltb t previous.expires_at)) [
            | inl live ↦ rw (live) h
            | inr expired ↦ rw (expired) (none-Agrees (codes "会话已过期，请重新登录。"))
          ]
        ]

  module _ (back : ReadsBack json) where
    sign_in-Agrees :
        (t : ℕ) (account_id : Text) (auth : Auth) → Agrees json (sign_in json t account_id auth)
    unfolding sign_in parse_stored_session
    sign_in-Agrees t account_id auth now =
        let next : AuthSession = record {
          account_id = trim account_id;
          expires_at = t + default_session_ttl_ms;
        } in
        entry-still_valid now (json.stringify next) _ (back.parse-stringify next)
          (back.is_empty-stringify next)

    step-Agrees : (e : AuthEvent) (auth : Auth) → Agrees json auth → Agrees json (step json e auth)
    unfolding step
    step-Agrees (Session.ticked now) auth h = tick-Agrees now auth h
    step-Agrees (Session.reloaded now) auth h = open_app-Agrees now auth.storage
    step-Agrees (Session.signed_in now account_id) auth h = sign_in-Agrees now account_id auth
    step-Agrees (Session.signed_out reason) auth h = none-Agrees (or_default reason [])
    step-Agrees Session.reason_cleared auth h = h

    run-Agrees :
        (es : List AuthEvent) (auth : Auth) → Agrees json auth → Agrees json (run json es auth)
    unfolding run
    run-Agrees [] auth h = h
    run-Agrees (e ∷ es) auth h = run-Agrees es (step json e auth) (step-Agrees e auth h)

    -- From any entry in the storage, after any sequence of events, loading the page again at any
    -- time gives the session that was in memory if its account is not empty and it has not expired,
    -- and otherwise none, provided that JSON reads back the sessions that it writes.
    pub open_app-run :
        (t : ℕ) (storage : Option Text) (es : List AuthEvent) (now : ℕ)
        → (open_app json now (run json es (open_app json t storage)).storage).session
          ≡ still_valid now (run json es (open_app json t storage)).session
    unfolding open_app
    open_app-run t storage es now =
        run-Agrees es (open_app json t storage) (open_app-Agrees t storage) now
