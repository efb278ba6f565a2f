-- ===== src/App/Session.antt =====
-- wallet-app/src/auth: the session of the web application, in memory and in the browser's session
-- storage. JSON and the clock are parameters; React's setters take effect at once, and only this
-- code writes the storage's entry.
pub mod Reload
use soulon_wallet.Prelude.{
  ℕ, ◌+◌, ◌*◌, ◌==◌, leb, ltb, ◌||◌, ◌++◌, Bool, true, false, if◌then◌else◌, is_empty, is_some,
  or_default, trim, String, Text, codes, List, [], ◌∷◌, Option, none, some,
}

pub record AuthSession : Type 0 where
  pub account_id : Text
  pub expires_at : ℕ

-- What `JSON.parse` makes of the entry: the two fields, each when it is there with its type.
pub record StoredSession : Type 0 where
  pub account_id : Option Text
  pub expires_at : Option ℕ

-- `parse` has no result where `JSON.parse` throws, and where it returns null.
pub record Json : Type 0 where
  pub stringify : AuthSession → Text
  pub parse : Text → Option StoredSession

-- The state of the provider, with the storage's entry.
pub record Auth : Type 0 where
  pub storage : Option Text
  pub session : Option AuthSession
  pub invalid_reason : Text

abbrev pub default_session_ttl_ms : ℕ
default_session_ttl_ms = 30 * 60 * 1000

-- A missing field is falsy, as are an empty account and a time of 0.
unfoldable pub is_valid_session : ℕ → StoredSession → Bool
is_valid_session now parsed =
    let expires_at = or_default parsed.expires_at 0 in
    if is_empty (or_default parsed.account_id []) || (expires_at == 0 || leb expires_at now)
    then false
    else true

-- The session, and what is left in the storage.
pub record Restored : Type 0 where
  pub session : Option AuthSession
  pub storage : Option Text

unfoldable pub restore : ℕ → Text → Option StoredSession → Restored
unfolding is_valid_session
restore now raw none = record { session = none; storage = none }
restore now raw (some parsed) =
    if is_valid_session now parsed
    then record {
      session = some (record {
        account_id = or_default parsed.account_id [];
        expires_at = or_default parsed.expires_at 0;
      });
      storage = some raw;
    }
    else record { session = none; storage = none }

unfoldable pub parse_stored_session : Json → ℕ → Option Text → Restored
unfolding restore
parse_stored_session json now none = record { session = none; storage = none }
parse_stored_session json now (some raw) =
    if is_empty raw
    then record { session = none; storage = some raw }
    else restore now raw (json.parse raw)

-- The provider's first render, also when the page is loaded again.
unfoldable pub open_app : Json → ℕ → Option Text → Auth
unfolding parse_stored_session
open_app json now storage =
    let restored = parse_stored_session json now storage in
    record { storage = restored.storage; session = restored.session; invalid_reason = [] }

-- The timer, every ten seconds.
unfoldable pub tick : ℕ → Auth → Auth
tick now auth = elim auth.session [
  | none ↦ auth
  | some previous ↦
      if ltb now previous.expires_at
      then auth
      else record { storage = none; session = none; invalid_reason = codes "会话已过期，请重新登录。" }
]

unfoldable pub sign_in : Json → ℕ → Text → Auth → Auth
sign_in json now account_id auth =
    let next_session : AuthSession = record {
      account_id = trim account_id;
      expires_at = now + default_session_ttl_ms;
    } in
    record {
      storage = some (json.stringify next_session);
      session = some next_session;
      invalid_reason = [];
    }

unfoldable pub sign_out : Option Text → Auth → Auth
sign_out reason auth = record {
  storage = none;
  session = none;
  invalid_reason = or_default reason [];
}

unfoldable pub clear_invalid_reason : Auth → Auth
clear_invalid_reason auth = record auth { invalid_reason = [] }

abbrev pub is_authenticated : Auth → Bool
is_authenticated auth = is_some auth.session

pub record LoginLocationState : Type 0 where
  pub from : Text
  pub reason : Option Text

-- Where a guarded page leads: to itself, or to the login with what is to be remembered.
unfoldable pub require_auth : Text → Text → Auth → Option LoginLocationState
require_auth pathname search auth =
    if is_authenticated auth
    then none
    else some (record {
      from = pathname ++ search;
      reason = if is_empty auth.invalid_reason then none else some auth.invalid_reason;
    })

pub data AuthEvent : Type 0 where
  ticked reloaded : ℕ → AuthEvent
  signed_in : ℕ → Text → AuthEvent
  signed_out : Option Text → AuthEvent
  reason_cleared : AuthEvent

unfoldable pub step : Json → AuthEvent → Auth → Auth
unfolding open_app tick sign_in sign_out clear_invalid_reason
step json (ticked now) auth = tick now auth
step json (reloaded now) auth = open_app json now auth.storage
step json (signed_in now account_id) auth = sign_in json now account_id auth
step json (signed_out reason) auth = sign_out reason auth
step json reason_cleared auth = clear_invalid_reason auth

unfoldable pub run : Json → List AuthEvent → Auth → Auth
unfolding step
run json [] auth = auth
run json (e ∷ es) auth = run json es (step json e auth)
