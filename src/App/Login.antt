-- ===== src/App/Login.antt =====
-- wallet-app/src/pages/LoginPage.tsx: the login in two steps, against the session of
-- auth/AuthContext.tsx. The backend's answers, the clock and `toString(16)` are parameters; an
-- answer is an event of its own, with the account of the request that it answers.
pub mod Backed
use soulon_wallet.Prelude.{
  ℕ, Bool, true, false, not, ◌&&◌, ◌||◌, if◌then◌else◌, is_empty, is_some, eq_text, or_text, trim,
  Text, codes, List, [], ◌∷◌, ◌++◌, Option, none, some,
}
use soulon_wallet.Prelude.Decimal.{decimal}
use soulon_wallet.Prelude.Results.{Result, ok, err}
use soulon_wallet.App.Errors.{RequestError, api, other_error, no_error, is_session_invalid_error}
use soulon_wallet.App.Session.{
  Json, Auth, LoginLocationState, sign_in, clear_invalid_reason, is_authenticated,
}

-- The parts of the answers that the page acts on.
pub record SignatureChallengeResponse : Type 0 where
  pub request_id : Text

pub record SignatureAuthorizeResponse : Type 0 where
  pub success : Bool

pub record SignatureAuthorization : Type 0 where
  pub account_id : Text
  pub request_id : Text
  pub signature : Text

-- The page; `confirming` is the request that the handler waits for, for which the page keeps a flag.
pub record LoginState : Type 0 where
  pub account_id : Text
  pub form_error : Text
  pub requesting_challenge : Bool
  pub confirming : Option SignatureAuthorization
  pub challenge : Option SignatureChallengeResponse
  pub authorization_result : Option SignatureAuthorizeResponse
  pub auth : Auth

abbrev pub opened : Auth → LoginState
opened auth = record {
  account_id = codes "demo-user";
  form_error = [];
  requesting_challenge = false;
  confirming = none;
  challenge = none;
  authorization_result = none;
  auth = auth;
}

abbrev pub status_text : Option ℕ → Text
status_text none = codes "-"
status_text (some status) = decimal status

unfoldable pub login_error : Text → RequestError → Text
unfolding is_session_invalid_error
login_error fallback (api e) =
    if is_session_invalid_error e
    then codes "会话已失效，请刷新页面后重试。"
    else codes "code="
      ++ e.code
      ++ codes " status="
      ++ status_text e.status
      ++ codes " msg="
      ++ e.message
login_error fallback (other_error message) = message
login_error fallback no_error = fallback

-- `handleSubmit`, up to its request.
unfoldable pub submit : LoginState → LoginState
submit s =
    if is_empty (trim s.account_id)
    then record s { form_error = codes "请输入登录账号。" }
    else record s { requesting_challenge = true }

unfoldable pub receive_challenge :
    Result RequestError SignatureChallengeResponse → LoginState → LoginState
unfolding login_error
receive_challenge (ok response) s = record s {
  challenge = some response;
  authorization_result = none;
  form_error = [];
  requesting_challenge = false;
}
receive_challenge (err e) s = record s {
  form_error = login_error (codes "授权请求失败") e;
  requesting_challenge = false;
}

-- `${challenge.requestId}.${normalizedAccountId}.${Date.now().toString(16)}`.
unfoldable pub signature_of : (ℕ → Text) → ℕ → Text → SignatureChallengeResponse → Text
signature_of hex now account_id challenge =
    challenge.request_id ++ codes "." ++ account_id ++ codes "." ++ hex now

-- `handleConfirmSignature`, up to its request.
unfoldable pub confirm : (ℕ → Text) → ℕ → LoginState → LoginState
unfolding signature_of
confirm hex now s = elim s.challenge [
  | none ↦ record s { form_error = codes "请先发起授权请求。" }
  | some challenge ↦
      if is_empty (trim s.account_id)
      then record s { form_error = codes "请输入登录账号。" }
      else record s {
        confirming = some (record {
          account_id = trim s.account_id;
          request_id = challenge.request_id;
          signature = signature_of hex now (trim s.account_id) challenge;
        });
      }
]

-- The answer to a confirmation with an account, at some time.
unfoldable pub finish_confirm :
    Json
    → ℕ
    → SignatureAuthorization
    → Result RequestError SignatureAuthorizeResponse
    → LoginState
    → LoginState
unfolding sign_in clear_invalid_reason login_error
finish_confirm json now request (ok result) s =
    if result.success
    then record s {
      authorization_result = some result;
      auth = clear_invalid_reason (sign_in json now request.account_id s.auth);
      form_error = [];
      confirming = none;
    }
    else record s {
      authorization_result = some result;
      form_error = codes "签名授权未通过，请重试。";
      confirming = none;
    }
finish_confirm json now request (err e) s = record s {
  form_error = login_error (codes "签名确认失败") e;
  confirming = none;
}

-- Only a request that is under way is answered.
unfoldable pub receive_confirm :
    Json → ℕ → Result RequestError SignatureAuthorizeResponse → LoginState → LoginState
unfolding finish_confirm
receive_confirm json now answer s = elim s.confirming [
  | none ↦ s
  | some request ↦ finish_confirm json now request answer s
]

-- `locationState?.from && locationState.from !== '/login' ? locationState.from : '/'`.
unfoldable pub redirect_path : Option LoginLocationState → Text
redirect_path none = codes "/"
redirect_path (some location) =
    if not (is_empty location.from) && not (eq_text location.from (codes "/login"))
    then location.from
    else codes "/"

-- Where the page leads at once, without a login on it; after one, it waits for 800 ms.
unfoldable pub redirect_now : Option LoginLocationState → LoginState → Option Text
unfolding redirect_path
redirect_now location s = elim s.authorization_result [
  | none ↦ if is_authenticated s.auth then some (redirect_path location) else none
  | some result ↦
      if is_authenticated s.auth && not result.success then some (redirect_path location) else none
]

pub data LoginEvent : Type 0 where
  account_typed : Text → LoginEvent
  submitted : LoginEvent
  challenge_received : Result RequestError SignatureChallengeResponse → LoginEvent
  confirm_clicked : ℕ → LoginEvent
  confirm_received : ℕ → Result RequestError SignatureAuthorizeResponse → LoginEvent

-- Both buttons are disabled while a request is under way, and the second without a challenge.
abbrev pub is_waiting : LoginState → Bool
is_waiting s = s.requesting_challenge || is_some s.confirming

unfoldable pub handle : Json → (ℕ → Text) → LoginEvent → LoginState → LoginState
unfolding submit receive_challenge confirm receive_confirm
handle json hex (account_typed text) s = record s { account_id = text }
handle json hex submitted s = if is_waiting s then s else submit s
handle json hex (challenge_received answer) s =
    let received = receive_challenge answer s in if s.requesting_challenge then received else s
handle json hex (confirm_clicked now) s =
    if is_waiting s || not (is_some s.challenge) then s else confirm hex now s
handle json hex (confirm_received now answer) s = receive_confirm json now answer s

unfoldable pub run : Json → (ℕ → Text) → List LoginEvent → LoginState → LoginState
unfolding handle
run json hex [] s = s
run json hex (e ∷ es) s = run json hex es (handle json hex e s)
