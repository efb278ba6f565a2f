-- ===== src/App/HomePage.antt =====
-- wallet-app/src/pages/HomePage.tsx: the check of the backend's health, and payment URIs. The
-- answers of the backend and of the clipboard are parameters.
pub mod Form
use soulon_wallet.Prelude.{
  Bool, true, false, if◌then◌else◌, is_empty, eq_text, String, Text, codes, List, [], ◌∷◌, ◌++◌,
  Option, none, some,
}
use soulon_wallet.Prelude.Results.{Result, ok, err}
use soulon_wallet.Core.Errors.{Thrown}
use soulon_wallet.Core.Bip21.{SearchParams}
use soulon_wallet.App.Errors.{RequestError, api, other_error, no_error, is_session_invalid_error}
use soulon_wallet.App.PaymentForm.{
  Bip21FormInput, create_bip21_payment_uri, parse_bip21_input, to_unified_bip21_error,
}
use soulon_wallet.App.Session.{Auth, sign_out}
use soulon_wallet.App.Login.{status_text}

pub record HomePage : Type 0 where
  pub health : Text
  pub error : Text
  pub form : Bip21FormInput
  pub bip21_input : Text
  pub generated_uri : Text
  pub bip21_error : Text
  pub copy_status : Text
  pub auth : Auth

abbrev pub home : Auth → HomePage
home auth = record {
  health = codes "未检查";
  error = [];
  form = record { address = []; amount = []; memo = [] };
  bip21_input = [];
  generated_uri = [];
  bip21_error = [];
  copy_status = [];
  auth = auth;
}

-- The answer is the `status` of the response.
unfoldable pub handle_check_health : Result RequestError Text → HomePage → HomePage
unfolding is_session_invalid_error sign_out
handle_check_health (ok status) s = record s { health = status; error = [] }
handle_check_health (err (api e)) s =
    if is_session_invalid_error e
    then record s { auth = sign_out (some (codes "会话已失效，请重新登录。")) s.auth }
    else record s {
      error =
          codes "code="
          ++ e.code
          ++ codes " status="
          ++ status_text e.status
          ++ codes " msg="
          ++ e.message;
    }
handle_check_health (err (other_error message)) s = record s { error = message }
handle_check_health (err no_error) s = record s { error = codes "未知错误" }

unfoldable pub show_uri : Result Thrown Text → HomePage → HomePage
unfolding to_unified_bip21_error
show_uri (ok uri) s = record s {
  generated_uri = uri;
  bip21_input = uri;
  copy_status = [];
  bip21_error = [];
}
show_uri (err e) s = record s { bip21_error = to_unified_bip21_error e }

unfoldable pub fill_form : Result Thrown Bip21FormInput → HomePage → HomePage
unfolding to_unified_bip21_error
fill_form (ok parsed) s = record s { form = parsed; bip21_error = [] }
fill_form (err e) s = record s { bip21_error = to_unified_bip21_error e }

module _ (params : SearchParams) (lower : Text → Text) where
  unfoldable pub handle_generate_bip21 : HomePage → HomePage
  unfolding show_uri
  handle_generate_bip21 s = show_uri (create_bip21_payment_uri params lower s.form) s

  unfoldable pub handle_parse_bip21 : HomePage → HomePage
  unfolding fill_form
  handle_parse_bip21 s = fill_form (parse_bip21_input params lower s.bip21_input) s

-- The clipboard either takes the text, or throws.
unfoldable pub handle_copy_uri : Option Thrown → HomePage → HomePage
unfolding to_unified_bip21_error
handle_copy_uri thrown s = if is_empty s.generated_uri then s else elim thrown [
  | none ↦ record s { copy_status = codes "已复制"; bip21_error = [] }
  | some e ↦ record s { copy_status = []; bip21_error = to_unified_bip21_error e }
]
