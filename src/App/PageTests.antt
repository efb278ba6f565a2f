-- ===== src/App/PageTests.antt =====
-- Runs of the session and of the login page, and their theorems at concrete inputs.
use soulon_wallet.Prelude.{
  ℕ, true, any, trim, trim_start, trim_end, cons_trimmed, is_space, Text, codes, List, [], ◌∷◌,
  Option, none, some, ◌≡◌, ◌⊎◌, refl,
}
use soulon_wallet.Prelude.Results.{ok}
use soulon_wallet.App.Session.{
  AuthSession, StoredSession, Json, Auth, AuthEvent, open_app, tick, restore, parse_stored_session,
  is_valid_session, sign_in, sign_out, clear_invalid_reason,
}
use soulon_wallet.App.Session
use soulon_wallet.App.Session.Reload.{ReadsBack, still_valid, open_app-run}
use soulon_wallet.App.Login.{
  LoginEvent, opened, submit, receive_challenge, confirm, receive_confirm, finish_confirm,
  signature_of, redirect_now, redirect_path, handle,
}
use soulon_wallet.App.Login
use soulon_wallet.App.Login.Backed.{is_accepted, is_owned, run-opened}

-- A notation for sessions: a brace, the time, and the account.
abbrev notation_of : AuthSession → Text
notation_of s = b'{' ∷ s.expires_at ∷ s.account_id

abbrev read_notation : Text → Option StoredSession
read_notation (c ∷ expires_at ∷ account_id) =
    some (record { account_id = some account_id; expires_at = some expires_at })
read_notation text = none

abbrev json : Json
json = record { stringify = notation_of; parse = read_notation }

json-ReadsBack : ReadsBack json
json-ReadsBack = record { parse-stringify = λ s. refl; is_empty-stringify = λ s. refl }

abbrev ada : Text
ada = codes "ada"

abbrev visits : List AuthEvent
visits =
    Session.signed_in 1_000 ada
    ∷ Session.ticked 11_000
    ∷ Session.reloaded 12_000
    ∷ Session.ticked 21_000
    ∷ []

open_app-run_example :
    (open_app json 30_000 (Session.run json visits (open_app json 500 none)).storage).session
    ≡ still_valid 30_000 (Session.run json visits (open_app json 500 none)).session
open_app-run_example = open_app-run json json-ReadsBack 500 none visits 30_000

reload_test :
    (Session.run json visits (open_app json 500 none)).session
    ≡ some (record { account_id = ada; expires_at = 1_801_000 })
unfolding Session.run Session.step tick open_app parse_stored_session restore is_valid_session
    sign_in trim trim_start trim_end cons_trimmed is_space codes
reload_test = refl

-- The page, without a session.
abbrev signed_out_auth : Auth
signed_out_auth = record { storage = none; session = none; invalid_reason = [] }

abbrev clicks : List LoginEvent
clicks =
    Login.account_typed (codes " ada ")
    ∷ Login.submitted
    ∷ Login.challenge_received (ok (record { request_id = codes "r1" }))
    ∷ Login.confirm_clicked 1_000
    ∷ Login.account_typed (codes "bob")
    ∷ Login.confirm_received 1_200 (ok (record { success = true }))
    ∷ []

abbrev hex : ℕ → Text
hex n = n ∷ []

-- The account that was confirmed is the one that is logged in.
login_test :
    (Login.run json hex clicks (opened signed_out_auth)).auth.session
    ≡ some (record { account_id = ada; expires_at = 1_801_200 })
unfolding Login.run handle submit receive_challenge confirm receive_confirm finish_confirm sign_in
    clear_invalid_reason trim trim_start trim_end cons_trimmed is_space codes
login_test = refl

run-opened_example :
    (((Login.run json hex clicks (opened signed_out_auth)).auth ≡ signed_out_auth)
      ⊎ (any is_accepted clicks ≡ true))
    × (is_owned (Login.run json hex clicks (opened signed_out_auth)).auth.session ≡ true)
run-opened_example = run-opened json hex signed_out_auth clicks refl
