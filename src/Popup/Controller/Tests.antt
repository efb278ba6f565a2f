-- ===== src/Popup/Controller/Tests.antt =====
-- Runs of the popup, and its theorems at concrete inputs.
use soulon_wallet.Prelude.{
  true, false, map, ascii_lower, Text, codes, List, [], ◌∷◌, ◌≡◌, ◌↔◌, refl, trim, strip_prefix,
  split_at_first, is_space, trim_start, trim_end, cons_trimmed, length,
}
use soulon_wallet.Popup.Types.{PopupState, send_confirm, send_amount, send_address}
use soulon_wallet.Popup.Store.{
  initial_state, push, pop_to_base, reset_send_feedback, update_send_draft, set_send_submitting,
  set_send_feedback, set_send_errors,
}
use soulon_wallet.Popup.Store.Base.{get_base_and_overlay-pop_to_base}
use soulon_wallet.Popup.Screens.{
  get_base_and_overlay, validate_send_draft, has_errors, is_cosmos_address, is_decimal,
  format_address_short,
}
use soulon_wallet.Popup.Screens.Draft.{IsSendable, validate_send_draft-IsSendable}
use soulon_wallet.Popup.Controller.{
  last, open_search, search_over, open_send, close_by_behavior, close_with, close_top, reject_draft,
  go_send_next, submit_send, finish_send, press_escape, copied_address, UiEvent, handle, run,
}
use soulon_wallet.Popup.Controller
use soulon_wallet.Popup.Controller.Stack.{HasRoot, run-HasRoot}
use soulon_wallet.Popup.Controller.Submit.{IsSending, handle-IsSending}

abbrev low : Text → Text
low = map ascii_lower

-- A transfer from the first screen to its confirmation.
abbrev transfer : List UiEvent
transfer =
    Controller.send_clicked
    ∷ Controller.send_next_clicked send_address
    ∷ Controller.to_typed (codes " COSMOS1qqqqqqqqqqqqqqqqqqqqqq ")
    ∷ Controller.send_next_clicked send_amount
    ∷ Controller.amount_typed (codes "0.50")
    ∷ Controller.send_next_clicked send_confirm
    ∷ Controller.send_submitted
    ∷ []

transfer_test : (run low transfer initial_state).send_submitting ≡ true
unfolding run handle open_send go_send_next submit_send push update_send_draft reset_send_feedback
    set_send_errors set_send_submitting set_send_feedback reject_draft validate_send_draft
    is_cosmos_address is_decimal trim is_space trim_start trim_end cons_trimmed codes strip_prefix
    split_at_first
transfer_test = refl

depth_test : length (run low transfer initial_state).stack ≡ 5
unfolding run handle open_send go_send_next submit_send push update_send_draft reset_send_feedback
    set_send_errors set_send_submitting set_send_feedback reject_draft validate_send_draft
    is_cosmos_address is_decimal trim is_space trim_start trim_end cons_trimmed codes strip_prefix
    split_at_first
depth_test = refl

format_test : format_address_short (codes "cosmos1abcdefgh") ≡ codes "cosmos1a...efgh"
unfolding format_address_short codes
format_test = refl

abbrev initial_HasRoot : HasRoot initial_state
initial_HasRoot = record { rest = []; rooted = refl }

run-HasRoot_example : HasRoot (run low transfer initial_state)
run-HasRoot_example = run-HasRoot low transfer initial_state initial_HasRoot

handle-IsSending_example :
    ((handle low Controller.send_submitted initial_state).send_submitting ≡ true)
    ↔ IsSending low Controller.send_submitted initial_state
handle-IsSending_example = handle-IsSending low Controller.send_submitted initial_state

validate_send_draft-IsSendable_example :
    (has_errors (validate_send_draft low initial_state) ≡ false)
    ↔ IsSendable low initial_state.send_draft
validate_send_draft-IsSendable_example = validate_send_draft-IsSendable low initial_state

-- The stack with a transfer begun, over the detail of a token.
abbrev begun : PopupState
begun = run low (Controller.token_clicked (codes "token-2") ∷ transfer) initial_state

get_base_and_overlay-pop_to_base_example : get_base_and_overlay (pop_to_base begun).stack ≡ record {
  base = (get_base_and_overlay begun.stack).base;
  overlay = [];
  transparent_overlay = [];
}
get_base_and_overlay-pop_to_base_example = get_base_and_overlay-pop_to_base begun
