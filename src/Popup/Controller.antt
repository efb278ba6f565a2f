-- ===== src/Popup/Controller.antt =====
-- wallet-extension/src/popup/popup_controller.ts: what the popup does on each event. An event
-- carries what the handler reads from the page. Any event may come at any time, also one whose
-- button is not on the screen. The callback of the timer in `submitSend` is an event of its own.
pub mod Stack
pub mod Submit
mod Tests
use soulon_wallet.Prelude.{
  leb, Bool, true, false, not, ◌&&◌, ◌||◌, if◌then◌else◌, is_some, is_empty, eq_text, find, length,
  any, Text, codes, List, [], ◌∷◌, ◌++◌, Option, none, some,
}
use soulon_wallet.Popup.Types
use soulon_wallet.Popup.Types.{
  PopupTabKey, CloseBehavior, go_back, pop_root_once, pop_root_twice, reset, PopupScreenId,
  PopupPresentation, PopupRoute, pushed, modal, transparent_modal, SendDraftErrors, neutral, error,
  success, PopupState,
}
use soulon_wallet.Popup.Store.{
  no_errors, drop_last, set_active_tab, push, pop, pop_to_root, pop_to_base, set_locked,
  set_active_wallet, set_search_input, reset_send_feedback, update_send_draft, token_id_key, to_key,
  amount_key, memo_key, set_send_submitting, set_send_feedback, set_send_errors,
}
use soulon_wallet.Popup.Screens.{
  Layers, get_base_and_overlay, validate_send_draft, has_errors, is_modal,
}

abbrev pub route_of : PopupScreenId → PopupPresentation → Text → Option Text → PopupRoute
route_of id presentation title params = record {
  id = id;
  presentation = presentation;
  title = some title;
  show_close = false;
  close_behavior = none;
  params = params;
}

abbrev pub modal_of : PopupScreenId → Text → Option CloseBehavior → PopupRoute
modal_of id title behavior = record {
  id = id;
  presentation = modal;
  title = some title;
  show_close = true;
  close_behavior = behavior;
  params = none;
}

abbrev pub search_route : PopupRoute
search_route = record {
  id = Types.search_screen;
  presentation = transparent_modal;
  title = some (codes "Search");
  show_close = true;
  close_behavior = none;
  params = none;
}

unfoldable pub last : List PopupRoute → Option PopupRoute
last [] = none
last (r ∷ []) = some r
last (r ∷ s ∷ rs) = last (s ∷ rs)

abbrev pub is_search : PopupRoute → Bool
is_search route = elim route.id [ Types.search_screen ↦ true | _ ↦ false ]

-- With the transparent route on top, which is undefined when there is none.
unfoldable pub search_over : Option PopupRoute → PopupState → PopupState
unfolding push
search_over none s = push search_route s
search_over (some top) s = if is_search top then s else push search_route s

unfoldable pub open_search : PopupState → PopupState
unfolding get_base_and_overlay last search_over
open_search state = search_over (last (get_base_and_overlay state.stack).transparent_overlay) state

unfoldable pub open_send : PopupState → PopupState
unfolding reset_send_feedback push
open_send state =
    push (modal_of Types.send_token (codes "/popup/send/token") (some reset))
      (reset_send_feedback state)

unfoldable pub close_by_behavior : CloseBehavior → PopupState → PopupState
unfolding pop pop_to_base
close_by_behavior go_back s = pop s
close_by_behavior pop_root_once s = pop_to_base s
close_by_behavior pop_root_twice s = pop_to_base s
close_by_behavior reset s = pop_to_base s

-- `top.showClose && top.closeBehavior`.
abbrev pub top_behavior : Option PopupRoute → Option CloseBehavior
top_behavior none = none
top_behavior (some top) = if top.show_close then top.close_behavior else none

unfoldable pub close_with : Option CloseBehavior → PopupState → PopupState
unfolding close_by_behavior pop
close_with (some behavior) s = close_by_behavior behavior s
close_with none s = pop s

unfoldable pub close_top : PopupState → PopupState
unfolding close_with last
close_top state =
    let closed = close_with (top_behavior (last state.stack)) state in
    if leb (length state.stack) 1 then state else closed

unfoldable pub reject_draft : SendDraftErrors → PopupState → PopupState
unfolding set_send_errors set_send_feedback
reject_draft errors s = set_send_feedback (codes "字段校验未通过，请修正后继续。") error (set_send_errors errors s)

-- `next` is the screen that the button names; another one than these three does nothing more.
-- The errors that stay beside the other fields are those from before the reset.
unfoldable pub go_send_next : (Text → Text) → PopupScreenId → PopupState → PopupState
unfolding reset_send_feedback validate_send_draft push set_send_errors reject_draft
go_send_next lower next state =
    let cleared = reset_send_feedback state in
    let errors = validate_send_draft lower state in
    elim next [
      | Types.send_address ↦
          push (modal_of Types.send_address (codes "/popup/send/address") (some pop_root_twice))
            cleared
      | Types.send_amount ↦
          if is_some errors.to
          then reject_draft errors cleared
          else push (modal_of Types.send_amount (codes "/popup/send/amount") (some pop_root_twice))
              (set_send_errors (record (state.send_draft_errors) { to = none }) cleared)
      | Types.send_confirm ↦
          if has_errors errors
          then reject_draft errors cleared
          else push
              (modal_of Types.send_confirm (codes "/popup/send/confirm") (some pop_root_twice))
              (set_send_errors no_errors cleared)
      | _ ↦ cleared
    ]

unfoldable pub submit_send : (Text → Text) → PopupState → PopupState
unfolding validate_send_draft reject_draft set_send_submitting set_send_feedback
submit_send lower state =
    let errors = validate_send_draft lower state in
    if has_errors errors
    then reject_draft errors state
    else set_send_feedback (codes "交易广播中，请稍候...") neutral (set_send_submitting true state)

-- The callback of the timer.
unfoldable pub finish_send : PopupState → PopupState
unfolding set_send_submitting set_send_feedback
finish_send state =
    set_send_feedback (codes "交易已提交，正在等待链上确认。") success (set_send_submitting false state)

-- The address that the `copy-address` button puts on the clipboard.
unfoldable pub copied_address : PopupState → Option Text
copied_address state =
    elim (find (λ wallet. eq_text wallet.id state.active_wallet_id) state.wallets) [
      | none ↦ none
      | some wallet ↦ some wallet.address
    ]

-- The slash counts only outside of a text field (`shouldHandleSlash`).
pub data UiEvent : Type 0 where
  tab_clicked : PopupTabKey → UiEvent
  token_clicked activity_clicked : Text → UiEvent
  collectible_clicked back_clicked close_clicked mask_clicked : UiEvent
  settings_clicked wallet_drawer_clicked avatar_clicked open_settings_clicked receive_clicked :
      UiEvent
  lock_clicked unlock_clicked : UiEvent
  wallet_selected search_typed to_typed amount_typed memo_typed send_token_selected : Text → UiEvent
  send_clicked send_prev_clicked send_submitted timer_fired : UiEvent
  send_closed : CloseBehavior → UiEvent
  send_next_clicked : PopupScreenId → UiEvent
  slash_pressed escape_pressed : UiEvent

-- Escape closes the top when something transparent is on show or the stack has a modal.
unfoldable pub press_escape : PopupState → PopupState
unfolding close_top get_base_and_overlay
press_escape s =
    let closed = close_top s in
    if not (is_empty (get_base_and_overlay s.stack).transparent_overlay)
    then closed
    else if any (λ route. is_modal route.presentation) s.stack
    then closed
    else s

unfoldable pub handle : (Text → Text) → UiEvent → PopupState → PopupState
unfolding set_active_tab push pop pop_to_root set_locked set_active_wallet set_search_input
    reset_send_feedback update_send_draft close_top close_by_behavior open_search open_send
    go_send_next submit_send finish_send press_escape
handle lower (tab_clicked tab) s = set_active_tab tab s
handle lower (token_clicked id) s =
    push (route_of Types.token_detail pushed (codes "Token") (some id)) s
handle lower (activity_clicked id) s =
    push (route_of Types.activity_detail pushed (codes "Activity") (some id)) s
handle lower collectible_clicked s =
    push (route_of Types.collectibles_detail pushed (codes "Collectible") none) s
handle lower back_clicked s = pop s
handle lower close_clicked s = close_top s
handle lower mask_clicked s = close_top s
handle lower settings_clicked s = push (modal_of Types.settings (codes "Settings") none) s
handle lower wallet_drawer_clicked s = push (modal_of Types.wallet_drawer (codes "Wallets") none) s
handle lower avatar_clicked s = push (modal_of Types.avatar_popover (codes "Account") none) s
handle lower open_settings_clicked s =
    push (modal_of Types.settings (codes "Settings") none) (close_top s)
handle lower receive_clicked s = push (modal_of Types.receive (codes "Receive") none) s
handle lower lock_clicked s = pop_to_root (set_locked true s)
handle lower unlock_clicked s = set_locked false s
handle lower (wallet_selected id) s = close_top (set_active_wallet id s)
handle lower (search_typed text) s = set_search_input lower text s
handle lower (to_typed text) s = update_send_draft to_key text s
handle lower (amount_typed text) s = update_send_draft amount_key text s
handle lower (memo_typed text) s = update_send_draft memo_key text s
handle lower (send_token_selected id) s = update_send_draft token_id_key id s
handle lower send_clicked s = open_send s
handle lower send_prev_clicked s = pop (reset_send_feedback s)
handle lower send_submitted s = submit_send lower s
handle lower timer_fired s = finish_send s
handle lower (send_closed behavior) s = close_by_behavior behavior s
handle lower (send_next_clicked next) s = go_send_next lower next s
handle lower slash_pressed s = open_search s
handle lower escape_pressed s = press_escape s

unfoldable pub run : (Text → Text) → List UiEvent → PopupState → PopupState
unfolding handle
run lower [] s = s
run lower (e ∷ es) s = run lower es (handle lower e s)
