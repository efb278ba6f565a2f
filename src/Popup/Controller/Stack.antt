-- ===== src/Popup/Controller/Stack.antt =====
-- wallet-extension/src/popup: the stack of routes, over every sequence of events.
use soulon_wallet.Prelude.{
  suc, ◌+◌, leb, length, Bool, true, false, codes, take, if◌then◌else◌, is_some, Text, List, [],
  ◌∷◌, ◌++◌, Option, none, some, ◌≡◌, refl, ap, sym, ◌∙◌, arith,
}
use soulon_wallet.Popup.Types
use soulon_wallet.Popup.Types.{
  CloseBehavior, go_back, pop_root_once, pop_root_twice, reset, neutral, PopupScreenId, PopupRoute,
  PopupState,
}
use soulon_wallet.Popup.Store.{
  root_route, no_errors, drop_last, base_index, set_active_tab, push, pop, pop_to_root, pop_to_base,
  set_locked, set_active_wallet, set_search_input, reset_send_feedback, update_send_draft,
  set_send_submitting, set_send_feedback, set_send_errors,
}
use soulon_wallet.Popup.Screens.{validate_send_draft, has_errors}
use soulon_wallet.Popup.Controller.{
  last, modal_of, search_over, close_with, open_search, is_search, open_send, close_by_behavior,
  top_behavior, close_top, reject_draft, go_send_next, submit_send, finish_send, press_escape,
  handle, run, UiEvent,
}
use soulon_wallet.Popup.Controller

-- The stack is not empty, and its first route is the root's.
pub record HasRoot (s : PopupState) : Type 0 where
  pub rest : List PopupRoute
  pub rooted : s.stack ≡ root_route ∷ rest

if-HasRoot :
    (flag : Bool) (s t : PopupState) → HasRoot s → HasRoot t → HasRoot (if flag then s else t)
if-HasRoot true s t h k = h
if-HasRoot false s t h k = k

same_stack : (s t : PopupState) → s.stack ≡ t.stack → HasRoot s → HasRoot t
same_stack s t e h = record { rest = h.rest; rooted = sym e ∙ h.rooted }

push-HasRoot : (route : PopupRoute) (s : PopupState) → HasRoot s → HasRoot (push route s)
unfolding push
push-HasRoot route s h = record { rest = h.rest ++ route ∷ []; rooted = rw (h.rooted) }

drop_last-first :
    (r q : PopupRoute) (rs : List PopupRoute) → drop_last (r ∷ q ∷ rs) ≡ r ∷ drop_last (q ∷ rs)
unfolding drop_last
drop_last-first r q rs = refl

pop_stack :
    (s : PopupState) (rest : List PopupRoute) → s.stack ≡ root_route ∷ rest → HasRoot (pop s)
unfolding pop
pop_stack s [] h = record {
  rest = [];
  rooted =
      ap (λ stack. (if leb (length stack) 1 then s else record s { stack = drop_last stack }).stack)
        h
      ∙ h;
}
pop_stack s (q ∷ rs) h = record {
  rest = drop_last (q ∷ rs);
  rooted =
      ap (λ stack. (if leb (length stack) 1 then s else record s { stack = drop_last stack }).stack)
        h
      ∙ several
      ∙ drop_last-first root_route q rs;
}
  where
    several :
        (if leb (length (root_route ∷ q ∷ rs)) 1
          then s
          else record s { stack = drop_last (root_route ∷ q ∷ rs) }).stack
        ≡ drop_last (root_route ∷ q ∷ rs)
    several = ground arith

pop-HasRoot : (s : PopupState) → HasRoot s → HasRoot (pop s)
pop-HasRoot s h = pop_stack s h.rest h.rooted

pop_to_base-HasRoot : (s : PopupState) → HasRoot s → HasRoot (pop_to_base s)
unfolding pop_to_base
pop_to_base-HasRoot s h =
    let step : base_index s.stack + 1 ≡ suc (base_index s.stack) = omega arith in
    record {
      rest = take (base_index s.stack) h.rest;
      rooted = rw (step) (ap (take (suc (base_index s.stack))) h.rooted);
    }

close_by_behavior-HasRoot :
    (b : CloseBehavior) (s : PopupState) → HasRoot s → HasRoot (close_by_behavior b s)
unfolding close_by_behavior
close_by_behavior-HasRoot go_back s h = pop-HasRoot s h
close_by_behavior-HasRoot pop_root_once s h = pop_to_base-HasRoot s h
close_by_behavior-HasRoot pop_root_twice s h = pop_to_base-HasRoot s h
close_by_behavior-HasRoot reset s h = pop_to_base-HasRoot s h

close_with-HasRoot :
    (b : Option CloseBehavior) (s : PopupState) → HasRoot s → HasRoot (close_with b s)
unfolding close_with
close_with-HasRoot (some b) s h = close_by_behavior-HasRoot b s h
close_with-HasRoot none s h = pop-HasRoot s h

close_top-HasRoot : (s : PopupState) → HasRoot s → HasRoot (close_top s)
unfolding close_top
close_top-HasRoot s h =
    if-HasRoot (leb (length s.stack) 1) s _ h (close_with-HasRoot (top_behavior (last s.stack)) s h)

search_over-HasRoot :
    (top : Option PopupRoute) (s : PopupState) → HasRoot s → HasRoot (search_over top s)
unfolding search_over
search_over-HasRoot none s h = push-HasRoot _ s h
search_over-HasRoot (some top) s h = if-HasRoot (is_search top) s _ h (push-HasRoot _ s h)

open_search-HasRoot : (s : PopupState) → HasRoot s → HasRoot (open_search s)
unfolding open_search
open_search-HasRoot s h = search_over-HasRoot _ s h

press_escape-HasRoot : (s : PopupState) → HasRoot s → HasRoot (press_escape s)
unfolding press_escape
press_escape-HasRoot s h =
    let closed = close_top-HasRoot s h in if-HasRoot _ _ _ closed (if-HasRoot _ _ s closed h)

go_send_next-HasRoot :
    (lower : Text → Text) (next : PopupScreenId) (s : PopupState)
    → HasRoot s
    → HasRoot (go_send_next lower next s)
unfolding go_send_next reset_send_feedback set_send_errors reject_draft set_send_feedback
go_send_next-HasRoot lower Types.send_address s h = push-HasRoot _ _ (same_stack s _ refl h)
go_send_next-HasRoot lower Types.send_amount s h =
    let errors = validate_send_draft lower s in
    let rejected = reject_draft errors (reset_send_feedback s) in
    let passed =
      set_send_errors (record (s.send_draft_errors) { to = none }) (reset_send_feedback s) in
    if-HasRoot (is_some errors.to) rejected _ (same_stack s rejected refl h) (
      push-HasRoot (modal_of Types.send_amount (codes "/popup/send/amount") (some pop_root_twice))
        passed (same_stack s passed refl h))
go_send_next-HasRoot lower Types.send_confirm s h =
    let errors = validate_send_draft lower s in
    let rejected = reject_draft errors (reset_send_feedback s) in
    let passed = set_send_errors no_errors (reset_send_feedback s) in
    if-HasRoot (has_errors errors) rejected _ (same_stack s rejected refl h) (
      push-HasRoot (modal_of Types.send_confirm (codes "/popup/send/confirm") (some pop_root_twice))
        passed (same_stack s passed refl h))
go_send_next-HasRoot lower _ s h = same_stack s _ refl h

submit_send-HasRoot :
    (lower : Text → Text) (s : PopupState) → HasRoot s → HasRoot (submit_send lower s)
unfolding submit_send set_send_submitting set_send_errors reject_draft set_send_feedback
submit_send-HasRoot lower s h =
    let errors = validate_send_draft lower s in
    let rejected = reject_draft errors s in
    let sent = set_send_feedback (codes "交易广播中，请稍候...") neutral (set_send_submitting true s) in
    if-HasRoot (has_errors errors) rejected sent (same_stack s rejected refl h)
      (same_stack s sent refl h)

pub handle-HasRoot :
    (lower : Text → Text) (e : UiEvent) (s : PopupState) → HasRoot s → HasRoot (handle lower e s)
unfolding handle set_active_tab set_locked set_active_wallet set_search_input update_send_draft
    open_send reset_send_feedback finish_send set_send_submitting set_send_feedback pop_to_root
handle-HasRoot lower (Controller.tab_clicked tab) s h = same_stack s _ refl h
handle-HasRoot lower (Controller.token_clicked id) s h = push-HasRoot _ s h
handle-HasRoot lower (Controller.activity_clicked id) s h = push-HasRoot _ s h
handle-HasRoot lower Controller.collectible_clicked s h = push-HasRoot _ s h
handle-HasRoot lower Controller.back_clicked s h = pop-HasRoot s h
handle-HasRoot lower Controller.close_clicked s h = close_top-HasRoot s h
handle-HasRoot lower Controller.mask_clicked s h = close_top-HasRoot s h
handle-HasRoot lower Controller.settings_clicked s h = push-HasRoot _ s h
handle-HasRoot lower Controller.wallet_drawer_clicked s h = push-HasRoot _ s h
handle-HasRoot lower Controller.avatar_clicked s h = push-HasRoot _ s h
handle-HasRoot lower Controller.open_settings_clicked s h = push-HasRoot _ _ (close_top-HasRoot s h)
handle-HasRoot lower Controller.receive_clicked s h = push-HasRoot _ s h
handle-HasRoot lower Controller.lock_clicked s h = record {
  rest = [];
  rooted = ap (take 1) h.rooted;
}
handle-HasRoot lower Controller.unlock_clicked s h = same_stack s _ refl h
handle-HasRoot lower (Controller.wallet_selected id) s h =
    close_top-HasRoot _ (same_stack s _ refl h)
handle-HasRoot lower (Controller.search_typed text) s h = same_stack s _ refl h
handle-HasRoot lower (Controller.to_typed text) s h = same_stack s _ refl h
handle-HasRoot lower (Controller.amount_typed text) s h = same_stack s _ refl h
handle-HasRoot lower (Controller.memo_typed text) s h = same_stack s _ refl h
handle-HasRoot lower (Controller.send_token_selected id) s h = same_stack s _ refl h
handle-HasRoot lower Controller.send_clicked s h = push-HasRoot _ _ (same_stack s _ refl h)
handle-HasRoot lower Controller.send_prev_clicked s h = pop-HasRoot _ (same_stack s _ refl h)
handle-HasRoot lower Controller.send_submitted s h = submit_send-HasRoot lower s h
handle-HasRoot lower Controller.timer_fired s h = same_stack s _ refl h
handle-HasRoot lower (Controller.send_closed b) s h = close_by_behavior-HasRoot b s h
handle-HasRoot lower (Controller.send_next_clicked next) s h = go_send_next-HasRoot lower next s h
handle-HasRoot lower Controller.slash_pressed s h = open_search-HasRoot s h
handle-HasRoot lower Controller.escape_pressed s h = press_escape-HasRoot s h

-- From a state with the root's route at the bottom, every sequence of events leaves it there: the
-- stack is never empty, so the code that reads its first or its base route finds one.
pub run-HasRoot :
    (lower : Text → Text) (es : List UiEvent) (s : PopupState)
    → HasRoot s
    → HasRoot (run lower es s)
unfolding run
run-HasRoot lower [] s h = h
run-HasRoot lower (e ∷ es) s h =
    run-HasRoot lower es (handle lower e s) (handle-HasRoot lower e s h)
