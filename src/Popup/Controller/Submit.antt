-- ===== src/Popup/Controller/Submit.antt =====
-- wallet-extension/src/popup: what is sent, over every event.
use soulon_wallet.Prelude.{
  Bool, true, false, leb, length, if◌then◌else◌, is_some, any, codes, Text, Option, none, some, ◌≡◌,
  ◌⊎◌, ◌≢◌, ◌↔◌, ap, inl, inr, refl, sym, ◌∙◌, Bool-cases,
}
use soulon_wallet.Popup.Types
use soulon_wallet.Popup.Types.{
  CloseBehavior, go_back, pop_root_once, pop_root_twice, reset, neutral, PopupScreenId, PopupRoute,
  SendDraft, PopupState,
}
use soulon_wallet.Popup.Store.{
  set_active_tab, push, pop, pop_to_root, pop_to_base, set_locked, set_active_wallet,
  set_search_input, reset_send_feedback, update_send_draft, set_send_submitting, set_send_feedback,
  set_send_errors,
}
use soulon_wallet.Popup.Screens.{validate_send_draft, has_errors, is_modal}
use soulon_wallet.Popup.Screens.Draft.{IsSendable, validate_send_draft-IsSendable}
use soulon_wallet.Popup.Controller.{
  search_over, close_with, open_search, is_search, open_send, close_by_behavior, top_behavior,
  close_top, reject_draft, go_send_next, submit_send, finish_send, press_escape, handle, UiEvent,
  send_submitted, timer_fired,
}
use soulon_wallet.Popup.Controller

-- The flag of a state after an event that does not send.
if-flag :
    (b : Bool) (s t u : PopupState)
    → t.send_submitting ≡ s.send_submitting
    → u.send_submitting ≡ s.send_submitting
    → (if b then t else u).send_submitting ≡ s.send_submitting
if-flag true s t u h k = h
if-flag false s t u h k = k

pop-flag : (s : PopupState) → (pop s).send_submitting ≡ s.send_submitting
unfolding pop
pop-flag s = if-flag (leb (length s.stack) 1) s s _ refl refl

close_by_behavior-flag :
    (b : CloseBehavior) (s : PopupState)
    → (close_by_behavior b s).send_submitting ≡ s.send_submitting
unfolding close_by_behavior pop_to_base
close_by_behavior-flag go_back s = pop-flag s
close_by_behavior-flag pop_root_once s = refl
close_by_behavior-flag pop_root_twice s = refl
close_by_behavior-flag reset s = refl

close_with-flag :
    (b : Option CloseBehavior) (s : PopupState)
    → (close_with b s).send_submitting ≡ s.send_submitting
unfolding close_with
close_with-flag none s = pop-flag s
close_with-flag (some b) s = close_by_behavior-flag b s

close_top-flag : (s : PopupState) → (close_top s).send_submitting ≡ s.send_submitting
unfolding close_top
close_top-flag s = if-flag (leb (length s.stack) 1) s s _ refl (close_with-flag _ s)

search_over-flag :
    (top : Option PopupRoute) (s : PopupState)
    → (search_over top s).send_submitting ≡ s.send_submitting
unfolding search_over push
search_over-flag none s = refl
search_over-flag (some top) s = if-flag (is_search top) s s _ refl refl

press_escape-flag : (s : PopupState) → (press_escape s).send_submitting ≡ s.send_submitting
unfolding press_escape
press_escape-flag s =
    if-flag _ s (close_top s)
      (if any (λ route. is_modal route.presentation) s.stack then close_top s else s)
      (close_top-flag s)
      (if-flag (any (λ route. is_modal route.presentation) s.stack) s (close_top s) s
        (close_top-flag s) refl)

go_send_next-flag :
    (lower : Text → Text) (next : PopupScreenId) (s : PopupState)
    → (go_send_next lower next s).send_submitting ≡ s.send_submitting
unfolding go_send_next push reset_send_feedback set_send_errors reject_draft set_send_feedback
go_send_next-flag lower Types.send_amount s =
    if-flag (is_some (validate_send_draft lower s).to) s _ _ refl refl
go_send_next-flag lower Types.send_confirm s =
    if-flag (has_errors (validate_send_draft lower s)) s _ _ refl refl
go_send_next-flag lower _ s = refl

abbrev is_quiet : UiEvent → Bool
is_quiet send_submitted = false
is_quiet timer_fired = false
is_quiet e = true

-- When the flag is set after an event.
abbrev pub IsSending : (Text → Text) → UiEvent → PopupState → Type 0
IsSending lower e s =
    ((s.send_submitting ≡ true) × (e ≢ timer_fired))
    ⊎ ((e ≡ send_submitted) × IsSendable lower s.send_draft)

quiet :
    (lower : Text → Text) (e : UiEvent) (s t : PopupState)
    → is_quiet e ≡ true
    → t.send_submitting ≡ s.send_submitting
    → (t.send_submitting ≡ true) ↔ IsSending lower e s
quiet lower e s t h kept = (
  (λ on. inl (sym kept ∙ on, λ p. absurd (cc (sym h ∙ ap is_quiet p)))),
  (λ sending. elim sending [
    | inl (on, other) ↦ kept ∙ on
    | inr (p, draft) ↦ absurd (cc (sym h ∙ ap is_quiet p))
  ]),
)

submit_send-flag :
    (lower : Text → Text) (s : PopupState)
    → ((submit_send lower s).send_submitting ≡ true) ↔ IsSending lower send_submitted s
unfolding submit_send set_send_submitting set_send_errors reject_draft set_send_feedback
submit_send-flag lower s =
    let errors = validate_send_draft lower s in
    let rejected = reject_draft errors s in
    let sent = set_send_feedback (codes "交易广播中，请稍候...") neutral (set_send_submitting true s) in
    elim (Bool-cases (has_errors errors)) [
      | inl e ↦
          let kept = ap (λ b. (if b then rejected else sent).send_submitting) e in
          (
            (λ on. inl (sym kept ∙ on, λ p. absurd (cc (p)))),
            (λ sending. elim sending [
              | inl (on, other) ↦ kept ∙ on
              | inr (p, draft) ↦
                  absurd (cc (sym e ∙ (validate_send_draft-IsSendable lower s).1 draft))
            ]),
          )
      | inr e ↦
          let on = ap (λ b. (if b then rejected else sent).send_submitting) e in
          ((λ h. inr (refl, (validate_send_draft-IsSendable lower s).0 e)), (λ sending. on))
    ]

-- After an event a transaction is being sent exactly if one was before and the event is not the
-- timer's, or if the event is the submission of a draft that can be sent.
pub handle-IsSending :
    (lower : Text → Text) (e : UiEvent) (s : PopupState)
    → ((handle lower e s).send_submitting ≡ true) ↔ IsSending lower e s
unfolding handle set_active_tab set_locked set_active_wallet set_search_input update_send_draft
    open_send open_search push reset_send_feedback finish_send set_send_submitting set_send_feedback
    pop_to_root
handle-IsSending lower (Controller.tab_clicked tab) s =
    quiet lower (Controller.tab_clicked tab) s (handle lower (Controller.tab_clicked tab) s) refl
      refl
handle-IsSending lower (Controller.token_clicked id) s =
    quiet lower (Controller.token_clicked id) s (handle lower (Controller.token_clicked id) s) refl
      refl
handle-IsSending lower (Controller.activity_clicked id) s =
    quiet lower (Controller.activity_clicked id) s (handle lower (Controller.activity_clicked id) s)
      refl refl
handle-IsSending lower Controller.collectible_clicked s =
    quiet lower Controller.collectible_clicked s (handle lower Controller.collectible_clicked s)
      refl refl
handle-IsSending lower Controller.back_clicked s =
    quiet lower Controller.back_clicked s (handle lower Controller.back_clicked s) refl (pop-flag s)
handle-IsSending lower Controller.close_clicked s =
    quiet lower Controller.close_clicked s (handle lower Controller.close_clicked s) refl
      (close_top-flag s)
handle-IsSending lower Controller.mask_clicked s =
    quiet lower Controller.mask_clicked s (handle lower Controller.mask_clicked s) refl
      (close_top-flag s)
handle-IsSending lower Controller.settings_clicked s =
    quiet lower Controller.settings_clicked s (handle lower Controller.settings_clicked s) refl refl
handle-IsSending lower Controller.wallet_drawer_clicked s =
    quiet lower Controller.wallet_drawer_clicked s (handle lower Controller.wallet_drawer_clicked s)
      refl refl
handle-IsSending lower Controller.avatar_clicked s =
    quiet lower Controller.avatar_clicked s (handle lower Controller.avatar_clicked s) refl refl
handle-IsSending lower Controller.open_settings_clicked s =
    quiet lower Controller.open_settings_clicked s (handle lower Controller.open_settings_clicked s)
      refl (close_top-flag s)
handle-IsSending lower Controller.receive_clicked s =
    quiet lower Controller.receive_clicked s (handle lower Controller.receive_clicked s) refl refl
handle-IsSending lower Controller.lock_clicked s =
    quiet lower Controller.lock_clicked s (handle lower Controller.lock_clicked s) refl refl
handle-IsSending lower Controller.unlock_clicked s =
    quiet lower Controller.unlock_clicked s (handle lower Controller.unlock_clicked s) refl refl
handle-IsSending lower (Controller.wallet_selected id) s =
    quiet lower (Controller.wallet_selected id) s (handle lower (Controller.wallet_selected id) s)
      refl (close_top-flag (record s { active_wallet_id = id }))
handle-IsSending lower (Controller.search_typed text) s =
    quiet lower (Controller.search_typed text) s (handle lower (Controller.search_typed text) s)
      refl refl
handle-IsSending lower (Controller.to_typed text) s =
    quiet lower (Controller.to_typed text) s (handle lower (Controller.to_typed text) s) refl refl
handle-IsSending lower (Controller.amount_typed text) s =
    quiet lower (Controller.amount_typed text) s (handle lower (Controller.amount_typed text) s)
      refl refl
handle-IsSending lower (Controller.memo_typed text) s =
    quiet lower (Controller.memo_typed text) s (handle lower (Controller.memo_typed text) s) refl
      refl
handle-IsSending lower (Controller.send_token_selected id) s =
    quiet lower (Controller.send_token_selected id) s
      (handle lower (Controller.send_token_selected id) s) refl refl
handle-IsSending lower Controller.send_clicked s =
    quiet lower Controller.send_clicked s (handle lower Controller.send_clicked s) refl refl
handle-IsSending lower Controller.send_prev_clicked s =
    quiet lower Controller.send_prev_clicked s (handle lower Controller.send_prev_clicked s) refl
      (pop-flag (reset_send_feedback s))
handle-IsSending lower (Controller.send_closed b) s =
    quiet lower (Controller.send_closed b) s (handle lower (Controller.send_closed b) s) refl
      (close_by_behavior-flag b s)
handle-IsSending lower (Controller.send_next_clicked next) s =
    quiet lower (Controller.send_next_clicked next) s
      (handle lower (Controller.send_next_clicked next) s) refl (go_send_next-flag lower next s)
handle-IsSending lower Controller.slash_pressed s =
    quiet lower Controller.slash_pressed s (handle lower Controller.slash_pressed s) refl
      (search_over-flag _ s)
handle-IsSending lower Controller.escape_pressed s =
    quiet lower Controller.escape_pressed s (handle lower Controller.escape_pressed s) refl
      (press_escape-flag s)
handle-IsSending lower send_submitted s = submit_send-flag lower s
handle-IsSending lower timer_fired s = (
  (λ on. absurd (cc (on))),
  (λ sending. elim sending [
    | inl (on, other) ↦ absurd (other refl)
    | inr (p, draft) ↦ absurd (cc (p))
  ]),
)
