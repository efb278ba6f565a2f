-- ===== src/Popup/Render/Typed.antt =====
-- wallet-extension/src/popup: what a user types reaches the page as text only.
use soulon_wallet.Prelude.{Text, List, [], ◌++◌, Option, none, some, ◌≡◌, refl, sym, ap, ◌∙◌}
use soulon_wallet.Popup.Types
use soulon_wallet.Popup.Types.{PopupScreenId, PopupRoute, WalletSummary, PopupState, SendDraft}
use soulon_wallet.Popup.Screens.{get_base_and_overlay, get_search_results, get_tab_items}
use soulon_wallet.Popup.Controller.{last}
use soulon_wallet.Popup.Html.{Piece, html}
use soulon_wallet.Popup.Html.Marks.{marks, skeleton, skeleton-append, marks-skeleton}
use soulon_wallet.Popup.Render.{
  active_wallet, shell_pieces, overlay_content, transparent_content, render_app_shell, render_popup,
}
use soulon_wallet.Popup.Render.Pages.{
  render_base_content, render_tabs_screen, render_token_detail_screen,
  render_activity_detail_screen, detail_token, detail_activity, detail_id,
}
use soulon_wallet.Popup.Render.Parts.{render_search_hint, render_send_feedback}
use soulon_wallet.Popup.Render.Send
use soulon_wallet.Popup.Render.Send.{
  render_send_token_screen, render_send_address_screen, render_send_amount_screen,
  render_send_confirm_screen,
}
use soulon_wallet.Popup.Render.Modals.{render_modal_screen, render_modal, render_transparent_modal}

-- The state with other texts in the fields where the user types.
abbrev pub typed : Text → Text → Text → Text → PopupState → PopupState
typed to amount memo search s = record s {
  search_input_value = search;
  send_draft = record (s.send_draft) { to = to; amount = amount; memo = memo };
}

abbrev Alike : List Piece → List Piece → Type 0
Alike ps qs = skeleton ps ≡ skeleton qs

Alike-append : (ps qs rs us : List Piece) → Alike ps qs → Alike rs us → Alike (ps ++ rs) (qs ++ us)
Alike-append ps qs rs us h k =
    skeleton-append ps rs
    ∙ ap (λ l. l ++ skeleton rs) h
    ∙ ap (λ l. skeleton qs ++ l) k
    ∙ sym (skeleton-append qs us)

-- The state with another message beside the amount.
abbrev amount_error : PopupState → Option Text → PopupState
amount_error s message = record s {
  send_draft_errors = record (s.send_draft_errors) { amount = message };
}

module _ (to amount memo search : Text) where
  amount-typed :
      (s : PopupState) (message : Option Text)
      → Alike
          (render_send_amount_screen (typed to amount memo search (amount_error s message)))
          (render_send_amount_screen (amount_error s message))
  unfolding render_send_amount_screen render_send_feedback Send.field_message skeleton
  amount-typed s none = refl
  amount-typed s (some message) = refl

  modal-typed :
      (s : PopupState) (id : PopupScreenId) (wallet : WalletSummary)
      → Alike
          (render_modal_screen (typed to amount memo search s) id wallet)
          (render_modal_screen s id wallet)
  unfolding render_modal_screen render_send_address_screen render_send_amount_screen
      render_send_confirm_screen render_send_feedback skeleton
  modal-typed s Types.wallet_drawer wallet = refl
  modal-typed s Types.avatar_popover wallet = refl
  modal-typed s Types.settings wallet = refl
  modal-typed s Types.receive wallet = refl
  modal-typed s Types.send_token wallet = refl
  modal-typed s Types.send_address wallet = refl
  modal-typed s Types.send_amount wallet = amount-typed s s.send_draft_errors.amount
  modal-typed s Types.send_confirm wallet = refl
  modal-typed s Types.tabs wallet = refl
  modal-typed s Types.token_detail wallet = refl
  modal-typed s Types.activity_detail wallet = refl
  modal-typed s Types.collectibles_detail wallet = refl
  modal-typed s Types.collectibles_collection wallet = refl
  modal-typed s Types.search_screen wallet = refl
  modal-typed s Types.unlock wallet = refl

  overlay-typed :
      (s : PopupState) (top : Option PopupRoute) (wallet : WalletSummary)
      → Alike
          (overlay_content (typed to amount memo search s) top wallet)
          (overlay_content s top wallet)
  unfolding overlay_content render_modal skeleton
  overlay-typed s none wallet = refl
  overlay-typed s (some route) wallet =
      let now = render_modal_screen (typed to amount memo search s) route.id wallet in
      let before = render_modal_screen s route.id wallet in
      rw (skeleton-append now, skeleton-append before, modal-typed s route.id wallet) refl

  transparent-typed :
      (lower : Text → Text) (s : PopupState) (top : Option PopupRoute)
      → Alike
          (transparent_content lower (typed to amount memo search s) top)
          (transparent_content lower s top)
  unfolding transparent_content render_transparent_modal get_search_results skeleton
  transparent-typed lower s none = refl
  transparent-typed lower s (some route) =
      elim route.id
        as (λ id.
          Alike (render_transparent_modal lower (typed to amount memo search s) id)
            (render_transparent_modal lower s id)) [ Types.search_screen ↦ refl | _ ↦ refl ]

  base-typed :
      (lower : Text → Text) (s : PopupState) (base : PopupRoute) (wallet : WalletSummary)
      → render_base_content lower (typed to amount memo search s) base wallet
        ≡ render_base_content lower s base wallet
  unfolding render_base_content render_tabs_screen render_search_hint get_search_results
      get_tab_items render_token_detail_screen render_activity_detail_screen detail_token
      detail_activity detail_id
  base-typed lower s base wallet = refl

  shell-typed :
      (lower : Text → Text) (s : PopupState) (base : PopupRoute)
      (top transparent_top : Option PopupRoute) (wallet : WalletSummary)
      → Alike
          (shell_pieces lower (typed to amount memo search s) base top transparent_top wallet)
          (shell_pieces lower s base top transparent_top wallet)
  unfolding shell_pieces skeleton
  shell-typed lower s base top transparent_top wallet =
      rw
        (
          base-typed lower s base wallet,
          skeleton-append (render_base_content lower s base wallet),
          skeleton-append (render_base_content lower s base wallet),
          skeleton-append (overlay_content (typed to amount memo search s) top wallet),
          skeleton-append (overlay_content s top wallet),
          skeleton-append
              (transparent_content lower (typed to amount memo search s) transparent_top),
          skeleton-append (transparent_content lower s transparent_top),
          overlay-typed s top wallet,
          transparent-typed lower s transparent_top,
        )
        refl

  app_shell-typed :
      (lower : Text → Text) (s : PopupState) (base : PopupRoute)
      (overlay transparent : List PopupRoute)
      → marks (render_app_shell lower (typed to amount memo search s) base overlay transparent)
        ≡ marks (render_app_shell lower s base overlay transparent)
  unfolding render_app_shell
  app_shell-typed lower s base overlay transparent =
      let after = typed to amount memo search s in
      elim (active_wallet s)
        as (λ w.
          marks (elim w [
            | none ↦ []
            | some wallet ↦
                html (shell_pieces lower after base (last overlay) (last transparent) wallet)
          ])
          ≡ marks (elim w [
            | none ↦ []
            | some wallet ↦
                html (shell_pieces lower s base (last overlay) (last transparent) wallet)
          ])) [
            | none ↦ refl
            | some wallet ↦
                marks-skeleton _ _
                  (shell-typed lower s base (last overlay) (last transparent) wallet)
          ]

  -- No text in the fields of the send form or in the search field changes the characters of the page
  -- that delimit its tags and its attributes: they are those of the same state, with the same search
  -- keyword, and any other texts in the fields.
  pub render_popup-typed :
      (lower : Text → Text) (s : PopupState)
      → marks (render_popup lower (typed to amount memo search s)) ≡ marks (render_popup lower s)
  unfolding render_popup
  render_popup-typed lower s =
      let layers = get_base_and_overlay s.stack in
      let after = typed to amount memo search s in
      elim layers.base
        as (λ b.
          marks (elim b [
            | none ↦ []
            | some base ↦
                render_app_shell lower after base layers.overlay layers.transparent_overlay
          ])
          ≡ marks (elim b [
            | none ↦ []
            | some base ↦ render_app_shell lower s base layers.overlay layers.transparent_overlay
          ])) [
            | none ↦ refl
            | some base ↦ app_shell-typed lower s base layers.overlay layers.transparent_overlay
          ]
