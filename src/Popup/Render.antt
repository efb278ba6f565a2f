-- ===== src/Popup/Render.antt =====
-- wallet-extension/src/popup/popup_screens.ts: the HTML of the popup. Without any wallet the source
-- throws, and the model renders nothing; so too for an empty stack.
mod Parts
mod Pages
mod Send
mod Modals
pub mod Details
pub mod Typed
mod Tests
use soulon_wallet.Prelude.{
  ℕ, find, eq_text, get_elem?, Text, codes, List, [], ◌∷◌, ◌++◌, Option, none, some,
}
use soulon_wallet.Popup.Types.{PopupRoute, WalletSummary, PopupState}
use soulon_wallet.Popup.Screens.{get_base_and_overlay}
use soulon_wallet.Popup.Controller.{last}
use soulon_wallet.Popup.Html.{Piece, html, raw, concat}
use soulon_wallet.Popup.Render.Pages.{render_base_content}
use soulon_wallet.Popup.Render.Modals.{render_modal, render_transparent_modal}

-- `wallets.find(...) ?? wallets[0]`.
abbrev pub active_wallet : PopupState → Option WalletSummary
active_wallet state =
    elim (find (λ wallet. eq_text wallet.id state.active_wallet_id) state.wallets) [
      | some wallet ↦ some wallet
      | none ↦ get_elem? state.wallets 0
    ]

-- The last of the modals, and the last of the transparent ones.
unfoldable pub overlay_content : PopupState → Option PopupRoute → WalletSummary → List Piece
unfolding render_modal
overlay_content state none wallet = []
overlay_content state (some route) wallet = render_modal state route wallet

unfoldable pub transparent_content : (Text → Text) → PopupState → Option PopupRoute → List Piece
unfolding render_transparent_modal
transparent_content lower state none = []
transparent_content lower state (some route) = render_transparent_modal lower state route.id

unfoldable pub shell_pieces :
    (Text → Text)
    → PopupState
    → PopupRoute
    → Option PopupRoute
    → Option PopupRoute
    → WalletSummary
    → List Piece
unfolding render_base_content overlay_content transparent_content
shell_pieces lower state base top transparent_top wallet = concat (
    raw "\n"
    ∷ raw "    <div class=\"popup-root\">\n"
    ∷ raw "      "
    ∷ render_base_content lower state base wallet
    ∷ raw "\n"
    ∷ raw "      "
    ∷ overlay_content state top wallet
    ∷ raw "\n"
    ∷ raw "      "
    ∷ transparent_content lower state transparent_top
    ∷ raw "\n"
    ∷ raw "    </div>\n"
    ∷ raw "  "
    ∷ [])

unfoldable pub render_app_shell :
    (Text → Text) → PopupState → PopupRoute → List PopupRoute → List PopupRoute → Text
unfolding shell_pieces html last
render_app_shell lower state base overlay transparent = elim (active_wallet state) [
  | none ↦ []
  | some wallet ↦ html (shell_pieces lower state base (last overlay) (last transparent) wallet)
]

-- The `render` of wallet-extension/src/popup/popup_controller.ts: the new content of the page.
unfoldable pub render_popup : (Text → Text) → PopupState → Text
unfolding get_base_and_overlay render_app_shell
render_popup lower state =
    let layers = get_base_and_overlay state.stack in
    elim layers.base [
      | none ↦ []
      | some base ↦ render_app_shell lower state base layers.overlay layers.transparent_overlay
    ]
