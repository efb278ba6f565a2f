-- ===== src/Popup/Render/Tests.antt =====
-- The page of the popup at concrete states, and its theorems at concrete inputs.
use soulon_wallet.Prelude.{map, ascii_lower, Text, codes, [], ◌∷◌, ◌≡◌, refl, some}
use soulon_wallet.Popup.Types.{PopupState, ListItem, warning_status, send_address}
use soulon_wallet.Popup.Store.{initial_state}
use soulon_wallet.Popup.Screens.{first_token}
use soulon_wallet.Popup.Controller.{handle, run, UiEvent}
use soulon_wallet.Popup.Controller
use soulon_wallet.Popup.Html.{escape_html}
use soulon_wallet.Popup.Html.Marks.{marks}
use soulon_wallet.Popup.Render.{render_popup}
use soulon_wallet.Popup.Render.Pages.{detail_token}
use soulon_wallet.Popup.Render.Details.{detail_token-handle}
use soulon_wallet.Popup.Render.Typed.{typed, render_popup-typed}

abbrev low : Text → Text
low = map ascii_lower

-- The send form, at the address.
abbrev at_address : PopupState
at_address =
    run low (Controller.send_clicked ∷ Controller.send_next_clicked send_address ∷ []) initial_state

escape_html_test : escape_html (codes "<a b=\"&'\">") ≡ codes "&lt;a b=&quot;&amp;&#039;&quot;&gt;"
unfolding codes escape_html
escape_html_test = refl

render_popup-typed_example :
    marks (render_popup low (typed (codes "\"><script>") [] [] (codes "'") at_address))
    ≡ marks (render_popup low at_address)
render_popup-typed_example =
    render_popup-typed (codes "\"><script>") [] [] (codes "'") low at_address

abbrev third_token : ListItem
third_token = record {
  id = codes "token-3";
  symbol = some (codes "uUSDC");
  title = codes "uUSDC";
  description = codes "可用余额 845.20";
  meta = codes "跨链通道 channel-8";
  status = warning_status;
}

detail_token-handle_example :
    (detail_token (handle low (Controller.token_clicked third_token.id) initial_state)
      ≡ third_token)
    × (detail_token (
          handle low Controller.slash_pressed
            (handle low (Controller.token_clicked third_token.id) initial_state))
        ≡ first_token)
detail_token-handle_example = detail_token-handle low initial_state 2 third_token refl
