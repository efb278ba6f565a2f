-- ===== src/Popup/Render/Send.antt =====
-- wallet-extension/src/popup/popup_screens.ts: the screens of the send flow.
use soulon_wallet.Prelude.{
  if◌then◌else◌, is_some, eq_text, map, or_text, or_default, Text, codes, List, [], ◌∷◌, Option,
  none, some,
}
use soulon_wallet.Popup.Types.{ListItem, PopupState}
use soulon_wallet.Popup.Screens.{format_address_short, first_token, token_items}
use soulon_wallet.Popup.Html.{Piece, raw, raw_text, esc, concat}
use soulon_wallet.Popup.Render.Parts.{
  render_header_with_back, render_header_with_close, render_send_feedback,
}
use soulon_wallet.Popup.Render.Pages.{item_or}

-- The class of a field, and the message beside it, when there is one.
abbrev pub field_class : Option Text → List Piece
field_class message = raw (if is_some message then "field-error" else "")

unfoldable pub field_message : Option Text → List Piece
field_message none = []
field_message (some message) =
    concat (raw "<span class=\"field-feedback error\">" ∷ esc message ∷ raw "</span>" ∷ [])

unfoldable pub render_token_choice : Text → ListItem → List Piece
render_token_choice token_id token = concat (
    raw "\n"
    ∷ raw "            <button class=\"drawer-item "
    ∷ raw (if eq_text token.id token_id then "active" else "")
    ∷ raw "\" data-action=\"select-send-token\" data-id=\""
    ∷ raw_text token.id
    ∷ raw "\">\n"
    ∷ raw "              <span class=\"drawer-title\">"
    ∷ esc (or_default token.symbol [])
    ∷ raw "</span>\n"
    ∷ raw "              <span class=\"drawer-sub\">"
    ∷ esc token.description
    ∷ raw "</span>\n"
    ∷ raw "            </button>\n"
    ∷ raw "          "
    ∷ [])

unfoldable pub render_send_token_screen : PopupState → List Piece
unfolding render_header_with_close render_token_choice
render_send_token_screen state = concat (
    raw "\n"
    ∷ raw "    "
    ∷ render_header_with_close (codes "选择 Token")
    ∷ raw "\n"
    ∷ raw "    <div class=\"modal-content\">\n"
    ∷ raw "      "
    ∷ concat (map (render_token_choice state.send_draft.token_id) token_items)
    ∷ raw "\n"
    ∷ raw "      <div class=\"modal-actions\">\n"
    ∷ raw
        "        <button class=\"ext-button ghost\" data-action=\"close-send\" data-close-behavior=\"reset\">取消</button>\n"
    ∷ raw
        "        <button class=\"ext-button\" data-action=\"send-next\" data-next=\"SendAddress\">下一步</button>\n"
    ∷ raw "      </div>\n"
    ∷ raw "    </div>\n"
    ∷ raw "  "
    ∷ [])

unfoldable pub render_send_address_screen : PopupState → List Piece
unfolding render_header_with_back field_message render_send_feedback
render_send_address_screen state = concat (
    raw "\n"
    ∷ raw "    "
    ∷ render_header_with_back (codes "收款地址") "send-prev"
    ∷ raw "\n"
    ∷ raw "    <div class=\"modal-content\">\n"
    ∷ raw "      <label class=\"field-block\">\n"
    ∷ raw "        收款地址\n"
    ∷ raw "        <input id=\"send-to-input\" class=\"ext-input "
    ∷ field_class state.send_draft_errors.to
    ∷ raw "\" data-field=\"send-to\" value=\""
    ∷ esc state.send_draft.to
    ∷ raw "\" />\n"
    ∷ raw "        "
    ∷ field_message state.send_draft_errors.to
    ∷ raw "\n"
    ∷ raw "      </label>\n"
    ∷ raw "      "
    ∷ render_send_feedback state
    ∷ raw "\n"
    ∷ raw "      <div class=\"modal-actions\">\n"
    ∷ raw "        <button class=\"ext-button ghost\" data-action=\"send-prev\">返回</button>\n"
    ∷ raw
        "        <button class=\"ext-button\" data-action=\"send-next\" data-next=\"SendAmount\">下一步</button>\n"
    ∷ raw "      </div>\n"
    ∷ raw "    </div>\n"
    ∷ raw "  "
    ∷ [])

unfoldable pub render_send_amount_screen : PopupState → List Piece
unfolding render_header_with_back field_message render_send_feedback
render_send_amount_screen state = concat (
    raw "\n"
    ∷ raw "    "
    ∷ render_header_with_back (codes "填写金额") "send-prev"
    ∷ raw "\n"
    ∷ raw "    <div class=\"modal-content\">\n"
    ∷ raw "      <label class=\"field-block\">\n"
    ∷ raw "        金额\n"
    ∷ raw "        <input id=\"send-amount-input\" class=\"ext-input "
    ∷ field_class state.send_draft_errors.amount
    ∷ raw "\" data-field=\"send-amount\" value=\""
    ∷ esc state.send_draft.amount
    ∷ raw "\" />\n"
    ∷ raw "        "
    ∷ field_message state.send_draft_errors.amount
    ∷ raw "\n"
    ∷ raw "      </label>\n"
    ∷ raw "      <label class=\"field-block\">\n"
    ∷ raw "        备注\n"
    ∷ raw "        <input id=\"send-memo-input\" class=\"ext-input "
    ∷ field_class state.send_draft_errors.memo
    ∷ raw "\" data-field=\"send-memo\" value=\""
    ∷ esc state.send_draft.memo
    ∷ raw "\" />\n"
    ∷ raw "        "
    ∷ field_message state.send_draft_errors.memo
    ∷ raw "\n"
    ∷ raw "      </label>\n"
    ∷ raw "      "
    ∷ render_send_feedback state
    ∷ raw "\n"
    ∷ raw "      <div class=\"modal-actions\">\n"
    ∷ raw "        <button class=\"ext-button ghost\" data-action=\"send-prev\">返回</button>\n"
    ∷ raw
        "        <button class=\"ext-button\" data-action=\"send-next\" data-next=\"SendConfirm\">确认</button>\n"
    ∷ raw "      </div>\n"
    ∷ raw "    </div>\n"
    ∷ raw "  "
    ∷ [])

unfoldable pub render_send_confirm_screen : PopupState → List Piece
unfolding render_header_with_back render_send_feedback format_address_short
render_send_confirm_screen state =
    let token = item_or first_token token_items state.send_draft.token_id in
    concat (
      raw "\n"
      ∷ raw "    "
      ∷ render_header_with_back (codes "确认发送") "send-prev"
      ∷ raw "\n"
      ∷ raw "    <div class=\"modal-content\">\n"
      ∷ raw "      <div class=\"modal-grid\"><span>Token</span><strong>"
      ∷ esc (or_default token.symbol [])
      ∷ raw "</strong></div>\n"
      ∷ raw "      <div class=\"modal-grid\"><span>收款方</span><strong>"
      ∷ esc (format_address_short state.send_draft.to)
      ∷ raw "</strong></div>\n"
      ∷ raw "      <div class=\"modal-grid\"><span>金额</span><strong>"
      ∷ esc state.send_draft.amount
      ∷ raw "</strong></div>\n"
      ∷ raw "      <div class=\"modal-grid\"><span>备注</span><strong>"
      ∷ esc (or_text state.send_draft.memo (codes "-"))
      ∷ raw "</strong></div>\n"
      ∷ raw "      "
      ∷ render_send_feedback state
      ∷ raw "\n"
      ∷ raw "      <div class=\"modal-actions\">\n"
      ∷ raw "        <button class=\"ext-button ghost\" data-action=\"send-prev\">返回修改</button>\n"
      ∷ raw "        <button class=\"ext-button\" data-action=\"send-submit\" "
      ∷ raw (if state.send_submitting then "disabled" else "")
      ∷ raw ">"
      ∷ raw (if state.send_submitting then "广播中..." else "确认发送")
      ∷ raw "</button>\n"
      ∷ raw "      </div>\n"
      ∷ raw "    </div>\n"
      ∷ raw "  "
      ∷ [])
