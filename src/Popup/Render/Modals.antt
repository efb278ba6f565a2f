-- ===== src/Popup/Render/Modals.antt =====
-- wallet-extension/src/popup/popup_screens.ts: the modals, and the search.
use soulon_wallet.Prelude.{map, Text, codes, List, [], ◌∷◌}
use soulon_wallet.Popup.Types
use soulon_wallet.Popup.Types.{PopupScreenId, PopupRoute, ListItem, WalletSummary, PopupState}
use soulon_wallet.Popup.Screens.{get_search_results}
use soulon_wallet.Popup.Html.{Piece, raw, esc, concat}
use soulon_wallet.Popup.Render.Parts.{render_header_with_close, render_wallet_drawer}
use soulon_wallet.Popup.Render.Send.{
  render_send_token_screen, render_send_address_screen, render_send_amount_screen,
  render_send_confirm_screen,
}

unfoldable pub render_modal_screen : PopupState → PopupScreenId → WalletSummary → List Piece
unfolding render_header_with_close render_wallet_drawer render_send_token_screen
    render_send_address_screen render_send_amount_screen render_send_confirm_screen
render_modal_screen state Types.wallet_drawer wallet = concat (
    raw "\n"
    ∷ raw "      "
    ∷ render_header_with_close (codes "Wallets")
    ∷ raw "\n"
    ∷ raw "      <div class=\"modal-content\">\n"
    ∷ raw "        "
    ∷ render_wallet_drawer state.wallets wallet.id
    ∷ raw "\n"
    ∷ raw "      </div>\n"
    ∷ raw "    "
    ∷ [])
render_modal_screen state Types.avatar_popover wallet = concat (
    raw "\n"
    ∷ raw "      "
    ∷ render_header_with_close (codes "Account")
    ∷ raw "\n"
    ∷ raw "      <div class=\"modal-content\">\n"
    ∷ raw "        <div class=\"modal-grid\"><span>当前钱包</span><strong>"
    ∷ esc wallet.name
    ∷ raw "</strong></div>\n"
    ∷ raw "        <div class=\"modal-actions\">\n"
    ∷ raw "          <button class=\"ext-button ghost\" data-action=\"lock\">锁定</button>\n"
    ∷ raw "          <button class=\"ext-button\" data-action=\"open-settings\">设置</button>\n"
    ∷ raw "        </div>\n"
    ∷ raw "      </div>\n"
    ∷ raw "    "
    ∷ [])
render_modal_screen state Types.settings wallet = concat (
    raw "\n"
    ∷ raw "      "
    ∷ render_header_with_close (codes "Settings")
    ∷ raw "\n"
    ∷ raw "      <div class=\"modal-content\">\n"
    ∷ raw "        <div class=\"modal-grid\"><span>Network</span><strong>Mainnet</strong></div>\n"
    ∷ raw "        <div class=\"modal-grid\"><span>Currency</span><strong>USD</strong></div>\n"
    ∷ raw "        <div class=\"modal-actions\">\n"
    ∷ raw "          <button class=\"ext-button ghost\" data-action=\"lock\">锁定</button>\n"
    ∷ raw "          <button class=\"ext-button\" data-action=\"close\">完成</button>\n"
    ∷ raw "        </div>\n"
    ∷ raw "      </div>\n"
    ∷ raw "    "
    ∷ [])
render_modal_screen state Types.receive wallet = concat (
    raw "\n"
    ∷ raw "      "
    ∷ render_header_with_close (codes "Receive")
    ∷ raw "\n"
    ∷ raw "      <div class=\"modal-content\">\n"
    ∷ raw "        <div class=\"modal-grid\"><span>地址</span><strong>"
    ∷ esc wallet.address
    ∷ raw "</strong></div>\n"
    ∷ raw "        <div class=\"modal-actions\">\n"
    ∷ raw
        "          <button class=\"ext-button ghost\" data-action=\"copy-address\">复制地址</button>\n"
    ∷ raw "          <button class=\"ext-button\" data-action=\"close\">完成</button>\n"
    ∷ raw "        </div>\n"
    ∷ raw "      </div>\n"
    ∷ raw "    "
    ∷ [])
render_modal_screen state Types.send_token wallet = render_send_token_screen state
render_modal_screen state Types.send_address wallet = render_send_address_screen state
render_modal_screen state Types.send_amount wallet = render_send_amount_screen state
render_modal_screen state Types.send_confirm wallet = render_send_confirm_screen state
render_modal_screen state id wallet = concat (
    raw "\n"
    ∷ raw "    "
    ∷ render_header_with_close (codes "Modal")
    ∷ raw "\n"
    ∷ raw "    <div class=\"modal-content\">\n"
    ∷ raw "      <div class=\"empty-state ext-card\">未实现的模态页面</div>\n"
    ∷ raw "    </div>\n"
    ∷ raw "  "
    ∷ [])

unfoldable pub render_modal : PopupState → PopupRoute → WalletSummary → List Piece
unfolding render_modal_screen
render_modal state route wallet = concat (
    raw "\n"
    ∷ raw "    <div class=\"ext-modal-mask modal-open\" data-action=\"modal-mask\">\n"
    ∷ raw "      <div class=\"ext-modal\" role=\"dialog\" aria-modal=\"true\">\n"
    ∷ raw "        "
    ∷ render_modal_screen state route.id wallet
    ∷ raw "\n"
    ∷ raw "      </div>\n"
    ∷ raw "    </div>\n"
    ∷ raw "  "
    ∷ [])

unfoldable pub render_search_result : ListItem → List Piece
render_search_result item = concat (
    raw "\n"
    ∷ raw "        <article class=\"ext-card\">\n"
    ∷ raw "          <div class=\"item-row\">\n"
    ∷ raw "            <div>\n"
    ∷ raw "              <p class=\"item-title\">"
    ∷ esc item.title
    ∷ raw "</p>\n"
    ∷ raw "              <p class=\"item-desc\">"
    ∷ esc item.description
    ∷ raw "</p>\n"
    ∷ raw "              <p class=\"item-meta\">"
    ∷ esc item.meta
    ∷ raw "</p>\n"
    ∷ raw "            </div>\n"
    ∷ raw "          </div>\n"
    ∷ raw "        </article>\n"
    ∷ raw "      "
    ∷ [])

abbrev pub render_results : List ListItem → List Piece
render_results [] = raw "<div class=\"empty-state ext-card\">无匹配结果</div>"
render_results (item ∷ items) = concat (map render_search_result (item ∷ items))

unfoldable pub render_transparent_modal : (Text → Text) → PopupState → PopupScreenId → List Piece
unfolding render_header_with_close get_search_results render_search_result
render_transparent_modal lower state Types.search_screen = concat (
    raw "\n"
    ∷ raw "    <div class=\"ext-modal-mask modal-transparent\" data-action=\"search-mask\">\n"
    ∷ raw "      <div class=\"ext-modal transparent\" role=\"dialog\" aria-modal=\"true\">\n"
    ∷ raw "        "
    ∷ render_header_with_close (codes "Search")
    ∷ raw "\n"
    ∷ raw "        <div class=\"modal-content\">\n"
    ∷ raw "          <label class=\"field-block\">\n"
    ∷ raw "            搜索\n"
    ∷ raw
        "            <input id=\"search-input\" class=\"ext-input\" data-field=\"search\" value=\""
    ∷ esc state.search_input_value
    ∷ raw "\" placeholder=\"Search tokens, collectibles, activity\" />\n"
    ∷ raw "          </label>\n"
    ∷ raw "          <div class=\"page-scroll\">\n"
    ∷ raw "            "
    ∷ render_results (get_search_results lower state)
    ∷ raw "\n"
    ∷ raw "          </div>\n"
    ∷ raw "        </div>\n"
    ∷ raw "      </div>\n"
    ∷ raw "    </div>\n"
    ∷ raw "  "
    ∷ [])
render_transparent_modal lower state id = []
