-- ===== src/Popup/Render/Pages.antt =====
-- wallet-extension/src/popup/popup_screens.ts: the screens under the modals. For an item that is
-- not found the source shows the first one.
use soulon_wallet.Prelude.{
  if◌then◌else◌, length, eq_text, find, or_default, String, Text, codes, List, [], ◌∷◌, none, some,
}
use soulon_wallet.Prelude.Decimal.{decimal}
use soulon_wallet.Popup.Types
use soulon_wallet.Popup.Types.{
  PopupTabKey, tokens, collectibles, activity, PopupRoute, ListItem, WalletSummary, PopupState,
}
use soulon_wallet.Popup.Screens.{
  format_address_short, get_tab_items, first_token, first_activity, token_items, activity_items,
}
use soulon_wallet.Popup.Controller.{last}
use soulon_wallet.Popup.Html.{Piece, raw, raw_text, esc, concat}
use soulon_wallet.Popup.Render.Parts.{
  get_tab_title, status_text, render_header_with_back, render_root_header, render_top_tabs,
  render_search_hint, render_primary_actions, render_item_list,
}

unfoldable pub render_locked_screen : List Piece
render_locked_screen = concat (
    raw "\n"
    ∷ raw "    <div class=\"popup-shell\">\n"
    ∷ raw "      <header class=\"popup-header\">\n"
    ∷ raw "        <div class=\"popup-title-block\">\n"
    ∷ raw "          <p class=\"popup-eyebrow\">Wallet Extension</p>\n"
    ∷ raw "          <h1 class=\"popup-title\">Soulon Wallet</h1>\n"
    ∷ raw "          <p class=\"popup-subtitle\">当前路径："
    ∷ raw "/popup/unlock"
    ∷ raw "</p>\n"
    ∷ raw "        </div>\n"
    ∷ raw "      </header>\n"
    ∷ raw "      <section class=\"ext-card\">\n"
    ∷ raw "        <div class=\"page-head\">\n"
    ∷ raw "          <h2>解锁钱包</h2>\n"
    ∷ raw "        </div>\n"
    ∷ raw "        <div class=\"page-scroll\">\n"
    ∷ raw "          <label class=\"field-block\">\n"
    ∷ raw "            密码\n"
    ∷ raw
        "            <input class=\"ext-input\" data-field=\"unlock\" type=\"password\" placeholder=\"输入密码\" />\n"
    ∷ raw "          </label>\n"
    ∷ raw "          <div class=\"popup-action-row\">\n"
    ∷ raw "            <button class=\"ext-button\" data-action=\"unlock\">解锁</button>\n"
    ∷ raw "          </div>\n"
    ∷ raw "        </div>\n"
    ∷ raw "      </section>\n"
    ∷ raw "    </div>\n"
    ∷ raw "  "
    ∷ [])

unfoldable pub route_text : PopupTabKey → String
route_text tokens = "/popup/tokens"
route_text collectibles = "/popup/collectibles"
route_text activity = "/popup/activity"

unfoldable pub render_tabs_screen : (Text → Text) → PopupState → WalletSummary → List Piece
unfolding render_root_header render_top_tabs render_search_hint render_primary_actions get_tab_title
    get_tab_items render_item_list route_text
render_tabs_screen lower state wallet = concat (
    raw "\n"
    ∷ raw "    <div class=\"popup-shell\">\n"
    ∷ raw "      "
    ∷ render_root_header wallet
    ∷ raw "\n"
    ∷ raw "      "
    ∷ render_top_tabs state.active_tab
    ∷ raw "\n"
    ∷ raw "      "
    ∷ render_search_hint lower state
    ∷ raw "\n"
    ∷ raw "      "
    ∷ render_primary_actions
    ∷ raw "\n"
    ∷ raw "      <section class=\"ext-card\">\n"
    ∷ raw "        <div class=\"page-head\">\n"
    ∷ raw "          <h2>"
    ∷ raw_text (get_tab_title state.active_tab)
    ∷ raw "</h2>\n"
    ∷ raw "          <span class=\"ext-badge\">"
    ∷ raw_text (decimal (length (get_tab_items state)))
    ∷ raw " 条</span>\n"
    ∷ raw "        </div>\n"
    ∷ raw "        <div class=\"page-scroll\">\n"
    ∷ raw "          "
    ∷ render_item_list state.active_tab (get_tab_items state)
    ∷ raw "\n"
    ∷ raw "        </div>\n"
    ∷ raw "      </section>\n"
    ∷ raw "      <p class=\"footer-note\">当前路径："
    ∷ raw (route_text state.active_tab)
    ∷ raw "</p>\n"
    ∷ raw "    </div>\n"
    ∷ raw "  "
    ∷ [])

-- The parameter of the route on top of the whole stack, also when a modal covers the base.
unfoldable pub detail_id : PopupState → Text
unfolding last
detail_id state = elim (last state.stack) [ none ↦ [] | some route ↦ or_default route.params [] ]

abbrev pub item_or : ListItem → List ListItem → Text → ListItem
item_or first items id = or_default (find (λ item. eq_text item.id id) items) first

unfoldable pub detail_token : PopupState → ListItem
unfolding detail_id
detail_token state = item_or first_token token_items (detail_id state)

unfoldable pub detail_activity : PopupState → ListItem
unfolding detail_id
detail_activity state = item_or first_activity activity_items (detail_id state)

unfoldable pub render_token_detail_screen : PopupState → WalletSummary → List Piece
unfolding render_header_with_back detail_token format_address_short
render_token_detail_screen state wallet =
    let token = detail_token state in
    concat (
      raw "\n"
      ∷ raw "    <div class=\"popup-shell\">\n"
      ∷ raw "      "
      ∷ render_header_with_back (or_default token.symbol []) "back"
      ∷ raw "\n"
      ∷ raw "      <section class=\"ext-card\">\n"
      ∷ raw "        <div class=\"page-scroll\">\n"
      ∷ raw "          <div class=\"detail-head\">\n"
      ∷ raw "            <h2>"
      ∷ esc token.title
      ∷ raw "</h2>\n"
      ∷ raw "            <p class=\"detail-sub\">"
      ∷ esc token.description
      ∷ raw "</p>\n"
      ∷ raw "            <p class=\"detail-meta\">"
      ∷ esc token.meta
      ∷ raw "</p>\n"
      ∷ raw "          </div>\n"
      ∷ raw "          <div class=\"detail-grid\">\n"
      ∷ raw "            <div class=\"detail-row\"><span>钱包</span><strong>"
      ∷ esc wallet.name
      ∷ raw "</strong></div>\n"
      ∷ raw "            <div class=\"detail-row\"><span>地址</span><strong>"
      ∷ esc (format_address_short wallet.address)
      ∷ raw "</strong></div>\n"
      ∷ raw "          </div>\n"
      ∷ raw "        </div>\n"
      ∷ raw "      </section>\n"
      ∷ raw "    </div>\n"
      ∷ raw "  "
      ∷ [])

unfoldable pub render_activity_detail_screen : PopupState → List Piece
unfolding render_header_with_back detail_activity status_text
render_activity_detail_screen state =
    let item = detail_activity state in
    concat (
      raw "\n"
      ∷ raw "    <div class=\"popup-shell\">\n"
      ∷ raw "      "
      ∷ render_header_with_back (codes "Activity") "back"
      ∷ raw "\n"
      ∷ raw "      <section class=\"ext-card\">\n"
      ∷ raw "        <div class=\"page-scroll\">\n"
      ∷ raw "          <div class=\"detail-head\">\n"
      ∷ raw "            <h2>"
      ∷ esc item.title
      ∷ raw "</h2>\n"
      ∷ raw "            <p class=\"detail-sub\">"
      ∷ esc item.description
      ∷ raw "</p>\n"
      ∷ raw "            <p class=\"detail-meta\">"
      ∷ esc item.meta
      ∷ raw "</p>\n"
      ∷ raw "          </div>\n"
      ∷ raw "          <div class=\"detail-grid\">\n"
      ∷ raw "            <div class=\"detail-row\"><span>状态</span><strong>"
      ∷ esc (status_text item.status)
      ∷ raw "</strong></div>\n"
      ∷ raw
          "            <div class=\"detail-row\"><span>备注</span><strong>Mock Detail</strong></div>\n"
      ∷ raw "          </div>\n"
      ∷ raw "        </div>\n"
      ∷ raw "      </section>\n"
      ∷ raw "    </div>\n"
      ∷ raw "  "
      ∷ [])

unfoldable pub render_collectibles_detail_screen : List Piece
unfolding render_header_with_back
render_collectibles_detail_screen = concat (
    raw "\n"
    ∷ raw "    <div class=\"popup-shell\">\n"
    ∷ raw "      "
    ∷ render_header_with_back (codes "Collectible") "back"
    ∷ raw "\n"
    ∷ raw "      <section class=\"ext-card\">\n"
    ∷ raw "        <div class=\"page-scroll\">\n"
    ∷ raw "          <div class=\"empty-state ext-card\">收藏品详情暂以占位呈现</div>\n"
    ∷ raw "        </div>\n"
    ∷ raw "      </section>\n"
    ∷ raw "    </div>\n"
    ∷ raw "  "
    ∷ [])

unfoldable pub render_collectibles_collection_screen : List Piece
unfolding render_header_with_back
render_collectibles_collection_screen = concat (
    raw "\n"
    ∷ raw "    <div class=\"popup-shell\">\n"
    ∷ raw "      "
    ∷ render_header_with_back (codes "Collection") "back"
    ∷ raw "\n"
    ∷ raw "      <section class=\"ext-card\">\n"
    ∷ raw "        <div class=\"page-scroll\">\n"
    ∷ raw "          <div class=\"empty-state ext-card\">集合页暂以占位呈现</div>\n"
    ∷ raw "        </div>\n"
    ∷ raw "      </section>\n"
    ∷ raw "    </div>\n"
    ∷ raw "  "
    ∷ [])

unfoldable pub render_base_content :
    (Text → Text) → PopupState → PopupRoute → WalletSummary → List Piece
unfolding render_locked_screen render_token_detail_screen render_activity_detail_screen
    render_collectibles_detail_screen render_collectibles_collection_screen render_tabs_screen
render_base_content lower state base wallet =
    let page : List Piece = elim base.id [
      | Types.token_detail ↦ render_token_detail_screen state wallet
      | Types.activity_detail ↦ render_activity_detail_screen state
      | Types.collectibles_detail ↦ render_collectibles_detail_screen
      | Types.collectibles_collection ↦ render_collectibles_collection_screen
      | _ ↦ render_tabs_screen lower state wallet
    ] in
    if state.is_locked then render_locked_screen else page
