-- ===== src/Popup/Render/Parts.antt =====
-- wallet-extension/src/popup/popup_screens.ts: the parts that several screens share.
use soulon_wallet.Prelude.{
  Bool, true, false, if◌then◌else◌, is_empty, length, eq_text, map, String, Text, codes, List, [],
  ◌∷◌, ◌++◌,
}
use soulon_wallet.Prelude.Decimal.{decimal}
use soulon_wallet.Popup.Types.{
  PopupTabKey, tokens, collectibles, activity, Status, default_status, success_status,
  warning_status, danger_status, ListItem, WalletSummary, error, success, neutral, PopupState,
}
use soulon_wallet.Popup.Screens.{format_address_short, get_search_results}
use soulon_wallet.Popup.Html.{Piece, raw, raw_text, esc, concat}

unfoldable pub get_tab_title : PopupTabKey → Text
get_tab_title tokens = codes "Tokens"
get_tab_title collectibles = codes "Collectibles"
get_tab_title activity = codes "Activity"

unfoldable pub get_status_class : Status → Text
get_status_class success_status = codes "status-success"
get_status_class warning_status = codes "status-warning"
get_status_class danger_status = codes "status-danger"
get_status_class default_status = []

-- The status as a string of the source, and the text of its badge.
unfoldable pub status_text : Status → Text
status_text success_status = codes "success"
status_text warning_status = codes "warning"
status_text danger_status = codes "danger"
status_text default_status = codes "default"

unfoldable pub badge_text : Status → Text
unfolding status_text
badge_text default_status = codes "信息"
badge_text status = status_text status

unfoldable pub render_header_with_back : Text → String → List Piece
render_header_with_back title action = concat (
    raw "\n"
    ∷ raw "    <header class=\"popup-header simple\">\n"
    ∷ raw "      <button class=\"icon-button\" data-action=\""
    ∷ raw action
    ∷ raw "\" aria-label=\"back\">←</button>\n"
    ∷ raw "      <div class=\"popup-title-inline\">"
    ∷ esc title
    ∷ raw "</div>\n"
    ∷ raw "      <div class=\"header-spacer\"></div>\n"
    ∷ raw "    </header>\n"
    ∷ raw "  "
    ∷ [])

unfoldable pub render_header_with_close : Text → List Piece
render_header_with_close title = concat (
    raw "\n"
    ∷ raw "    <header class=\"popup-header simple\">\n"
    ∷ raw
        "      <button class=\"icon-button\" data-action=\"close\" aria-label=\"close\">✕</button>\n"
    ∷ raw "      <div class=\"popup-title-inline\">"
    ∷ esc title
    ∷ raw "</div>\n"
    ∷ raw "      <div class=\"header-spacer\"></div>\n"
    ∷ raw "    </header>\n"
    ∷ raw "  "
    ∷ [])

unfoldable pub render_root_header : WalletSummary → List Piece
unfolding format_address_short
render_root_header wallet = concat (
    raw "\n"
    ∷ raw "    <header class=\"popup-header\">\n"
    ∷ raw "      <button class=\"icon-button\" data-action=\"avatar\" aria-label=\"avatar\">\n"
    ∷ raw "        <span class=\"avatar-circle\">A</span>\n"
    ∷ raw "      </button>\n"
    ∷ raw
        "      <button class=\"wallet-button\" data-action=\"wallet-drawer\" aria-label=\"wallet\">\n"
    ∷ raw "        <span class=\"wallet-name\">"
    ∷ esc wallet.name
    ∷ raw "</span>\n"
    ∷ raw "        <span class=\"wallet-address\">"
    ∷ esc (format_address_short wallet.address)
    ∷ raw "</span>\n"
    ∷ raw "      </button>\n"
    ∷ raw "      <button class=\"icon-button\" data-action=\"settings\" aria-label=\"settings\">\n"
    ∷ raw "        <span class=\"icon-dot\"></span>\n"
    ∷ raw "      </button>\n"
    ∷ raw "    </header>\n"
    ∷ raw "  "
    ∷ [])

abbrev pub is_tab : PopupTabKey → PopupTabKey → Bool
is_tab tokens tokens = true
is_tab collectibles collectibles = true
is_tab activity activity = true
is_tab tab other = false

unfoldable pub render_top_tab : PopupTabKey → PopupTabKey → String → Text → List Piece
render_top_tab active_tab tab key label =
    let is_active = is_tab tab active_tab in
    concat (
      raw "<button class=\"tab-item "
      ∷ raw (if is_active then "active" else "")
      ∷ raw "\" role=\"tab\" aria-selected=\""
      ∷ raw (if is_active then "true" else "false")
      ∷ raw "\" data-tab=\""
      ∷ raw key
      ∷ raw "\">"
      ∷ raw_text label
      ∷ raw "</button>"
      ∷ [])

unfoldable pub render_top_tabs : PopupTabKey → List Piece
unfolding render_top_tab
render_top_tabs active_tab = concat (
    raw "\n"
    ∷ raw "    <div class=\"tab-nav\" role=\"tablist\">\n"
    ∷ raw "      "
    ∷ concat (
        render_top_tab active_tab tokens "tokens" (codes "Tokens")
        ∷ render_top_tab active_tab collectibles "collectibles" (codes "Collectibles")
        ∷ render_top_tab active_tab activity "activity" (codes "Activity")
        ∷ [])
    ∷ raw "\n"
    ∷ raw "    </div>\n"
    ∷ raw "  "
    ∷ [])

unfoldable pub render_search_hint : (Text → Text) → PopupState → List Piece
unfolding get_search_results
render_search_hint lower state =
    let hint =
      if is_empty state.search_keyword
      then codes "按 / 键打开搜索"
      else codes "已筛选 " ++ decimal (length (get_search_results lower state)) ++ codes " 条结果" in
    concat (raw "<p class=\"search-feedback\">" ∷ raw_text hint ∷ raw "</p>" ∷ [])

unfoldable pub render_primary_actions : List Piece
render_primary_actions = concat (
    raw "\n"
    ∷ raw "    <div class=\"popup-action-row\">\n"
    ∷ raw "      <button class=\"ext-button\" data-action=\"open-send\">发送</button>\n"
    ∷ raw "      <button class=\"ext-button ghost\" data-action=\"open-receive\">接收</button>\n"
    ∷ raw "    </div>\n"
    ∷ raw "  "
    ∷ [])

unfoldable pub item_action : PopupTabKey → String
item_action tokens = "open-token-detail"
item_action activity = "open-activity-detail"
item_action collectibles = "open-collectible-detail"

unfoldable pub render_item : PopupTabKey → ListItem → List Piece
unfolding get_status_class badge_text item_action
render_item tab item = concat (
    raw "\n"
    ∷ raw "        <article class=\"ext-card clickable\" "
    ∷ raw "data-action=\""
    ∷ raw (item_action tab)
    ∷ raw "\" data-id=\""
    ∷ raw_text item.id
    ∷ raw "\""
    ∷ raw ">\n"
    ∷ raw "          <div class=\"item-row\">\n"
    ∷ raw "            <div>\n"
    ∷ raw "              <p class=\"item-title\">"
    ∷ esc item.title
    ∷ raw "</p>\n"
    ∷ raw "              <p class=\"item-desc\">"
    ∷ esc item.description
    ∷ raw "</p>\n"
    ∷ raw "              <p class=\"item-meta\">"
    ∷ esc item.meta
    ∷ raw "</p>\n"
    ∷ raw "            </div>\n"
    ∷ raw "            <span class=\"ext-badge "
    ∷ raw_text (get_status_class item.status)
    ∷ raw "\">"
    ∷ raw_text (badge_text item.status)
    ∷ raw "</span>\n"
    ∷ raw "          </div>\n"
    ∷ raw "        </article>\n"
    ∷ raw "      "
    ∷ [])

unfoldable pub render_item_list : PopupTabKey → List ListItem → List Piece
unfolding render_item
render_item_list tab [] = raw "<div class=\"empty-state ext-card\">暂无数据</div>"
render_item_list tab (item ∷ items) = concat (map (render_item tab) (item ∷ items))

unfoldable pub render_send_feedback : PopupState → List Piece
render_send_feedback state =
    let cls : String = elim state.send_feedback_tone [
      | error ↦ "error"
      | success ↦ "success"
      | neutral ↦ ""
    ] in
    if is_empty state.send_feedback
    then []
    else concat (
        raw "<div class=\"form-feedback "
        ∷ raw cls
        ∷ raw "\">"
        ∷ esc state.send_feedback
        ∷ raw "</div>"
        ∷ [])

unfoldable pub render_drawer_item : Text → WalletSummary → List Piece
unfolding format_address_short
render_drawer_item active_wallet_id wallet = concat (
    raw "\n"
    ∷ raw "            <button class=\"drawer-item "
    ∷ raw (if eq_text wallet.id active_wallet_id then "active" else "")
    ∷ raw "\" data-action=\"select-wallet\" data-id=\""
    ∷ raw_text wallet.id
    ∷ raw "\">\n"
    ∷ raw "              <span class=\"drawer-title\">"
    ∷ esc wallet.name
    ∷ raw "</span>\n"
    ∷ raw "              <span class=\"drawer-sub\">"
    ∷ esc (format_address_short wallet.address)
    ∷ raw "</span>\n"
    ∷ raw "            </button>\n"
    ∷ raw "          "
    ∷ [])

unfoldable pub render_wallet_drawer : List WalletSummary → Text → List Piece
unfolding render_drawer_item
render_wallet_drawer wallets active_wallet_id = concat (
    raw "\n"
    ∷ raw "    <div class=\"drawer-list\">\n"
    ∷ raw "      "
    ∷ concat (map (render_drawer_item active_wallet_id) wallets)
    ∷ raw "\n"
    ∷ raw "    </div>\n"
    ∷ raw "  "
    ∷ [])
