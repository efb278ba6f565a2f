-- ===== src/Popup/Screens.antt =====
-- wallet-extension/src/popup/popup_screens.ts: the items on show, the layers of the stack, the
-- search, and the validation of the send draft. The functions that build HTML are left out.
pub mod Draft
use soulon_wallet.Prelude.{
  ℕ, ◌+◌, ◌-◌, leb, ltb, ◌==◌, Bool, true, false, not, ◌&&◌, ◌||◌, if◌then◌else◌, is_some, length,
  take, drop, get_elem?, keep, all, any, is_empty, is_digit, is_lower, trim, strip_prefix,
  split_at_first, includes, Text, codes, List, [], ◌∷◌, ◌++◌, Option, none, some,
}
use soulon_wallet.Popup.Types.{
  PopupTabKey, tokens, collectibles, activity, PopupPresentation, pushed, modal, transparent_modal,
  PopupRoute, ListItem, default_status, success_status, warning_status, danger_status, SendDraft,
  SendDraftErrors, PopupState,
}
use soulon_wallet.Popup.Store.{base_index}

abbrev pub first_token : ListItem
first_token = record {
  id = codes "token-1";
  symbol = some (codes "SOUL");
  title = codes "SOUL";
  description = codes "可用余额 1,243.66";
  meta = codes "24h +2.8%";
  status = success_status;
}

abbrev pub token_items : List ListItem
token_items =
    first_token
    ∷ record {
      id = codes "token-2";
      symbol = some (codes "stSOUL");
      title = codes "stSOUL";
      description = codes "质押余额 325.24";
      meta = codes "预计年化 11.2%";
      status = default_status;
    }
    ∷ record {
      id = codes "token-3";
      symbol = some (codes "uUSDC");
      title = codes "uUSDC";
      description = codes "可用余额 845.20";
      meta = codes "跨链通道 channel-8";
      status = warning_status;
    }
    ∷ []

abbrev pub first_activity : ListItem
first_activity = record {
  id = codes "activity-1";
  symbol = none;
  title = codes "发送成功";
  description = codes "向 cosmos1...k2r9 转账 8.50 SOUL";
  meta = codes "2 分钟前 · Tx#B34B";
  status = success_status;
}

abbrev pub activity_items : List ListItem
activity_items =
    first_activity
    ∷ record {
      id = codes "activity-2";
      symbol = none;
      title = codes "待确认";
      description = codes "向 osmo1...tc94 转账 32.00 uUSDC";
      meta = codes "刚刚 · 等待区块确认";
      status = warning_status;
    }
    ∷ record {
      id = codes "activity-3";
      symbol = none;
      title = codes "失败重试";
      description = codes "Gas 估算不足，交易未上链";
      meta = codes "12 分钟前 · 可重试";
      status = danger_status;
    }
    ∷ []

abbrev pub collectible_items : List ListItem
collectible_items =
    record {
      id = codes "collectible-1";
      symbol = none;
      title = codes "Mad Lads #1844";
      description = codes "Collection: Mad Lads";
      meta = codes "Floor 64.1 SOL";
      status = warning_status;
    }
    ∷ record {
      id = codes "collectible-2";
      symbol = none;
      title = codes "xNFT Badge";
      description = codes "Collection: Backpack";
      meta = codes "Verified";
      status = default_status;
    }
    ∷ record {
      id = codes "collectible-3";
      symbol = none;
      title = codes "Genesis Access";
      description = codes "Collection: Coral";
      meta = codes "Unlisted";
      status = success_status;
    }
    ∷ []

abbrev pub is_modal : PopupPresentation → Bool
is_modal pushed = false
is_modal modal = true
is_modal transparent_modal = false

abbrev pub is_transparent : PopupPresentation → Bool
is_transparent pushed = false
is_transparent modal = false
is_transparent transparent_modal = true

-- `base` is undefined for an empty stack.
pub record Layers : Type 0 where
  pub base : Option PopupRoute
  pub overlay : List PopupRoute
  pub transparent_overlay : List PopupRoute

unfoldable pub get_base_and_overlay : List PopupRoute → Layers
unfolding base_index
get_base_and_overlay stack =
    let above = drop (base_index stack + 1) stack in
    record {
      base = get_elem? stack (base_index stack);
      overlay = keep (λ route. is_modal route.presentation) above;
      transparent_overlay = keep (λ route. is_transparent route.presentation) above;
    }

unfoldable pub get_tab_items : PopupState → List ListItem
get_tab_items state = elim state.active_tab [
  | tokens ↦ token_items
  | collectibles ↦ collectible_items
  | activity ↦ activity_items
]

-- `address.slice(0, 8)`, three dots and `address.slice(-4)`.
unfoldable pub format_address_short : Text → Text
format_address_short address =
    if leb (length address) 12
    then address
    else take 8 address ++ codes "..." ++ drop (length address - 4) address

abbrev pub search_text : ListItem → Text
search_text item = item.title ++ codes " " ++ item.description ++ codes " " ++ item.meta

-- An empty keyword is falsy.
unfoldable pub get_search_results : (Text → Text) → PopupState → List ListItem
unfolding includes
get_search_results lower state =
    if is_empty state.search_keyword
    then []
    else keep (λ item. includes (lower (search_text item)) state.search_keyword)
        (token_items ++ collectible_items ++ activity_items)

abbrev pub is_alphanumeric : ℕ → Bool
is_alphanumeric c = is_digit c || is_lower c

-- `/^cosmos1[0-9a-z]{20,}$/`.
unfoldable pub is_cosmos_address : Text → Bool
unfolding strip_prefix codes
is_cosmos_address to = elim (strip_prefix (codes "cosmos1") to) [
  | none ↦ false
  | some body ↦ all is_alphanumeric body && leb 20 (length body)
]

abbrev pub is_digits : Text → Bool
is_digits s = not (is_empty s) && all is_digit s

-- `/^\d+(\.\d{1,6})?$/`.
unfoldable pub is_decimal : Text → Bool
unfolding split_at_first
is_decimal amount = elim (split_at_first b'.' amount) [
  | none ↦ is_digits amount
  | some parts ↦ is_digits parts.0 && (is_digits parts.1 && leb (length parts.1) 6)
]

abbrev pub is_nonzero_digit : ℕ → Bool
is_nonzero_digit c = leb b'1' c && leb c b'9'

-- `Number(trimmedAmount) > 0`, of a text that `is_decimal` accepts: a number with at most six
-- decimals is 0 if and only if its digits are, since none that small rounds to 0.
abbrev pub is_positive : Text → Bool
is_positive amount = any is_nonzero_digit amount

abbrev pub error_if : Bool → Text → Option Text
error_if flag message = if flag then some message else none

unfoldable pub validate_send_draft : (Text → Text) → PopupState → SendDraftErrors
unfolding is_cosmos_address is_decimal
validate_send_draft lower state =
    let trimmed_to = lower (trim state.send_draft.to) in
    let trimmed_amount = trim state.send_draft.amount in
    let trimmed_memo = trim state.send_draft.memo in
    record {
      to = error_if (not (is_cosmos_address trimmed_to)) (codes "请输入有效 cosmos 地址（cosmos1...）");
      amount =
          error_if (not (is_decimal trimmed_amount) || not (is_positive trimmed_amount))
            (codes "请输入大于 0 的金额，最多 6 位小数");
      memo = error_if (ltb 60 (length trimmed_memo)) (codes "备注需不超过 60 个字符");
    }

-- Whether a message stands beside a field; an empty one does not occur.
abbrev pub has_errors : SendDraftErrors → Bool
has_errors errors = is_some errors.to || is_some errors.amount || is_some errors.memo
