-- ===== src/Popup/Types.antt =====
-- wallet-extension/src/popup/popup_types.ts: routes, the send draft and the state of the popup.
-- The parameters of a route are its `id`, the only one that the code uses.
use soulon_wallet.Prelude.{Bool, Text, List, Option}

pub data PopupTabKey : Type 0 where
  tokens collectibles activity : PopupTabKey

pub data CloseBehavior : Type 0 where
  go_back pop_root_once pop_root_twice reset : CloseBehavior

pub data PopupScreenId : Type 0 where
  tabs token_detail activity_detail collectibles_detail collectibles_collection : PopupScreenId
  search_screen wallet_drawer avatar_popover : PopupScreenId
  send_token send_address send_amount send_confirm : PopupScreenId
  receive settings unlock : PopupScreenId

pub data PopupPresentation : Type 0 where
  pushed modal transparent_modal : PopupPresentation

pub record PopupRoute : Type 0 where
  pub id : PopupScreenId
  pub presentation : PopupPresentation
  pub title : Option Text
  pub show_close : Bool
  pub close_behavior : Option CloseBehavior
  pub params : Option Text

pub record WalletSummary : Type 0 where
  pub id : Text
  pub name : Text
  pub address : Text

pub data Status : Type 0 where
  default_status success_status warning_status danger_status : Status

-- `TokenListItem`, `ActivityListItem` and `CollectibleListItem`; only a token has a symbol.
pub record ListItem : Type 0 where
  pub id : Text
  pub symbol : Option Text
  pub title : Text
  pub description : Text
  pub meta : Text
  pub status : Status

pub record SendDraft : Type 0 where
  pub token_id : Text
  pub to : Text
  pub amount : Text
  pub memo : Text

-- The messages beside the fields; no code sets one for the token.
pub record SendDraftErrors : Type 0 where
  pub to : Option Text
  pub amount : Option Text
  pub memo : Option Text

pub data FeedbackTone : Type 0 where
  neutral error success : FeedbackTone

pub record PopupState : Type 0 where
  pub active_tab : PopupTabKey
  pub stack : List PopupRoute
  pub wallets : List WalletSummary
  pub active_wallet_id : Text
  pub is_locked : Bool
  pub search_input_value : Text
  pub search_keyword : Text
  pub send_draft : SendDraft
  pub send_draft_errors : SendDraftErrors
  pub send_feedback : Text
  pub send_feedback_tone : FeedbackTone
  pub send_submitting : Bool
