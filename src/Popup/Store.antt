-- ===== src/Popup/Store.antt =====
-- wallet-extension/src/popup/popup_store.ts: the actions of the popup's store. The state is passed
-- explicitly. `stack[0]` of an empty stack would be undefined; the model leaves such a stack empty,
-- and Popup.Controller.Stack shows that it does not come up.
pub mod Base
use soulon_wallet.Prelude.{
  ℕ, zero, suc, ◌+◌, leb, Bool, true, false, if◌then◌else◌, or_default, length, take, trim, Text,
  codes, List, [], ◌∷◌, ◌++◌, Option, none, some,
}
use mathlib.Core.Option
use soulon_wallet.Popup.Types.{
  PopupTabKey, tokens, PopupPresentation, pushed, modal, transparent_modal, PopupRoute, tabs,
  WalletSummary, SendDraft, SendDraftErrors, FeedbackTone, neutral, PopupState,
}

abbrev pub default_wallets : List WalletSummary
default_wallets =
    record {
      id = codes "wallet-1";
      name = codes "Account 1";
      address = codes "cosmos1k8pa9c38g4nq2f08d63a9gn6vdg8v3duaw2sp4";
    }
    ∷ record {
      id = codes "wallet-2";
      name = codes "Account 2";
      address = codes "cosmos1l3l7m9q2f08d63a9gn6vdg8v3duaw2sp4k8pa9c";
    }
    ∷ []

abbrev pub root_route : PopupRoute
root_route = record {
  id = tabs;
  presentation = pushed;
  title = none;
  show_close = false;
  close_behavior = none;
  params = none;
}

abbrev pub no_errors : SendDraftErrors
no_errors = record { to = none; amount = none; memo = none }

abbrev pub initial_state : PopupState
initial_state = record {
  active_tab = tokens;
  stack = root_route ∷ [];
  wallets = default_wallets;
  active_wallet_id = codes "wallet-1";
  is_locked = false;
  search_input_value = [];
  search_keyword = [];
  send_draft = record { token_id = codes "token-1"; to = []; amount = []; memo = [] };
  send_draft_errors = no_errors;
  send_feedback = [];
  send_feedback_tone = neutral;
  send_submitting = false;
}

-- `stack.slice(0, -1)`.
unfoldable pub drop_last : List PopupRoute → List PopupRoute
drop_last [] = []
drop_last (r ∷ []) = []
drop_last (r ∷ s ∷ rs) = r ∷ drop_last (s ∷ rs)

abbrev pub is_pushed : PopupPresentation → Bool
is_pushed pushed = true
is_pushed modal = false
is_pushed transparent_modal = false

-- The last index with a pushed route, which the loop from the end finds first.
abbrev pub later : PopupRoute → Option ℕ → Option ℕ
later r (some i) = some (suc i)
later r none = if is_pushed r.presentation then some 0 else none

unfoldable pub last_pushed : List PopupRoute → Option ℕ
last_pushed [] = none
last_pushed (r ∷ rs) = later r (last_pushed rs)

unfoldable pub base_index : List PopupRoute → ℕ
unfolding last_pushed
base_index stack = or_default (last_pushed stack) 0

unfoldable pub set_active_tab : PopupTabKey → PopupState → PopupState
set_active_tab tab s = record s { active_tab = tab }

unfoldable pub push : PopupRoute → PopupState → PopupState
push route s = record s { stack = s.stack ++ route ∷ [] }

unfoldable pub replace : PopupRoute → PopupState → PopupState
replace route s =
    if leb (length s.stack) 1
    then record s { stack = root_route ∷ route ∷ [] }
    else record s { stack = drop_last s.stack ++ route ∷ [] }

unfoldable pub pop : PopupState → PopupState
pop s = if leb (length s.stack) 1 then s else record s { stack = drop_last s.stack }

unfoldable pub pop_to_root : PopupState → PopupState
pop_to_root s = record s { stack = take 1 s.stack }

unfoldable pub pop_to_base : PopupState → PopupState
unfolding base_index
pop_to_base s = record s { stack = take (base_index s.stack + 1) s.stack }

unfoldable pub reset_to_root : PopupState → PopupState
reset_to_root s = record s { stack = take 1 s.stack }

unfoldable pub set_locked : Bool → PopupState → PopupState
set_locked is_locked s = record s { is_locked = is_locked }

unfoldable pub set_active_wallet : Text → PopupState → PopupState
set_active_wallet id s = record s { active_wallet_id = id }

unfoldable pub set_search_input : (Text → Text) → Text → PopupState → PopupState
set_search_input lower text s = record s {
  search_input_value = text;
  search_keyword = lower (trim text);
}

unfoldable pub reset_send_feedback : PopupState → PopupState
reset_send_feedback s = record s {
  send_draft_errors = no_errors;
  send_feedback = [];
  send_feedback_tone = neutral;
}

pub data DraftKey : Type 0 where
  token_id_key to_key amount_key memo_key : DraftKey

unfoldable pub update_send_draft : DraftKey → Text → PopupState → PopupState
update_send_draft token_id_key text s = record s {
  send_draft = record (s.send_draft) { token_id = text };
}
update_send_draft to_key text s = record s { send_draft = record (s.send_draft) { to = text } }
update_send_draft amount_key text s = record s {
  send_draft = record (s.send_draft) { amount = text };
}
update_send_draft memo_key text s = record s { send_draft = record (s.send_draft) { memo = text } }

unfoldable pub set_send_submitting : Bool → PopupState → PopupState
set_send_submitting flag s = record s { send_submitting = flag }

unfoldable pub set_send_feedback : Text → FeedbackTone → PopupState → PopupState
set_send_feedback message tone s = record s { send_feedback = message; send_feedback_tone = tone }

unfoldable pub set_send_errors : SendDraftErrors → PopupState → PopupState
set_send_errors errors s = record s { send_draft_errors = errors }
