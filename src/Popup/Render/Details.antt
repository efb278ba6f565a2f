-- ===== src/Popup/Render/Details.antt =====
-- wallet-extension/src/popup: which item a detail page shows.
use mathlib.Core.Option.{some-injective, none-ne-some}
use mathlib.Core.Path.{subst}
use soulon_wallet.Prelude.{
  ℕ, suc, zero, eq_text, or_default, codes, Text, List, [], ◌∷◌, ◌++◌, none, some, ◌≡◌, refl, ap,
  ◌∙◌, get_elem?, ◌+◌, true, length, drop, arith,
}
use soulon_wallet.Popup.Types
use soulon_wallet.Popup.Types.{PopupRoute, PopupState, ListItem}
use soulon_wallet.Popup.Store.{is_pushed, last_pushed, base_index, push}
use soulon_wallet.Popup.Screens.{first_token, token_items, get_base_and_overlay}
use soulon_wallet.Popup.Controller.{last, handle, route_of, search_route, search_over, open_search}
use soulon_wallet.Popup.Controller
use soulon_wallet.Popup.Render.Pages.{detail_id, detail_token, item_or}

last-append : (r : PopupRoute) (rs : List PopupRoute) → last (rs ++ r ∷ []) ≡ some r
unfolding last
last-append r [] = refl
last-append r (q ∷ []) = refl
last-append r (q ∷ p ∷ rs) = last-append r (p ∷ rs)

detail_token-push :
    (route : PopupRoute) (s : PopupState)
    → detail_token (push route s) ≡ item_or first_token token_items (or_default route.params [])
unfolding detail_token detail_id push
detail_token-push route s =
    ap
      (λ top.
        item_or first_token token_items (elim top [ none ↦ [] | some r ↦ or_default r.params [] ]))
      (last-append route s.stack)

abbrev Found : ListItem → Type 0
Found item = item_or first_token token_items item.id ≡ item

-- Each token is found by its `id`.
item_or-token_items : (i : ℕ) (item : ListItem) → get_elem? token_items i ≡ some item → Found item
unfolding codes eq_text
item_or-token_items zero item h = subst Found (some-injective _ item h) refl
item_or-token_items (suc zero) item h = subst Found (some-injective _ item h) refl
item_or-token_items (suc (suc zero)) item h = subst Found (some-injective _ item h) refl
item_or-token_items (suc (suc (suc i))) item h = absurd (none-ne-some item h)

-- A pushed route becomes the base, with nothing above it.
last_pushed-append :
    (r : PopupRoute) (rs : List PopupRoute)
    → is_pushed r.presentation ≡ true
    → last_pushed (rs ++ r ∷ []) ≡ some (length rs)
unfolding last_pushed
last_pushed-append r [] h = rw h
last_pushed-append r (q ∷ rs) h = rw (last_pushed-append r rs h)

drop-append : (r : PopupRoute) (rs : List PopupRoute) → drop (suc (length rs)) (rs ++ r ∷ []) ≡ []
drop-append r [] = refl
drop-append r (q ∷ rs) = drop-append r rs

-- So the slash key opens the search over it.
open_search-push :
    (r : PopupRoute) (s : PopupState)
    → is_pushed r.presentation ≡ true
    → open_search (push r s) ≡ push search_route (push r s)
unfolding open_search get_base_and_overlay base_index push last search_over
open_search-push r s h =
    let step : length s.stack + 1 ≡ suc (length s.stack) = omega arith in
    rw (last_pushed-append r s.stack h, step, drop-append r s.stack)

-- The token list opens the page of the token clicked. If the slash key is pressed there, the search
-- opens over that page, and the page below shows the first token, whichever was clicked.
pub detail_token-handle :
    (lower : Text → Text) (s : PopupState) (i : ℕ) (item : ListItem)
    → get_elem? token_items i ≡ some item
    → (detail_token (handle lower (Controller.token_clicked item.id) s) ≡ item)
      × (detail_token (
            handle lower Controller.slash_pressed
              (handle lower (Controller.token_clicked item.id) s))
          ≡ first_token)
unfolding handle eq_text
detail_token-handle lower s i item h =
    let token = route_of Types.token_detail Types.pushed (codes "Token") (some item.id) in
    (
      detail_token-push token s ∙ item_or-token_items i item h,
      ap detail_token (open_search-push token s refl)
          ∙ detail_token-push search_route (push token s),
    )
