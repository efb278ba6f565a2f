-- ===== src/Popup/Store/Base.antt =====
-- wallet-extension/src/popup: `popToBase` and the layers that `getBaseAndOverlay` shows.
use soulon_wallet.Prelude.{
  ℕ, zero, suc, ◌+◌, List, [], ◌∷◌, Option, none, some, take, drop, get_elem?, or_default, ◌≡◌,
  refl, ap, ◌∙◌, if◌then◌else◌, Bool, true, false, arith,
}
use soulon_wallet.Popup.Types.{PopupRoute, PopupState}
use soulon_wallet.Popup.Store.{is_pushed, later, last_pushed, base_index, pop_to_base}
use soulon_wallet.Popup.Screens.{get_base_and_overlay}

drop-take : (n : ℕ) (rs : List PopupRoute) → drop n (take n rs) ≡ []
drop-take zero rs = refl
drop-take (suc n) [] = refl
drop-take (suc n) (r ∷ rs) = drop-take n rs

get_elem?-take : (n : ℕ) (rs : List PopupRoute) → get_elem? (take (suc n) rs) n ≡ get_elem? rs n
get_elem?-take n [] = refl
get_elem?-take zero (r ∷ rs) = refl
get_elem?-take (suc n) (r ∷ rs) = get_elem?-take n rs

-- No index but 0 is found behind a route with nothing pushed after it.
later-none : (p : Bool) → or_default (if p then some zero else none) zero ≡ zero
later-none true = refl
later-none false = refl

later-none-some : (p : Bool) (i : ℕ) → (if p then some zero else none) ≡ some i → i ≡ zero
later-none-some true i h = cc (h)
later-none-some false i h = absurd (cc (h))

last_pushed-later :
    (r : PopupRoute) (rs : List PopupRoute) (i : ℕ) (found : Option ℕ)
    → ((j : ℕ) → last_pushed rs ≡ some j → last_pushed (take (suc j) rs) ≡ some j)
    → last_pushed rs ≡ found
    → later r found ≡ some i
    → last_pushed (r ∷ take i rs) ≡ some i
unfolding last_pushed
last_pushed-later r rs i (some j) again e h =
    let same : suc j ≡ i = cc (h) in rw (← same, again j e)
last_pushed-later r rs i none again e h =
    let same : i ≡ 0 = later-none-some (is_pushed r.presentation) i h in
    rw (same) (h ∙ ap some same)

last_pushed-take :
    (rs : List PopupRoute) (i : ℕ)
    → last_pushed rs ≡ some i
    → last_pushed (take (suc i) rs) ≡ some i
unfolding last_pushed
last_pushed-take [] i h = h
last_pushed-take (r ∷ rs) i h =
    last_pushed-later r rs i (last_pushed rs) (last_pushed-take rs) refl h

base_index-found :
    (rs : List PopupRoute) (found : Option ℕ)
    → last_pushed rs ≡ found
    → base_index (take (suc (or_default found 0)) rs) ≡ or_default found 0
unfolding base_index last_pushed
base_index-found rs (some i) h = ap (λ found. or_default found 0) (last_pushed-take rs i h)
base_index-found [] none h = refl
base_index-found (r ∷ rs) none h = later-none (is_pushed r.presentation)

-- `popToBase` closes every layer above the base and shows the base as before: of the stack that
-- it leaves, the base is the same route, and there is no overlay, opaque or transparent.
pub get_base_and_overlay-pop_to_base :
    (s : PopupState)
    → get_base_and_overlay (pop_to_base s).stack ≡ record {
      base = (get_base_and_overlay s.stack).base;
      overlay = [];
      transparent_overlay = [];
    }
unfolding get_base_and_overlay pop_to_base base_index
get_base_and_overlay-pop_to_base s =
    let i = or_default (last_pushed s.stack) 0 in
    let step : i + 1 ≡ suc i = omega arith in
    let kept : or_default (last_pushed (take (suc i) s.stack)) 0 ≡ i =
      base_index-found s.stack (last_pushed s.stack) refl in
    rw (step, kept, step, drop-take (suc i) s.stack, get_elem?-take i s.stack)
