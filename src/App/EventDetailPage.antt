-- ===== src/App/EventDetailPage.antt =====
-- wallet-app/src/pages/EventDetailPage.tsx: the page of one event. A visit is one run of the effect
-- that loads; the effect runs again when the route names another event or brings another one
-- along, and when the session changes and `signOut` with it.
pub mod Target
use soulon_wallet.Prelude.{
  ℕ, suc, ◌==◌, Bool, true, false, ◌&&◌, ◌||◌, if◌then◌else◌, is_empty, eq_text, trim, or_default,
  String, Text, codes, List, [], ◌∷◌, ◌++◌, Option, none, some,
}
use soulon_wallet.Prelude.Results.{Result, ok, err}
use soulon_wallet.App.Errors.{
  RequestError, api, other_error, no_error, is_session_invalid_error, is_status,
}
use soulon_wallet.App.Client.{RequestLifecycleEvent}
use soulon_wallet.App.Csv.{IndexerEvent}
use soulon_wallet.App.Session.{Auth, sign_out}
use soulon_wallet.App.Login.{status_text}
use soulon_wallet.App.EventsState.{attribution_text, last_attribution}

-- A run of the effect that asks the backend, by its number, and the event that it asks for.
pub record Visit : Type 0 where
  pub number : ℕ
  pub target : Text

-- `mounted` is the visit whose answer is still wanted, and `visits` counts them.
pub record EventDetailPage : Type 0 where
  pub target_event_id : Text
  pub route_event : Option IndexerEvent
  pub event : Option IndexerEvent
  pub loading : Bool
  pub error : Text
  pub lifecycle : Option RequestLifecycleEvent
  pub mounted : Option Visit
  pub visits : ℕ
  pub auth : Auth

abbrev pub is_target : Text → Option IndexerEvent → Bool
is_target target none = false
is_target target (some event) = eq_text event.id target

unfoldable pub effective_event : EventDetailPage → Option IndexerEvent
effective_event s = if is_target s.target_event_id s.route_event then s.route_event else s.event

-- The effect, with the clean-up of the one before.
unfoldable pub run_effect : EventDetailPage → EventDetailPage
run_effect s =
    if is_empty s.target_event_id || is_target s.target_event_id s.route_event
    then record s { mounted = none }
    else record s {
      loading = true;
      error = [];
      event = none;
      mounted = some (record { number = s.visits; target = s.target_event_id });
      visits = suc s.visits;
    }

-- The page with the route's parameter, which may be missing, and the event that comes along.
abbrev pub routed : Option Text → Option IndexerEvent → EventDetailPage → EventDetailPage
routed event_id route_event s = record s {
  target_event_id = trim (or_default event_id []);
  route_event = route_event;
}

abbrev pub blank : Option IndexerEvent → Auth → EventDetailPage
blank event auth = record {
  target_event_id = [];
  route_event = none;
  event = event;
  loading = false;
  error = [];
  lifecycle = none;
  mounted = none;
  visits = 0;
  auth = auth;
}

-- The first render.
unfoldable pub open_detail : Option Text → Option IndexerEvent → Auth → EventDetailPage
unfolding run_effect
open_detail event_id route_event auth =
    run_effect (routed event_id route_event (blank route_event auth))

unfoldable pub detail_failed : RequestError → EventDetailPage → EventDetailPage
unfolding is_session_invalid_error sign_out
detail_failed (api e) s =
    if is_session_invalid_error e
    then record s { auth = sign_out (some (codes "会话已失效，请重新登录。")) s.auth }
    else if is_status e.status 404
    then record s { error = codes "未找到事件 " ++ s.target_event_id }
    else record s {
      error =
          codes "code="
          ++ e.code
          ++ codes " status="
          ++ status_text e.status
          ++ codes " msg="
          ++ e.message
          ++ attribution_text (last_attribution s.lifecycle);
    }
detail_failed (other_error message) s = record s { error = message }
detail_failed no_error s = record s { error = codes "未知错误" }

unfoldable pub receive_detail : Result RequestError IndexerEvent → EventDetailPage → EventDetailPage
unfolding detail_failed
receive_detail (ok event) s = record s { event = some event; loading = false }
receive_detail (err e) s = record (detail_failed e s) { loading = false }

abbrev pub is_mounted : Visit → EventDetailPage → Bool
is_mounted visit s = elim s.mounted [
  | none ↦ false
  | some current ↦ current.number == visit.number && eq_text current.target visit.target
]

-- The answer of a visit, or a report of its request; `lifecycle` is the reference that the error
-- reads, which any visit sets.
pub data DetailEvent : Type 0 where
  navigated : Option Text → Option IndexerEvent → DetailEvent
  detail_received : Visit → Result RequestError IndexerEvent → DetailEvent
  auth_changed : DetailEvent
  lifecycle_told : RequestLifecycleEvent → DetailEvent

unfoldable pub handle : DetailEvent → EventDetailPage → EventDetailPage
unfolding run_effect receive_detail
handle (navigated event_id route_event) s = run_effect (routed event_id route_event s)
handle (detail_received visit answer) s =
    let received = receive_detail answer s in if is_mounted visit s then received else s
handle auth_changed s = run_effect s
handle (lifecycle_told event) s = record s { lifecycle = some event }

unfoldable pub run : List DetailEvent → EventDetailPage → EventDetailPage
unfolding handle
run [] s = s
run (e ∷ es) s = run es (handle e s)
