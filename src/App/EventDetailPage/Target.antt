-- ===== src/App/EventDetailPage/Target.antt =====
-- wallet-app/src/pages/EventDetailPage.tsx: the event on show is the one that the route names.
use soulon_wallet.Prelude.{
  ◌==◌, Bool, true, false, ◌&&◌, ◌||◌, if◌then◌else◌, all, is_empty, eq_text, Text, List, [], ◌∷◌,
  Option, none, some, ◌≡◌, refl, sym, ◌∙◌, ◌⊎◌, inl, inr, arith, ==_iff, Bool-cases,
}
use soulon_wallet.Prelude.Results.{Result, ok, err}
use soulon_wallet.App.Errors.{
  RequestError, api, other_error, no_error, is_session_invalid_error, is_status,
}
use soulon_wallet.App.Csv.{IndexerEvent}
use soulon_wallet.App.Session.{Auth}
use soulon_wallet.App.EventDetailPage.{
  Visit, EventDetailPage, is_target, effective_event, routed, blank, run_effect, open_detail,
  detail_failed, receive_detail, is_mounted, DetailEvent, handle, run,
}
use soulon_wallet.App.EventDetailPage

-- The backend answers a visit with the event that it asks for.
abbrev pub is_answer : DetailEvent → Bool
is_answer (EventDetailPage.detail_received visit (ok event)) = eq_text event.id visit.target
is_answer event = true

abbrev pub fits : Text → Option IndexerEvent → Bool
fits target none = true
fits target (some event) = eq_text event.id target

abbrev names : Text → Option Visit → Bool
names target none = true
names target (some visit) = eq_text visit.target target

eq_text_same : (s : Text) → eq_text s s ≡ true
unfolding eq_text
eq_text_same [] = refl
eq_text_same (c ∷ s) = rw ((==_iff c c).1 refl) (eq_text_same s)

eq_text_trans : (s t u : Text) → eq_text s t ≡ true → eq_text u t ≡ true → eq_text s u ≡ true
unfolding eq_text
eq_text_trans [] [] [] h k = refl
eq_text_trans (c ∷ s) (d ∷ t) (e ∷ u) h k =
    let first : c ≡ d = (==_iff c d).0 (ground arith) in
    let other : e ≡ d = (==_iff e d).0 (ground arith) in
    let here : (c == e) ≡ true = (==_iff c e).1 (first ∙ sym other) in
    let rest : eq_text s u ≡ true = eq_text_trans s t u (ground arith) (ground arith) in
    rw (here) rest
eq_text_trans [] [] (e ∷ u) h k = ground arith
eq_text_trans [] (d ∷ t) u h k = ground arith
eq_text_trans (c ∷ s) [] u h k = ground arith
eq_text_trans (c ∷ s) (d ∷ t) [] h k = ground arith

-- The page needs no visit.
abbrev is_settled : EventDetailPage → Bool
is_settled s = is_empty s.target_event_id || is_target s.target_event_id s.route_event

record IsSound (target : Text) (route_event event : Option IndexerEvent) (mounted : Option Visit)
    : Type 0 where
  event_fits :
      ((is_empty target || is_target target route_event) ≡ true) ⊎ (fits target event ≡ true)
  visit_fits : names target mounted ≡ true

abbrev Sound : EventDetailPage → Type 0
Sound s = IsSound s.target_event_id s.route_event s.event s.mounted

run_effect-Sound : (s : EventDetailPage) → Sound (run_effect s)
unfolding run_effect
run_effect-Sound s = elim (Bool-cases (is_settled s)) [
  | inl settled ↦ rw (settled) (record { event_fits = inl settled; visit_fits = refl })
  | inr wanted ↦
      rw (wanted) (record { event_fits = inr refl; visit_fits = eq_text_same s.target_event_id })
]

detail_failed-Sound :
    (e : RequestError) (s : EventDetailPage)
    → Sound s
    → Sound (record (detail_failed e s) { loading = false })
unfolding detail_failed
detail_failed-Sound (api e) s h = elim (Bool-cases (is_session_invalid_error e)) [
  | inl invalid ↦ rw (invalid) h
  | inr valid ↦ elim (Bool-cases (is_status e.status 404)) [
    | inl missing ↦ rw (valid, missing) h
    | inr other ↦ rw (valid, other) h
  ]
]
detail_failed-Sound (other_error message) s h = h
detail_failed-Sound no_error s h = h

-- The answer to the visit that is mounted fits the target.
fits-answer :
    (visit : Visit) (target id : Text) (current : Option Visit)
    → eq_text id visit.target ≡ true
    → (elim current [
      | none ↦ false
      | some v ↦ v.number == visit.number && eq_text v.target visit.target
    ])
      ≡ true
    → names target current ≡ true
    → eq_text id target ≡ true
fits-answer visit target id none right mounted named = ground arith
fits-answer visit target id (some v) right mounted named =
    let asked : eq_text v.target visit.target ≡ true = ground arith in
    let backwards = eq_text_trans target target v.target (eq_text_same target) named in
    eq_text_trans id v.target target (eq_text_trans id visit.target v.target right asked) backwards

receive_detail-Sound :
    (visit : Visit) (answer : Result RequestError IndexerEvent) (s : EventDetailPage)
    → is_answer (EventDetailPage.detail_received visit answer) ≡ true
    → is_mounted visit s ≡ true
    → Sound s
    → Sound (receive_detail answer s)
unfolding receive_detail
receive_detail-Sound visit (err e) s right mounted h = detail_failed-Sound e s h
receive_detail-Sound visit (ok event) s right mounted h = record {
  event_fits =
      inr (fits-answer visit s.target_event_id event.id s.mounted right mounted h.visit_fits);
  visit_fits = h.visit_fits;
}

handle-Sound :
    (e : DetailEvent) (s : EventDetailPage) → is_answer e ≡ true → Sound s → Sound (handle e s)
unfolding handle
handle-Sound (EventDetailPage.navigated event_id route_event) s right h =
    run_effect-Sound (routed event_id route_event s)
handle-Sound EventDetailPage.auth_changed s right h = run_effect-Sound s
handle-Sound (EventDetailPage.lifecycle_told event) s right h = h
handle-Sound (EventDetailPage.detail_received visit answer) s right h =
    elim (Bool-cases (is_mounted visit s)) [
      | inl mounted ↦ rw (mounted) (receive_detail-Sound visit answer s right mounted h)
      | inr gone ↦ rw (gone) h
    ]

run-Sound :
    (es : List DetailEvent) (s : EventDetailPage)
    → all is_answer es ≡ true
    → Sound s
    → Sound (run es s)
unfolding run
run-Sound [] s right h = h
run-Sound (e ∷ es) s right h =
    let first : is_answer e ≡ true = ground arith in
    let others : all is_answer es ≡ true = ground arith in
    run-Sound es (handle e s) others (handle-Sound e s first h)

shown-fits :
    (target : Text) (route_event event : Option IndexerEvent)
    → ((is_empty target || is_target target route_event) ≡ true) ⊎ (fits target event ≡ true)
    → is_empty target || fits target (if is_target target route_event then route_event else event)
      ≡ true
shown-fits target none event (inl settled) = ground arith
shown-fits target none event (inr right) = ground arith
shown-fits target (some r) event (inl settled) = elim (Bool-cases (eq_text r.id target)) [
  | inl same ↦ rw (same, same) (ground arith)
  | inr other ↦ rw (other) (ground arith)
]
shown-fits target (some r) event (inr right) = elim (Bool-cases (eq_text r.id target)) [
  | inl same ↦ rw (same, same) (ground arith)
  | inr other ↦ rw (other) (ground arith)
]

effective-fits :
    (s : EventDetailPage)
    → Sound s
    → is_empty s.target_event_id || fits s.target_event_id (effective_event s) ≡ true
unfolding effective_event
effective-fits s h = shown-fits s.target_event_id s.route_event s.event h.event_fits

-- From the page as it opens, after any navigation and any answers in any order, also those to visits
-- that are over, the event on show is the one that the route names now, or there is none, unless the
-- route names no event; provided that the backend answers each request with the event it asks for.
pub run-effective_event :
    (event_id : Option Text) (route_event : Option IndexerEvent) (auth : Auth)
    (es : List DetailEvent)
    → all is_answer es ≡ true
    → let s = run es (open_detail event_id route_event auth) in
      is_empty s.target_event_id || fits s.target_event_id (effective_event s) ≡ true
unfolding open_detail
run-effective_event event_id route_event auth es right =
    effective-fits (run es (open_detail event_id route_event auth)) (
      run-Sound es (open_detail event_id route_event auth) right
        (run_effect-Sound (routed event_id route_event (blank route_event auth))))
