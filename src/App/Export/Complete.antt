-- ===== src/App/Export/Complete.antt =====
-- wallet-app/src/lib/eventExport.ts: what is collected from a server of pages.
use soulon_wallet.Prelude.{
  ℕ, zero, suc, ◌+◌, ◌*◌, ◌≤◌, ◌<◌, ltb, ltb→lt, Bool, false, is_empty, length, take, drop,
  or_default, List, [], ◌∷◌, ◌++◌, ◌≡◌, refl, ap, sym, arith, Bool-cases, inl, inr,
}
use soulon_wallet.Prelude.Results.{Result, ok}
use soulon_wallet.App.Export.{
  IndexerEventsResponse, ExportError, CollectAllEventsOptions, FetchEventsPage, finish, receive,
  collect_from, collect_all_events,
}

module _ {ℓ} {E : Type ℓ} where
  take-all : (n : ℕ) (xs : List E) → length xs ≤ n → take n xs ≡ xs
  take-all zero [] h = refl
  take-all zero (x ∷ xs) h = absurd (omega (arith, h))
  take-all (suc n) [] h = refl
  take-all (suc n) (x ∷ xs) h = ap (λ l. x ∷ l) (take-all n xs (omega (arith, h)))

  take-nil : (n : ℕ) → take {A = E} n [] ≡ []
  take-nil zero = refl
  take-nil (suc n) = refl

  take-take-drop : (o s : ℕ) (xs : List E) → take o xs ++ take s (drop o xs) ≡ take (o + s) xs
  take-take-drop zero s xs = ap (λ n. take n xs) (omega arith)
  take-take-drop (suc o) zero [] = sym (take-nil (suc o + 0))
  take-take-drop (suc o) (suc s) [] = sym (take-nil (suc o + suc s))
  take-take-drop (suc o) s (x ∷ xs) =
      let step : suc o + s ≡ suc (o + s) = omega arith in
      rw (step) (ap (λ l. x ∷ l) (take-take-drop o s xs))

  length-take-drop : (o s : ℕ) (xs : List E) → o + s ≤ length xs → length (take s (drop o xs)) ≡ s
  length-take-drop o zero xs h = refl
  length-take-drop zero (suc s) [] h = absurd (omega (arith, h))
  length-take-drop zero (suc s) (x ∷ xs) h = ap suc (length-take-drop zero s xs (omega (arith, h)))
  length-take-drop (suc o) (suc s) [] h = absurd (omega (arith, h))
  length-take-drop (suc o) (suc s) (x ∷ xs) h = length-take-drop o (suc s) xs (omega (arith, h))

  is_empty-take-drop :
      (o s : ℕ) (xs : List E) → o < length xs → 0 < s → is_empty (take s (drop o xs)) ≡ false
  is_empty-take-drop o zero xs h k = absurd (omega (arith, k))
  is_empty-take-drop zero (suc s) [] h k = absurd (omega (arith, h))
  is_empty-take-drop zero (suc s) (x ∷ xs) h k = refl
  is_empty-take-drop (suc o) (suc s) [] h k = absurd (omega (arith, h))
  is_empty-take-drop (suc o) (suc s) (x ∷ xs) h k =
      is_empty-take-drop o (suc s) xs (omega (arith, h)) k

  length-take_le : (n : ℕ) (xs : List E) → length (take n xs) ≤ length xs
  length-take_le zero xs = omega arith
  length-take_le (suc n) [] = omega arith
  length-take_le (suc n) (x ∷ xs) = omega (arith, length-take_le n xs)

  -- A server that pages through one list answers every fetch so.
  abbrev pub page_of : List E → ℕ → ℕ → IndexerEventsResponse E
  page_of all_events limit offset = record {
    events = take limit (drop offset all_events);
    total = length all_events;
    has_more = ltb (offset + limit) (length all_events);
  }

-- A server that pages through a list, a signal that is never aborted, and limits that the list
-- does not pass.
module _ {ℓ} {E : Type ℓ} (fetch_page : FetchEventsPage E) (aborted : ℕ → Bool)
    (all_events : List E) (page_size max_records : ℕ)
    (pages : (p limit offset : ℕ)
      → fetch_page p limit offset ≡ ok (page_of all_events limit offset))
    (running : (p : ℕ) → aborted p ≡ false) (few : length all_events ≤ max_records)
    (some_size : 0 < page_size) where
  finish-all :
      (p o : ℕ)
      → length all_events ≤ o
      → finish fetch_page aborted p (take o all_events) ≡ ok all_events
  unfolding finish
  finish-all p o h = rw (running p) (ap ok (take-all o all_events h))

  not_many : (n : ℕ) → n ≤ max_records → ltb max_records n ≡ false
  not_many n h = ground (arith, h)

  receive-page :
      (p o : ℕ) (again : ℕ → List E → Result ExportError (List E))
      → (o + page_size < length all_events
          → again page_size (take (o + page_size) all_events) ≡ ok all_events)
      → receive fetch_page aborted max_records p
          (take o all_events)
          again
          (ok (page_of all_events page_size o))
        ≡ ok all_events
  unfolding receive
  receive-page p o again ih =
      let total = not_many (length all_events) few in
      let shorter = length-take_le (o + page_size) all_events in
      let collected =
        not_many (length (take (o + page_size) all_events)) (omega (arith, few, shorter)) in
      elim (Bool-cases (ltb (o + page_size) (length all_events))) [
        | inl more ↦
            let open_end = ltb→lt _ _ more in
            rw
              (
                receive,
                take-take-drop o page_size all_events,
                total,
                collected,
                is_empty-take-drop o page_size all_events (omega (arith, open_end)) some_size,
                more,
                length-take-drop o page_size all_events (omega (arith, open_end)),
              )
              (ih open_end)
        | inr last ↦
            let done = finish-all (p + 1) (o + page_size) (ground arith) in
            elim (Bool-cases (is_empty (take page_size (drop o all_events)))) [
              | inl blank ↦
                  rw (receive, take-take-drop o page_size all_events, total, collected, blank) done
              | inr there ↦
                  rw (receive, take-take-drop o page_size all_events, total, collected, there, last)
                    done
            ]
      ]

  collect_from-all :
      (rounds p o : ℕ)
      → length all_events ≤ o + rounds * page_size
      → collect_from fetch_page aborted page_size max_records rounds p o (take o all_events)
        ≡ ok all_events
  unfolding collect_from
  collect_from-all zero p o h = finish-all p o (omega (arith, h))
  collect_from-all (suc rounds) p o h =
      rw (collect_from, running p, pages p page_size o)
        (receive-page p o
          (λ n collected.
            collect_from fetch_page aborted page_size max_records rounds (p + 1) (o + n) collected)
          (λ more. collect_from-all rounds (p + 1) (o + page_size) (omega (arith, h))))

-- From a server that pages through a list no longer than the limits allow, with a signal that is
-- not aborted, every event is collected, once and in order.
pub collect_all_events-all {ℓ} :
    {E : Type ℓ} (fetch_page : FetchEventsPage E) (aborted : ℕ → Bool) (all_events : List E)
    (options : CollectAllEventsOptions)
    → ((p limit offset : ℕ) → fetch_page p limit offset ≡ ok (page_of all_events limit offset))
    → ((p : ℕ) → aborted p ≡ false)
    → length all_events ≤ or_default options.max_records 10_000
    → 0 < or_default options.page_size 200
    → length all_events ≤ or_default options.max_pages 500 * or_default options.page_size 200
    → collect_all_events fetch_page aborted options ≡ ok all_events
unfolding collect_all_events
collect_all_events-all fetch_page aborted all_events options pages running few some_size enough =
    collect_from-all fetch_page aborted all_events (or_default options.page_size 200)
      (or_default options.max_records 10_000) pages running few some_size
      (or_default options.max_pages 500) 0 0 (omega (arith, enough))
