-- ===== src/App/Export.antt =====
-- wallet-app/src/lib/eventExport.ts: the collection of all pages of events. The callback that
-- fetches a page and the abort signal are parameters: what the `p`-th fetch answers, and whether
-- the signal is aborted when `p` pages have been fetched. The progress callback changes nothing.
pub mod Complete
use soulon_wallet.Prelude.{
  ℕ, zero, suc, ◌+◌, ltb, Bool, true, false, if◌then◌else◌, is_empty, length, or_default, String,
  List, [], ◌∷◌, ◌++◌, Option, none, some,
}
use soulon_wallet.Prelude.Results.{Result, ok, err}

pub record IndexerEventsResponse {ℓ} (E : Type ℓ) : Type ℓ where
  pub events : List E
  pub total : ℕ
  pub has_more : Bool

pub data ExportError : Type 0 where
  export_cancelled export_limit_exceeded : ExportError
  fetch_failed : String → ExportError

pub record CollectAllEventsOptions : Type 0 where
  pub page_size : Option ℕ
  pub max_pages : Option ℕ
  pub max_records : Option ℕ

-- The callback, by the number of the fetch, the limit and the offset.
abbrev pub FetchEventsPage {ℓ} : Type ℓ → Type ℓ
FetchEventsPage E = ℕ → ℕ → ℕ → Result String (IndexerEventsResponse E)

module _ {ℓ} {E : Type ℓ} (fetch_page : FetchEventsPage E) (aborted : ℕ → Bool) where
  -- What follows the loop.
  unfoldable pub finish : ℕ → List E → Result ExportError (List E)
  finish page_count events = if aborted page_count then err export_cancelled else ok events

  -- The rest of a round, with the rest of the loop behind it.
  unfoldable pub receive :
      ℕ
      → ℕ
      → List E
      → (ℕ → List E → Result ExportError (List E))
      → Result String (IndexerEventsResponse E)
      → Result ExportError (List E)
  unfolding finish
  receive max_records page_count events again (err message) = err (fetch_failed message)
  receive max_records page_count events again (ok response) =
      let collected = events ++ response.events in
      let ended = finish (page_count + 1) collected in
      let more = again (length response.events) collected in
      if ltb max_records response.total
      then err export_limit_exceeded
      else if ltb max_records (length collected)
      then err export_limit_exceeded
      else if is_empty response.events
      then ended
      else if response.has_more
      then more
      else ended

  -- The loop, on the pages that are left.
  unfoldable pub collect_from : ℕ → ℕ → ℕ → ℕ → ℕ → List E → Result ExportError (List E)
  unfolding finish receive
  collect_from page_size max_records zero page_count offset events = finish page_count events
  collect_from page_size max_records (suc rounds) page_count offset events =
      let again : ℕ → List E → Result ExportError (List E) = λ n collected.
        collect_from page_size max_records rounds (page_count + 1) (offset + n) collected in
      let received =
        receive max_records page_count events again (fetch_page page_count page_size offset) in
      if aborted page_count then err export_cancelled else received

  unfoldable pub collect_all_events : CollectAllEventsOptions → Result ExportError (List E)
  unfolding collect_from
  collect_all_events options =
      collect_from (or_default options.page_size 200) (or_default options.max_records 10_000)
        (or_default options.max_pages 500) 0 0 []
