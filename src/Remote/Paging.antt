-- ===== src/Remote/Paging.antt =====
-- `fetch_complete_selection` of rust-core/src/remote/miniflux.rs: all pages of a selection.
--
-- The server is an argument: `entries n filter` is what the n-th request of the loop gets, so that the
-- answers may change between two pages. `to_text` is `to_string` of an `i64`. The loop runs on fuel;
-- `none` is a run that has used it up.
use Prim.Native.String.{◌++◌ as ◌+++◌}
use flux_bar.Prelude.{
  ℕ, zero, suc, ◌+◌, ◌||◌, Option, none, some, List, [], ◌∷◌, ◌++◌, String, ℤ, pos, negsuc, id_eq,
  ltb_ℤ, leb_ℤ, ltb, Result, ok, err, length, if◌then◌else◌,
}
use flux_bar.Sql.{exists_row}
use flux_bar.Remote.Error.{RemoteError, transport}
use flux_bar.Remote.Dto.{EntriesFilter, EntryDto, EntryResultSetDto}

-- What the loop carries: the collected entries, their ids, and the last id of the page.
pub record Collected : Type 0 where
  pub entries : List EntryDto
  pub seen : List ℤ
  pub last_id : ℤ

module _ (to_text : ℤ → String) where
  unfoldable pub unstable_order : ℤ → RemoteError
  unstable_order last_id =
      transport ("unstabile Seitensortierung nach Artikel " +++ to_text last_id)

  unfoldable pub duplicate_entry : ℤ → RemoteError
  duplicate_entry id =
      transport ("doppelter Artikel " +++ (to_text id +++ " in paginierter Antwort"))

  unfoldable pub total_changed : ℤ → ℤ → RemoteError
  total_changed expected collected = transport (
      "Trefferzahl änderte sich während der Pagination: erwartet "
      +++ (to_text expected +++ (", erhalten " +++ to_text collected)))

  unfoldable pub incomplete_page : ℤ → ℤ → RemoteError
  incomplete_page expected collected = transport (
      "unvollständige paginierte Antwort: erwartet "
      +++ (to_text expected +++ (", erhalten " +++ to_text collected)))

  -- The loop over the entries of one page.
  unfoldable pub collect_page : List EntryDto → Collected → Result RemoteError Collected
  collect_page [] c = ok c
  collect_page (e ∷ es) c =
      let rest =
        collect_page es
          (record { entries = c.entries ++ e ∷ []; seen = e.id ∷ c.seen; last_id = e.id }) in
      if leb_ℤ e.id c.last_id
      then err (unstable_order c.last_id)
      else if exists_row (λ id. id_eq id e.id) c.seen
      then err (duplicate_entry e.id)
      else rest

  -- `if expected_total < 0 { expected_total = result.total }`
  unfoldable pub expect_total : ℤ → ℤ → ℤ
  expect_total expected total = if ltb_ℤ expected (pos 0) then total else expected

  -- After a page: the result, or `none` to go on with the next page.
  unfoldable pub after_page :
      ℤ → ℕ → ℤ → Collected → Option (Result RemoteError (List EntryDto × ℤ))
  after_page expected page_len after_entry_id c =
      let collected = pos (length c.entries) in
      if id_eq collected expected
      then some (ok (c.entries, expected))
      else if ltb_ℤ expected collected
      then some (err (total_changed expected collected))
      else if ltb page_len 200 || id_eq c.last_id after_entry_id
      then some (err (incomplete_page expected collected))
      else none

  -- `return` ends the loop, or else it goes on.
  unfoldable pub or_next :
      Option (Result RemoteError (List EntryDto × ℤ))
      → Option (Result RemoteError (List EntryDto × ℤ))
      → Option (Result RemoteError (List EntryDto × ℤ))
  or_next (some finished) next = some finished
  or_next none next = next

  -- The turn of the loop after the page was collected; `next` is the rest of the loop.
  unfoldable pub on_collected :
      (ℤ → Collected → Option (Result RemoteError (List EntryDto × ℤ)))
      → ℤ
      → ℕ
      → ℤ
      → Result RemoteError Collected
      → Option (Result RemoteError (List EntryDto × ℤ))
  on_collected next expected page_len after_entry_id (err e) = some (err e)
  on_collected next expected page_len after_entry_id (ok c) =
      or_next (after_page expected page_len after_entry_id c) (next expected c)

  -- The turn of the loop after the response came.
  unfoldable pub on_response :
      (ℤ → Collected → Option (Result RemoteError (List EntryDto × ℤ)))
      → ℤ
      → Collected
      → Result RemoteError EntryResultSetDto
      → Option (Result RemoteError (List EntryDto × ℤ))
  on_response next expected c (err e) = some (err e)
  on_response next expected c (ok result) =
      on_collected next (expect_total expected result.total) (length result.entries) c.last_id
        (collect_page result.entries c)

  module _ (entries : ℕ → EntriesFilter → Result RemoteError EntryResultSetDto)
      (base : EntriesFilter) where
    unfoldable pub fetch_pages :
        ℕ → ℕ → ℤ → Collected → Option (Result RemoteError (List EntryDto × ℤ))
    fetch_pages zero page expected c = none
    fetch_pages (suc fuel) page expected c =
        on_response (fetch_pages fuel (page + 1)) expected c
          (entries page (record base { after_entry_id = c.last_id }))

    unfoldable pub fetch_complete_selection : ℕ → Option (Result RemoteError (List EntryDto × ℤ))
    unfolding fetch_pages
    fetch_complete_selection fuel =
        fetch_pages fuel 0 (negsuc 0) (record { entries = []; seen = []; last_id = pos 0 })
