-- ===== src/Remote/PagingEnd.antt =====
-- `fetch_complete_selection` returns: the number of its requests is bounded by the first total.
use flux_bar.Prelude.{
  ℕ, zero, suc, ◌+◌, ◌*◌, ◌≤◌, ◌<◌, ◌≡◌, refl, Option, none, some, List, String, ℤ, pos, negsuc,
  pos_part, arith, Result, ok, err, length,
}
use flux_bar.Remote.Error.{RemoteError}
use flux_bar.Remote.Dto.{EntriesFilter, EntryDto, EntryResultSetDto}
use flux_bar.Remote.Paging.{
  Collected, collect_page, expect_total, after_page, or_next, on_collected, on_response,
  fetch_pages, fetch_complete_selection,
}
use flux_bar.Remote.PagingLaws.{IsCollected, IsCollected-start, collect_page-lem, continues, start}

abbrev pub Ends : Option (Result RemoteError (List EntryDto × ℤ)) → Type 0
Ends outcome = (r : Result RemoteError (List EntryDto × ℤ)) × (outcome ≡ some r)

-- The total of a response, and 0 where it has none.
unfoldable pub first_total : Result RemoteError EntryResultSetDto → ℕ
first_total (err e) = 0
first_total (ok result) = pos_part result.total

total_bound :
    (response : Result RemoteError EntryResultSetDto) (result : EntryResultSetDto) (pages : ℕ)
    → response ≡ ok result
    → first_total response ≤ 200 * pages
    → pos_part result.total ≤ 200 * pages
unfolding first_total
total_bound response result pages came few = rw came at few

expect_total-kept :
    (to_text : ℤ → String) (expected total : ℤ)
    → 0 < pos_part expected
    → expect_total to_text expected total ≡ expected
unfolding expect_total
expect_total-kept to_text (pos n) total h = ground arith
expect_total-kept to_text (negsuc n) total h = absurd (omega (arith, h))

module _ (to_text : ℤ → String)
    (next : ℤ → Collected → Option (Result RemoteError (List EntryDto × ℤ))) where
  or_next-Ends :
      (ended : Option (Result RemoteError (List EntryDto × ℤ))) (expected : ℤ) (page_len : ℕ)
      (after : ℤ) (c : Collected)
      → ((length c.entries < pos_part expected) × (200 ≤ page_len) → Ends (next expected c))
      → after_page to_text expected page_len after c ≡ ended
      → Ends (or_next to_text ended (next expected c))
  unfolding or_next
  or_next-Ends none expected page_len after c rest e =
      rest (continues to_text expected page_len after c e)
  or_next-Ends (some r) expected page_len after c rest e = (r, refl)

  -- A page that goes on brings 200 entries, and the total is not reached.
  abbrev GoesOn : ℤ → Collected → Type 0
  GoesOn expected c =
      (c' : Collected)
      → IsCollected c'
      → length c.entries + 200 ≤ length c'.entries
      → length c'.entries < pos_part expected
      → Ends (next expected c')

  on_collected-Ends :
      (collected : Result RemoteError Collected) (expected : ℤ) (entries : List EntryDto)
      (after : ℤ) (c : Collected)
      → GoesOn expected c
      → IsCollected c
      → collect_page to_text entries c ≡ collected
      → Ends (on_collected to_text next expected (length entries) after collected)
  unfolding on_collected
  on_collected-Ends (err e) expected entries after c rest inv ran = (err e, refl)
  on_collected-Ends (ok c') expected entries after c rest inv ran =
      let (inv', grown) = collect_page-lem to_text entries c c' inv ran in
      or_next-Ends (after_page to_text expected (length entries) after c') expected (length entries)
        after c' (λ (more, full). rest c' inv' (omega (arith, grown, full)) more) refl

  on_response-Ends :
      (response : Result RemoteError EntryResultSetDto) (expected : ℤ) (c : Collected)
      → ((result : EntryResultSetDto)
          → response ≡ ok result
          → GoesOn (expect_total to_text expected result.total) c)
      → IsCollected c
      → Ends (on_response to_text next expected c response)
  unfolding on_response
  on_response-Ends (err e) expected c rest inv = (err e, refl)
  on_response-Ends (ok result) expected c rest inv =
      on_collected-Ends (collect_page to_text result.entries c)
        (expect_total to_text expected result.total) result.entries c.last_id c (rest result refl)
        inv refl

module _ (to_text : ℤ → String) (entries : ℕ → EntriesFilter → Result RemoteError EntryResultSetDto)
    (base : EntriesFilter) where
  pages-end :
      (fuel page : ℕ) (expected : ℤ) (c : Collected)
      → IsCollected c
      → length c.entries < pos_part expected
      → pos_part expected ≤ length c.entries + 200 * fuel
      → Ends (fetch_pages to_text entries base fuel page expected c)
  unfolding fetch_pages
  pages-end zero page expected c inv below left = absurd (omega (arith, below, left))
  pages-end (suc fuel) page expected c inv below left =
      on_response-Ends to_text (fetch_pages to_text entries base fuel (page + 1))
        (entries page (record base { after_entry_id = c.last_id })) expected c
        (λ result _ c' inv' grown more.
          rw (expect_total-kept to_text expected result.total (omega (arith, below))) (
            pages-end fuel (page + 1) expected c' inv'
              (rw (expect_total-kept to_text expected result.total (omega (arith, below))) at more)
              (omega (arith, left, grown))))
        inv

  -- The fetch returns after at most as many requests as the first total has pages of 200 entries,
  -- and one request if it is 0 or less, whatever the server answers.
  pub fetch-Ends :
      (fuel : ℕ)
      → first_total (entries 0 (record base { after_entry_id = pos 0 })) ≤ 200 * suc fuel
      → Ends (fetch_complete_selection to_text entries base (suc fuel))
  unfolding fetch_complete_selection fetch_pages expect_total
  fetch-Ends fuel few =
      on_response-Ends to_text (fetch_pages to_text entries base fuel 1)
        (entries 0 (record base { after_entry_id = pos 0 })) (negsuc 0) start
        (λ result came c' inv' grown more.
          pages-end fuel 1 result.total c' inv' more
            (omega (arith, total_bound _ result (suc fuel) came few, grown)))
        IsCollected-start
