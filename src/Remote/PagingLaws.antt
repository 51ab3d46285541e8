-- ===== src/Remote/PagingLaws.antt =====
-- What `fetch_complete_selection` returns, and that it returns.
use flux_bar.Prelude.{
  ℕ, zero, suc, ◌+◌, ◌≤◌, ◌<◌, ◌≡◌, refl, ap, ◌∙◌, Bool, true, false, ◌&&◌, Option, none, some,
  List, [], ◌∷◌, ◌++◌, String, ℤ, pos, negsuc, pos_part, id_eq, id_eq_iff, ltb_ℤ, leb_ℤ, arith,
  Bool-cases, inl, inr, Result, ok, err, ok-injective, length, length-append,
}
use flux_bar.Sql.{exists_row}
use flux_bar.Remote.Error.{RemoteError}
use flux_bar.Remote.Dto.{EntriesFilter, EntryDto, EntryResultSetDto}
use flux_bar.Remote.Paging.{
  Collected, collect_page, expect_total, after_page, or_next, on_collected, on_response,
  fetch_pages, fetch_complete_selection,
}

-- The ids increase from one entry to the next, from above `last` on.
unfoldable pub is_ascending : ℤ → List EntryDto → Bool
is_ascending last [] = true
is_ascending last (e ∷ es) = ltb_ℤ last e.id && is_ascending e.id es

unfoldable pub last_of : ℤ → List EntryDto → ℤ
last_of last [] = last
last_of last (e ∷ es) = last_of e.id es

last_of-push : (last : ℤ) (es : List EntryDto) (e : EntryDto) → last_of last (es ++ e ∷ []) ≡ e.id
unfolding last_of
last_of-push last [] e = refl
last_of-push last (x ∷ es) e = last_of-push x.id es e

ascending-push :
    (last : ℤ) (es : List EntryDto) (e : EntryDto)
    → is_ascending last es ≡ true
    → ltb_ℤ (last_of last es) e.id ≡ true
    → is_ascending last (es ++ e ∷ []) ≡ true
unfolding is_ascending last_of
ascending-push last [] e h k = ground (arith, k)
ascending-push last (x ∷ es) e h k = ground (arith, ascending-push x.id es e, h, k)

-- What holds of the collected entries between two pages.
pub record IsCollected (c : Collected) : Type 0 where
  pub ascending : is_ascending (pos 0) c.entries ≡ true
  pub last : last_of (pos 0) c.entries ≡ c.last_id

-- One entry more.
unfoldable pushed : EntryDto → Collected → Collected
pushed e c = record { entries = c.entries ++ e ∷ []; seen = e.id ∷ c.seen; last_id = e.id }

IsCollected-pushed :
    (e : EntryDto) (c : Collected)
    → IsCollected c
    → leb_ℤ e.id c.last_id ≡ false
    → IsCollected (pushed e c)
unfolding pushed
IsCollected-pushed e c inv above = record {
  ascending =
      ascending-push (pos 0) c.entries e inv.ascending (rw inv.last (ground (arith, above)));
  last = last_of-push (pos 0) c.entries e;
}

length-pushed : (e : EntryDto) (c : Collected) → length (pushed e c).entries ≡ length c.entries + 1
unfolding pushed
length-pushed e c = length-append c.entries (e ∷ [])

abbrev pub start : Collected
start = record { entries = []; seen = []; last_id = pos 0 }

pub IsCollected-start : IsCollected start
unfolding is_ascending last_of
IsCollected-start = record { ascending = refl; last = refl }

module _ (to_text : ℤ → String) where
  pub collect_page-lem :
      (es : List EntryDto) (c c' : Collected)
      → IsCollected c
      → collect_page to_text es c ≡ ok c'
      → IsCollected c' × (length c'.entries ≡ length c.entries + length es)
  unfolding collect_page
  collect_page-lem [] c c' inv h = rw (← ok-injective h) (inv, omega arith)
  collect_page-lem (e ∷ es) c c' inv h = elim (Bool-cases (leb_ℤ e.id c.last_id)) [
    | inl below ↦ absurd (cc (rw below at h))
    | inr above ↦ elim (Bool-cases (exists_row (λ id. id_eq id e.id) c.seen)) [
      | inl again ↦ absurd (cc (rw (above, again) at h))
      | inr new ↦
          let (inv', grown) =
            collect_page-lem es (pushed e c) c' (IsCollected-pushed e c inv above)
              (unfold pushed in rw (above, new) at h) in
          (inv', omega (arith, grown, length-pushed e c))
    ]
  ]

  -- What a page that does not end the loop says.
  pub continues :
      (expected : ℤ) (page_len : ℕ) (after : ℤ) (c : Collected)
      → after_page to_text expected page_len after c ≡ none
      → (length c.entries < pos_part expected) × (200 ≤ page_len)
  unfolding after_page id_eq
  continues expected page_len after c h = ground (arith, h)

  finishes :
      (expected : ℤ) (page_len : ℕ) (after : ℤ) (c : Collected) (es : List EntryDto) (total : ℤ)
      → after_page to_text expected page_len after c ≡ some (ok (es, total))
      → (c.entries ≡ es) × (pos (length es) ≡ total)
  unfolding after_page
  finishes expected page_len after c es total h =
      elim (Bool-cases (id_eq (pos (length c.entries)) expected)) [
        | inl all ↦
            let pair : ◌≡◌ {A = List EntryDto × ℤ} (c.entries, expected) (es, total) =
              cc (rw all at h) in
            let same : c.entries ≡ es = ap (λ (r : List EntryDto × ℤ). r.0) pair in
            (
              same,
              rw (← same) (
                  (id_eq_iff (pos (length c.entries)) expected).0 all
                  ∙ ap (λ (r : List EntryDto × ℤ). r.1) pair),
            )
        | inr more ↦ absurd (ground (arith, h, more))
      ]

  -- One turn, for what is known of the rest of the loop.
  module _ (next : ℤ → Collected → Option (Result RemoteError (List EntryDto × ℤ)))
      (es : List EntryDto) (total : ℤ) where
    abbrev IsRest : Type 0
    IsRest =
        (expected : ℤ) (c : Collected)
        → IsCollected c
        → next expected c ≡ some (ok (es, total))
        → (is_ascending (pos 0) es ≡ true) × (pos (length es) ≡ total)

    or_next_complete :
        (ended : Option (Result RemoteError (List EntryDto × ℤ))) (expected : ℤ) (page_len : ℕ)
        (after : ℤ) (c : Collected)
        → IsRest
        → IsCollected c
        → after_page to_text expected page_len after c ≡ ended
        → or_next to_text ended (next expected c) ≡ some (ok (es, total))
        → (is_ascending (pos 0) es ≡ true) × (pos (length es) ≡ total)
    unfolding or_next
    or_next_complete none expected page_len after c rest inv e h = rest expected c inv h
    or_next_complete (some r) expected page_len after c rest inv e h =
        let (same, all) = finishes expected page_len after c es total (e ∙ h) in
        (rw (← same) inv.ascending, all)

    on_collected_complete :
        (collected : Result RemoteError Collected) (expected : ℤ) (entries : List EntryDto)
        (after : ℤ) (c : Collected)
        → IsRest
        → IsCollected c
        → collect_page to_text entries c ≡ collected
        → on_collected to_text next expected (length entries) after collected
          ≡ some (ok (es, total))
        → (is_ascending (pos 0) es ≡ true) × (pos (length es) ≡ total)
    unfolding on_collected
    on_collected_complete (err e) expected entries after c rest inv ran h = absurd (cc h)
    on_collected_complete (ok c') expected entries after c rest inv ran h =
        or_next_complete (after_page to_text expected (length entries) after c') expected
          (length entries) after c' rest (collect_page-lem entries c c' inv ran).0 refl h

    on_response_complete :
        (response : Result RemoteError EntryResultSetDto) (expected : ℤ) (c : Collected)
        → IsRest
        → IsCollected c
        → on_response to_text next expected c response ≡ some (ok (es, total))
        → (is_ascending (pos 0) es ≡ true) × (pos (length es) ≡ total)
    unfolding on_response
    on_response_complete (err e) expected c rest inv h = absurd (cc h)
    on_response_complete (ok result) expected c rest inv h =
        on_collected_complete (collect_page to_text result.entries c)
          (expect_total to_text expected result.total) result.entries c.last_id c rest inv refl h

  module _ (entries : ℕ → EntriesFilter → Result RemoteError EntryResultSetDto)
      (base : EntriesFilter) where
    pages_complete :
        (fuel page : ℕ) (es : List EntryDto) (total expected : ℤ) (c : Collected)
        → IsCollected c
        → fetch_pages to_text entries base fuel page expected c ≡ some (ok (es, total))
        → (is_ascending (pos 0) es ≡ true) × (pos (length es) ≡ total)
    unfolding fetch_pages
    pages_complete zero page es total expected c inv h = absurd (cc h)
    pages_complete (suc fuel) page es total expected c inv h =
        on_response_complete (fetch_pages to_text entries base fuel (page + 1)) es total
          (entries page (record base { after_entry_id = c.last_id })) expected c
          (pages_complete fuel (page + 1) es total) inv h

    -- If the fetch succeeds, whatever the server answers from page to page, then it has as many entries
    -- as the total that it returns, and their ids are positive and increase, so none is twice in it.
    pub fetch_complete :
        (fuel : ℕ) (es : List EntryDto) (total : ℤ)
        → fetch_complete_selection to_text entries base fuel ≡ some (ok (es, total))
        → (is_ascending (pos 0) es ≡ true) × (pos (length es) ≡ total)
    unfolding fetch_complete_selection
    fetch_complete fuel es total h =
        pages_complete fuel 0 es total (negsuc 0) start IsCollected-start h
