-- ===== src/Sync/Browse.antt =====
-- `browse` of rust-core/src/sync.rs: the server's answer to a selection as a snapshot.
--
-- `map_entry` is `entry_to_domain`, `lower` is `to_lowercase`.
use flux_bar.Prelude.{
  none, some, List, [], ◌∷◌, map, String, ℤ, pos, wrap_i32, Result, ok, err, if◌then◌else◌,
}
use flux_bar.Sql.{SqlError}
use flux_bar.Text.Numbers.{parse_i64}
use flux_bar.Domain.Selection.{Selection, starred, category, feed, is_unread_only}
use flux_bar.Domain.Entry.{Entry}
use flux_bar.Domain.Navigation.{build_navigation}
use flux_bar.Store.Apply.{SnapshotData, is_starred}
use flux_bar.Remote.Error.{RemoteError}
use flux_bar.Remote.Dto.{
  EntriesFilter, EntryDto, CategoryDto, FeedDto, FeedCountersDto, default_filter, browse_page_size,
  dto_mapping_inputs,
}
use flux_bar.Sync.Flush.{RemoteInbox, with_context}

-- The two fields that the match on the selection sets.
abbrev pub scope_filter : Selection → EntriesFilter → EntriesFilter
scope_filter (starred _) filter = record filter { starred = some "1" }
scope_filter (category id _) filter = record filter { category_id = id }
scope_filter (feed id _) filter = record filter { feed_id = id }
scope_filter _ filter = filter

-- `browse_filter` of sync.rs.
unfoldable pub selection_filter : Selection → EntriesFilter
selection_filter selection = scope_filter selection (record default_filter {
  limit = browse_page_size;
  order = some "id";
  direction = some "asc";
  statuses = if is_unread_only selection then [] else "read" ∷ "unread" ∷ [];
  status = if is_unread_only selection then some "unread" else none;
})

-- The counters whose key is the number of a feed; of two keys for one feed the later one counts.
unfoldable pub parsed_counters : List (String × ℤ) → List (ℤ × ℤ) → List (ℤ × ℤ)
parsed_counters [] parsed = parsed
parsed_counters ((key, count) ∷ counters) parsed =
    parsed_counters counters
      (elim (parse_i64 key) [ none ↦ parsed | some id ↦ (id, count) ∷ parsed ])

-- `result?`, with the server's state handed on.
abbrev pub then_call :
    {S A B : Type 0} → Result String A × S → (A → S → Result String B × S) → Result String B × S
then_call (err e, s) next = (err e, s)
then_call (ok a, s) next = next a s

module _ {S : Type 0} (remote : RemoteInbox S) (display : RemoteError → String)
    (sql_text : SqlError → String) (quoted : String → String) (lower : String → String)
    (map_entry : EntryDto → Entry) where
  -- The value at the end, from what the calls returned.
  unfoldable pub browsed :
      Selection
      → FeedCountersDto
      → ℤ
      → List EntryDto × ℤ
      → List CategoryDto
      → List FeedDto
      → SnapshotData
  browsed selection counters starred_count (entries, total) categories feeds =
      let (category_inputs, feed_inputs) = dto_mapping_inputs categories feeds in
      let (navigation, unread_total) =
        build_navigation lower category_inputs feed_inputs (parsed_counters counters.unreads []) in
      record {
        version = pos 1;
        selection = selection;
        entries = map map_entry entries;
        categories = navigation;
        total = wrap_i32 total;
        unread_total = unread_total;
        starred_total = if is_starred selection then wrap_i32 total else starred_count;
      }

  -- The count of starred entries, which is not asked for with a starred selection.
  unfoldable pub starred_count_of : Selection → S → Result String ℤ × S
  starred_count_of selection s =
      if is_starred selection
      then (ok (pos 0), s)
      else then_call
          (with_context remote display sql_text quoted "markierte Miniflux-Einträge zählen"
            (remote.starred_total s))
          (λ total s'. (ok (wrap_i32 total), s'))

  unfoldable pub browse : Selection → S → Result String SnapshotData × S
  unfolding with_context starred_count_of
  browse selection s =
      then_call
        (with_context remote display sql_text quoted "Miniflux-Zähler laden"
          (remote.unread_counters s))
        (λ counters s₁. then_call (starred_count_of selection s₁) (λ starred_count s₂.
          then_call
            (with_context remote display sql_text quoted "Miniflux-Einträge laden"
              (remote.fetch_complete_selection (selection_filter selection) s₂))
            (λ fetched s₃.
              then_call
                (with_context remote display sql_text quoted "Miniflux-Kategorien laden"
                  (remote.categories s₃))
                (λ categories s₄.
                  then_call
                    (with_context remote display sql_text quoted "Miniflux-Feeds laden"
                      (remote.feeds s₄))
                    (λ feeds s₅. (
                      ok (browsed selection counters starred_count fetched categories feeds),
                      s₅,
                    ))))))
