-- ===== src/Store/SnapshotTests.antt =====
-- Local snapshots and records of a small database.
use flux_bar.Store.Apply.{is_starred, row_in_scope, selection_kind, total_key}
use flux_bar.Domain.Navigation.{push}
use flux_bar.Domain.Selection.{is_unread_only, scope_id}
use flux_bar.Prelude.{is_i32, add_i32, max_ℤ, wrap_i32, ◌+ℤ◌}
use flux_bar.Store.Schema.{account_key, pending_key}
use flux_bar.Sql.{select, find_row, to_i32, sum_rows}
use flux_bar.Store.Snapshot.{
  navigation, count_categories, starred_total, is_selected, selection_total, optional_i32, delta_if,
  adjusted_total, count_feeds, empty_category, feed_columns, first_seen, or_zero,
  pending_read_delta_for_feed, read_shift, selection_pending_delta, starred_shift, sum_pending,
}
use flux_bar.Prelude.{
  ◌≡◌, ◌≤◌, ◌≤ℤ◌, refl, true, false, ◌&&◌, ◌==◌, none, some, [], ◌∷◌, ℤ, pos, id_eq, ok, length,
  if◌then◌else◌,
}
use flux_bar.Sql.{exists_row, count_rows}
use flux_bar.Sql.Counts.{every}
use flux_bar.Domain.Selection.{unread}
use flux_bar.Domain.Entry.{Entry, EntryStatus, parse, as_str}
use flux_bar.Store.Schema.{Db, AccountRow, EntryRow, empty_db}
use flux_bar.Store.Apply.{SnapshotData, normalize_selection}
use flux_bar.Store.Records.{PersistedEntry, upsert_entry, entry, map_entry_row}
use flux_bar.Store.RecordTrips.{IsCanonical, entry-upsert_entry}
use flux_bar.Store.Views.{same_entry}
use flux_bar.Store.Snapshot.{
  Order, selection_clause, is_shown, snapshot_entries, local_snapshot, snapshot_limit,
}
use flux_bar.Store.Totals.{local_snapshot-shows}
use flux_bar.Store.Listing.{
  IsSorting, in_selection, is_listed, distinct, selection_clause-matches, snapshot_entries-listed,
}

abbrev stored_order : Order
stored_order = record { categories = λ rs. rs; feeds = λ rs. rs; entries = λ _ rs. rs }

IsSorting-stored_order : IsSorting stored_order
IsSorting-stored_order = record { entries = λ _ _ _. refl }

abbrev article : EntryRow
article = record {
  account_id = "acct";
  id = pos 7;
  title = "Title";
  url = "https://example.org/7";
  comments_url = "";
  feed_id = pos 1;
  feed_name = "Feed";
  category_id = pos 2;
  published_at = "2026-01-01T00:00:00Z";
  preview = "";
  image_url = "";
  remote_status = "unread";
  remote_starred = false;
  status = "unread";
  starred = false;
}

abbrev account_row : AccountRow
account_row = record {
  id = "acct";
  server = "https://example.org";
  remote_starred_total = pos 4;
  last_sync_at = none;
}

abbrev one_article : Db
one_article = record empty_db { accounts = account_row ∷ []; entries = article ∷ [] }

abbrev listed : Entry
listed = record {
  id = pos 7;
  title = "Title";
  url = "https://example.org/7";
  comments_url = "";
  feed_id = pos 1;
  feed_name = "Feed";
  category_id = pos 2;
  published_at_rfc3339 = "2026-01-01T00:00:00Z";
  preview = "";
  image_url = "";
  status = EntryStatus.unread;
  starred = false;
}

abbrev shown_snapshot : SnapshotData
shown_snapshot = record {
  version = pos 1;
  selection = unread true;
  entries = listed ∷ [];
  categories = [];
  total = pos 1;
  unread_total = pos 0;
  starred_total = pos 4;
}

local_snapshot_run :
    local_snapshot stored_order "acct" (unread true) true [] one_article ≡ ok shown_snapshot
unfolding local_snapshot navigation count_categories select starred_total find_row account_key
    to_i32 is_i32 count_rows selection_clause is_unread_only normalize_selection is_selected
    selection_total optional_i32 delta_if parse push scope_id add_i32 id_eq max_ℤ wrap_i32 ◌+ℤ◌
    exists_row sum_rows is_starred row_in_scope selection_kind total_key map_entry_row pending_key
    adjusted_total count_feeds empty_category feed_columns first_seen is_shown or_zero
    pending_read_delta_for_feed read_shift selection_pending_delta snapshot_entries starred_shift
    sum_pending
local_snapshot_run = refl

selection_clause-matches_example :
    selection_clause "acct" (unread true) article
    ≡ (article.account_id == "acct" && in_selection (unread true) (map_entry_row article))
selection_clause-matches_example = selection_clause-matches "acct" (unread true) article

snapshot_entries-listed_example :
    let entries = snapshot_entries stored_order.entries "acct" (unread true) true [] one_article in
    (length entries ≤ snapshot_limit)
    × (distinct entries ≡ true)
    × (every (is_listed (unread true) []) entries ≡ true)
    × (count_rows (is_shown "acct" (unread true) []) one_article.entries ≤ snapshot_limit
        → (j : ℤ)
        → exists_row (λ e. id_eq e.id j) entries
          ≡ exists_row
              (λ r. is_shown "acct" (unread true) [] r && id_eq r.id j)
              one_article.entries)
snapshot_entries-listed_example =
    snapshot_entries-listed stored_order IsSorting-stored_order "acct" (unread true) true []
      one_article

local_snapshot-shows_example :
    (shown_snapshot.selection ≡ normalize_selection (unread true))
    × (shown_snapshot.entries
        ≡ snapshot_entries stored_order.entries "acct"
            (normalize_selection (unread true))
            true
            []
            one_article)
    × (pos (
          count_rows
            (selection_clause "acct" (normalize_selection (unread true)))
            one_article.entries)
        ≤ℤ shown_snapshot.total)
local_snapshot-shows_example =
    local_snapshot-shows stored_order "acct" (unread true) true [] one_article shown_snapshot
      local_snapshot_run

abbrev persisted : PersistedEntry
persisted = record { entry = listed; remote_status = EntryStatus.read; remote_starred = true }

IsCanonical-unread : IsCanonical EntryStatus.unread
unfolding parse as_str
IsCanonical-unread = record { parsed = refl }

IsCanonical-read : IsCanonical EntryStatus.read
unfolding parse as_str
IsCanonical-read = record { parsed = refl }

entry-upsert_entry_example : entry "acct" (pos 7) (upsert_entry "acct" persisted one_article) ≡ (
    if same_entry "acct" (pos 7) "acct" (pos 7)
    then some persisted
    else entry "acct" (pos 7) one_article)
entry-upsert_entry_example =
    entry-upsert_entry "acct" persisted one_article "acct" (pos 7) IsCanonical-unread
      IsCanonical-read
