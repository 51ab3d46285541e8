-- ===== src/Sync/RunTests.antt =====
-- A run on a new database: a synchronisation, a mark as read, the start of a flush, and a mark as
-- unread before the acknowledgement.
use flux_bar.Store.Schema.{batch_key, item_of_batch, item_of_entry}
use flux_bar.Store.Acknowledge.{to_mutation}
use flux_bar.Store.SetRead.{opened, changed}
use flux_bar.Store.ReadState.{
  step_entries, step_entry, step_found, changed_count, changes, note_item,
}
use flux_bar.Store.Mutations.{
  clean_batches, forget_undo, read_text, write_read, upsert_pending, is_empty_batch,
}
use flux_bar.Sql.{select, find_row}
use flux_bar.Store.Schema.{account_key, category_key, entry_key, feed_key, pending_key}
use flux_bar.Domain.Entry.{as_str}
use flux_bar.Sql.{insert_row, delete_where, upsert, update_where, append_row}
use flux_bar.Domain.Selection.{is_unread_only, scope_id}
use flux_bar.Prelude.{wrap_i32, id_eq}
use flux_bar.Store.Apply.{
  reconcile_if_complete, is_complete, normalize_selection, is_starred, remote_ids,
  replace_navigation, insert_navigation, apply_entries, apply_entry, reconcile_rows, write_totals,
  upsert_total, remote_row, has_pending, insert_feeds, is_vanished, merge_remote,
  reconcile_complete_selection, row_in_scope, selection_kind, total_key,
}
use flux_bar.Sql.{exists_row}
use flux_bar.Prelude.{◌≡◌, refl, true, false, List, [], ◌∷◌, pos, ok}
use flux_bar.Domain.Entry.{unread}
use flux_bar.Domain.Selection.{starred}
use flux_bar.Store.Schema.{Db, PendingRow, empty_db}
use flux_bar.Store.Acknowledge.{pending, acknowledge}
use flux_bar.Store.Apply.{SnapshotData, apply_snapshot}
use flux_bar.Store.Keyed.{IsKeyed}
use flux_bar.Store.Consistency.{IsConsistent}
use flux_bar.Store.Undoable.{IsUndoable}
use flux_bar.Store.SetRead.{IsFresh, after_set_read, receipt, set_read-runs}
use flux_bar.Store.Fixtures.{clock, article, sent}
use flux_bar.Sync.Started.{IsOrdering}
use flux_bar.Sync.Interleaving.{
  World, with_flight, Reach, first_world, here, next, marked_read, synchronized, flush_started,
}
use flux_bar.Sync.Reachable.{Reach-IsConsistent, reachable_acknowledge}

abbrev first_snapshot : SnapshotData
first_snapshot = record {
  version = pos 1;
  selection = starred false;
  entries =
      record {
        id = pos 7;
        title = "Title";
        url = "https://example.org/7";
        comments_url = "";
        feed_id = pos 1;
        feed_name = "Feed";
        category_id = pos 2;
        published_at_rfc3339 = "2026-01-01T00:00:00Z";
        preview = "";
        image_url = "";
        status = unread;
        starred = true;
      }
      ∷ [];
  categories = [];
  total = pos 1;
  unread_total = pos 1;
  starred_total = pos 1;
}

abbrev synced : Db
synced = record empty_db {
  entries = record article { starred = true; remote_starred = true } ∷ [];
  selection_totals =
      record {
        account_id = "acct";
        kind = "starred";
        selection_id = pos 0;
        unread_only = false;
        total = pos 1;
      }
      ∷ [];
}

synced_run : apply_snapshot "2026-01-01T00:00:00Z" "acct" first_snapshot empty_db ≡ ok synced
unfolding apply_snapshot reconcile_if_complete is_complete wrap_i32 is_unread_only
    normalize_selection is_starred remote_ids insert_row exists_row replace_navigation
    insert_navigation apply_entries apply_entry reconcile_rows delete_where upsert write_totals
    update_where upsert_total remote_row as_str scope_id id_eq append_row has_pending insert_feeds
    is_vanished merge_remote reconcile_complete_selection row_in_scope selection_kind total_key
    account_key category_key entry_key feed_key pending_key
synced_run = refl

abbrev pub as_stored : List PendingRow → List PendingRow
as_stored rows = rows

pub IsOrdering-as_stored : IsOrdering as_stored
IsOrdering-as_stored = record { counts = λ p rs. refl }

abbrev pub read_db : Db
read_db = after_set_read "2026-01-01T00:00:00Z" clock "b1" "acct" (pos 7 ∷ []) true true synced

abbrev unread_db : Db
unread_db = after_set_read "2026-01-01T00:00:00Z" clock "b2" "acct" (pos 7 ∷ []) false false read_db

IsFresh-synced : IsFresh "acct" "b1" synced
unfolding exists_row
IsFresh-synced = record { no_batch = refl; no_items = refl }

abbrev pub read_world : World
read_world = record first_world { db = read_db }

abbrev flight_world : World
flight_world = with_flight "acct" (pending as_stored "acct" read_db) read_world

abbrev last_world : World
last_world = record flight_world { db = unread_db }

pub read_run : Reach first_world read_world
read_run =
    next
      (next here
        (synchronized first_world "2026-01-01T00:00:00Z" "acct" first_snapshot synced synced_run))
      (marked_read (record first_world { db = synced }) "2026-01-01T00:00:00Z" clock "b1" "acct"
        (pos 7 ∷ []) true true read_db
        (receipt "2026-01-01T00:00:00Z" clock "b1" "acct" (pos 7 ∷ []) true true synced)
        (λ _. IsFresh-synced)
        (set_read-runs "2026-01-01T00:00:00Z" clock "b1" "acct" (pos 7 ∷ []) true true synced
          (λ _. IsFresh-synced)))

one_run : Reach first_world last_world
unfolding with_flight
one_run =
    next (next read_run (flush_started read_world as_stored "acct" IsOrdering-as_stored refl)) (
      marked_read flight_world "2026-01-01T00:00:00Z" clock "b2" "acct" (pos 7 ∷ []) false false
        unread_db
        (receipt "2026-01-01T00:00:00Z" clock "b2" "acct" (pos 7 ∷ []) false false read_db)
        (λ h. absurd (cc h))
        (set_read-runs "2026-01-01T00:00:00Z" clock "b2" "acct" (pos 7 ∷ []) false false read_db
          (λ h. absurd (cc h))))

one_flight : last_world.flights "acct" ≡ sent ∷ []
unfolding with_flight pending select after_set_read clean_batches step_entries step_entry step_found
    find_row forget_undo opened entry_key id_eq read_text write_read upsert_pending upsert
    append_row delete_where exists_row update_where to_mutation is_empty_batch changed_count changes
    note_item batch_key item_of_batch item_of_entry pending_key changed
one_flight = refl

Reach-IsConsistent_example :
    IsKeyed last_world.db × IsConsistent last_world.db × IsUndoable last_world.db
unfolding with_flight
Reach-IsConsistent_example = Reach-IsConsistent one_run

reachable_acknowledge_example : (db' : Db) × (acknowledge "acct" sent unread_db ≡ ok db')
unfolding with_flight
reachable_acknowledge_example = reachable_acknowledge one_run one_flight
