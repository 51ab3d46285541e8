-- ===== src/Store/Tests.antt =====
-- Runs of the store's operations on a small database.
use flux_bar.Prelude.{add_i32}
use flux_bar.Sql.{insert_row, append_row}
use flux_bar.Store.Mutations.{
  insert_batch, mark_entries, mark_found, forget_undo, insert_undo_item, clean_batches,
}
use mathlib.Core.Option
use flux_bar.Prelude.{
  ◌≡◌, add_i32, wrap_i32, refl, true, false, Option, some, [], ◌∷◌, ℤ, pos, String, ok, id_eq, ◌&&◌,
  ◌==◌, if◌then◌else◌,
}
use flux_bar.Sql.{exists_row, find_row, upsert, update_where}
use flux_bar.Store.Schema.{Db, entry_key, pending_key}
use flux_bar.Store.Mutations.{
  MutationReceipt, set_read, set_starred, write_read, upsert_pending, new_pending, undo, read_text,
  with_status,
}
use flux_bar.Store.Acknowledge.{acknowledge}
use flux_bar.Store.Views.{entry_at, pending_at, same_entry, same_pending, bumped}
use flux_bar.Store.ReadState.{listed, changes}
use flux_bar.Store.SetRead.{set_read-effect}
use flux_bar.Store.UndoSetRead.{undo-set_read}
use flux_bar.Store.Acknowledged.{unsent, acknowledged, acknowledge-effect}
use flux_bar.Store.AckConsistency.{acknowledge-IsConsistent}
use flux_bar.Domain.Selection.{starred}
use flux_bar.Domain.Entry.{unread, Entry}
use flux_bar.Store.Apply.{
  SnapshotData, apply_snapshot, reconcile_if_complete, is_complete, normalize_selection, is_starred,
  remote_ids, replace_navigation, insert_navigation, apply_entries, apply_entry, reconcile_rows,
  write_totals, upsert_total, has_pending, insert_feeds, is_vanished, merge_remote,
  reconcile_complete_selection, remote_row, row_in_scope, selection_kind, total_key,
}
use flux_bar.Sql.{delete_where}
use flux_bar.Prelude.{wrap_i32}
use flux_bar.Domain.Selection.{is_unread_only, scope_id}
use flux_bar.Domain.Entry.{as_str}
use flux_bar.Store.Schema.{account_key, category_key, feed_key}
use flux_bar.Store.ApplyTakes.{IsTaken, apply_snapshot-IsTaken}
use flux_bar.Store.Consistency.{IsConsistent, set_read-IsConsistent, set_starred-IsConsistent}
use flux_bar.Store.Fixtures.{
  clock, article, one_article, IsFresh-one_article, IsConsistent-one_article, IsKnown-one_article,
  marked, sent, stored, IsConsistent-marked, IsKeyed-marked, WasSent-marked, stored_marked,
}

set_read-effect_example :
    (db' : Db) × (r : Option MutationReceipt) × (set_read "2026-01-01T00:00:00Z" clock "b1" "acct"
        (pos 7 ∷ [])
        true
        true
        one_article
      ≡ ok (db', r))
    × ((b : String) (j : ℤ)
        → entry_at b j db' ≡ (
            if "acct" == b && listed j (pos 7 ∷ [])
            then Option.map (with_status (read_text true)) (entry_at b j one_article)
            else entry_at b j one_article))
    × ((b : String) (j : ℤ) (g : String)
        → pending_at b j g db' ≡ (
            if ("acct" == b && "read" == g)
              && (listed j (pos 7 ∷ []) && changes true (entry_at "acct" j one_article))
            then some (bumped (clock j) "acct" j "read" true (pending_at b j g one_article))
            else pending_at b j g one_article))
set_read-effect_example =
    set_read-effect "2026-01-01T00:00:00Z" clock "b1" "acct" (pos 7 ∷ []) true true one_article
      (λ _. IsFresh-one_article)

-- What the run returns.
abbrev read_db : Db
read_db = record one_article {
  entries = with_status "read" article ∷ [];
  pending_mutations = new_pending "2026-01-01T00:00:00Z" "acct" (pos 7) "read" true ∷ [];
  undo_batches =
      record { account_id = "acct"; id = "b1"; created_at = "2026-01-01T00:00:00Z" } ∷ [];
  undo_items =
      record { account_id = "acct"; batch_id = "b1"; entry_id = pos 7; prior_read = false } ∷ [];
}

abbrev read_receipt : MutationReceipt
read_receipt = record { id = "b1"; count = pos 1 }

set_read_run :
    set_read "2026-01-01T00:00:00Z" clock "b1" "acct" (pos 7 ∷ []) true true one_article
    ≡ ok (read_db, some read_receipt)
unfolding set_read insert_batch insert_row exists_row mark_entries mark_found find_row forget_undo
    entry_key id_eq read_text insert_undo_item clean_batches write_read update_where upsert_pending
    append_row upsert add_i32
set_read_run = refl

undo-set_read_example :
    entry_at "acct" (pos 7) (undo clock "acct" "b1" read_db).0 ≡ entry_at "acct" (pos 7) one_article
undo-set_read_example =
    undo-set_read "2026-01-01T00:00:00Z" clock "b1" "acct" (pos 7 ∷ []) true one_article
      IsFresh-one_article IsKnown-one_article read_db read_receipt clock set_read_run "acct" (pos 7)

acknowledge-effect_example :
    (db' : Db) × (acknowledge "acct" sent marked ≡ ok db')
    × ((b : String) (j : ℤ)
        → entry_at b j db' ≡ (
            if same_entry "acct" (pos 7) b j
            then Option.map (acknowledged sent) (entry_at b j marked)
            else entry_at b j marked))
    × ((b : String) (j : ℤ) (g : String)
        → pending_at b j g db' ≡ (
            if same_pending "acct" (pos 7) "read" b j g
            then unsent sent (pending_at b j g marked)
            else pending_at b j g marked))
acknowledge-effect_example = acknowledge-effect "acct" sent marked IsKeyed-marked stored_marked

acknowledge-IsConsistent_example :
    (db' : Db) × (acknowledge "acct" sent marked ≡ ok db') × IsConsistent db'
acknowledge-IsConsistent_example =
    acknowledge-IsConsistent "acct" sent marked IsKeyed-marked IsConsistent-marked WasSent-marked

set_read-IsConsistent_example : IsConsistent read_db
set_read-IsConsistent_example =
    set_read-IsConsistent "2026-01-01T00:00:00Z" clock "b1" "acct" (pos 7 ∷ []) true true
      one_article (λ _. IsFresh-one_article) IsConsistent-one_article read_db (some read_receipt)
      set_read_run

set_starred-IsConsistent_example :
    IsConsistent (set_starred "2026-01-01T00:00:00Z" "acct" (pos 7) true one_article)
set_starred-IsConsistent_example =
    set_starred-IsConsistent "2026-01-01T00:00:00Z" "acct" (pos 7) one_article stored
      IsConsistent-one_article true

-- The server's article, which is still unread there and has got a star.
abbrev remote_article : Entry
remote_article = record {
  id = pos 7;
  title = "Title";
  url = "https://example.org/7";
  comments_url = "";
  feed_id = pos 1;
  feed_name = "Feed";
  category_id = pos 2;
  published_at_rfc3339 = "2026-01-01T00:00:00Z";
  preview = "";
  image_url = "";
  status = unread;
  starred = true;
}

abbrev remote_snapshot : SnapshotData
remote_snapshot = record {
  version = pos 1;
  selection = starred false;
  entries = remote_article ∷ [];
  categories = [];
  total = pos 1;
  unread_total = pos 1;
  starred_total = pos 1;
}

-- The queued read state survives, the star arrives.
abbrev applied_db : Db
applied_db = record marked {
  entries = record article { status = "read"; starred = true; remote_starred = true } ∷ [];
  selection_totals =
      record {
        account_id = "acct";
        kind = "starred";
        selection_id = pos 0;
        unread_only = false;
        total = pos 1;
      }
      ∷ [];
}

apply_snapshot_run :
    apply_snapshot "2026-01-01T00:00:00Z" "acct" remote_snapshot marked ≡ ok applied_db
unfolding apply_snapshot reconcile_if_complete is_complete wrap_i32 is_unread_only
    normalize_selection is_starred remote_ids insert_row exists_row replace_navigation
    insert_navigation apply_entries apply_entry write_read reconcile_rows delete_where upsert
    write_totals update_where upsert_pending upsert_total entry_key as_str scope_id id_eq
    has_pending insert_feeds is_vanished merge_remote reconcile_complete_selection remote_row
    row_in_scope selection_kind total_key read_text account_key category_key feed_key pending_key
    append_row
apply_snapshot_run = refl

apply_snapshot-IsTaken_example :
    (applied_db.pending_mutations ≡ marked.pending_mutations)
    × IsTaken "acct" remote_article applied_db
    × IsConsistent applied_db
apply_snapshot-IsTaken_example =
    apply_snapshot-IsTaken "2026-01-01T00:00:00Z" "acct" remote_snapshot marked applied_db [] []
      remote_article IsConsistent-marked refl tt apply_snapshot_run
