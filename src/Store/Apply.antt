-- ===== src/Store/Apply.antt =====
-- rust-core/src/persistence/store.rs: a remote browse result applied in one transaction, with the
-- reconciliation of a complete selection.
use flux_bar.Prelude.{
  Bool, true, false, not, ◌&&◌, ◌||◌, some, List, [], ◌∷◌, String, ◌==◌, ℤ, pos, ltb_ℤ, leb_ℤ,
  id_eq, wrap_i32, Result, ok, ◌>>=◌, length, if◌then◌else◌,
}
use flux_bar.Sql.{SqlError, exists_row, update_where, delete_where, upsert, insert_row}
use flux_bar.Domain.Selection.{
  Selection, all, unread, starred, category, feed, is_unread_only, scope_id,
}
use flux_bar.Domain.Entry.{Entry, as_str}
use flux_bar.Domain.Navigation.{Feed, Category}
use flux_bar.Store.Schema.{
  Db, CategoryRow, EntryRow, FeedRow, PendingRow, SelectionTotalRow, account_key, category_key,
  feed_key, entry_key, pending_key,
}

pub record SnapshotData : Type 0 where
  pub version : ℤ
  pub selection : Selection
  pub entries : List Entry
  pub categories : List Category
  pub total : ℤ
  pub unread_total : ℤ
  pub starred_total : ℤ

unfoldable pub normalize_selection : Selection → Selection
normalize_selection (category id unread_only) =
    if ltb_ℤ (pos 0) id then category id unread_only else all (pos 0) true
normalize_selection (feed id unread_only) =
    if ltb_ℤ (pos 0) id then feed id unread_only else all (pos 0) true
normalize_selection selection = selection

unfoldable pub selection_kind : Selection → String
selection_kind (all _ _) = "all"
selection_kind (unread _) = "unread"
selection_kind (starred _) = "starred"
selection_kind (category _ _) = "category"
selection_kind (feed _ _) = "feed"

-- `matches!(selection, Selection::Starred { .. })`
unfoldable pub is_starred : Selection → Bool
is_starred (starred _) = true
is_starred _ = false

-- PRIMARY KEY (account_id, kind, selection_id, unread_only)
unfoldable pub total_key : String → String → ℤ → Bool → SelectionTotalRow → Bool
total_key account kind id unread_only t =
    t.account_id == account
    && t.kind == kind
    && id_eq t.selection_id id
    && (if unread_only then t.unread_only else not t.unread_only)

unfoldable pub upsert_total :
    String → String → ℤ → Bool → ℤ → List SelectionTotalRow → List SelectionTotalRow
upsert_total account kind id unread_only total =
    upsert (total_key account kind id unread_only) (λ t. record t { total = total })
      (record {
        account_id = account;
        kind = kind;
        selection_id = id;
        unread_only = unread_only;
        total = total;
      })

-- The INSERTs into the temporary table of remote identifiers.
unfoldable pub remote_ids : List Entry → List ℤ → Result SqlError (List ℤ)
remote_ids [] ids = ok ids
remote_ids (e ∷ entries) ids = do next ← insert_row (id_eq e.id) e.id ids; remote_ids entries next

-- The columns that the reconciliation's WHERE adds for a category or a feed.
unfoldable pub row_in_scope : Selection → EntryRow → Bool
row_in_scope (category id _) r = id_eq r.category_id id
row_in_scope (feed id _) r = id_eq r.feed_id id
row_in_scope _ r = true

unfoldable pub is_vanished : String → Selection → List ℤ → EntryRow → Bool
is_vanished account selection ids r =
    r.account_id == account
    && row_in_scope selection r
    && not (exists_row (λ id. id_eq id r.id) ids)

-- EXISTS(SELECT 1 FROM pending_mutations ...)
unfoldable pub has_pending : List PendingRow → String → EntryRow → Bool
has_pending rows field r = exists_row (pending_key r.account_id r.id field) rows

abbrev pub mark_vanished_read : List PendingRow → EntryRow → EntryRow
mark_vanished_read rows r = record r {
  remote_status = "read";
  status = if has_pending rows "read" r then r.status else "read";
}

abbrev pub mark_vanished_unstarred : List PendingRow → EntryRow → EntryRow
mark_vanished_unstarred rows r = record r {
  remote_starred = false;
  starred = if has_pending rows "starred" r then r.starred else false;
}

unfoldable pub reconcile_rows : String → Selection → List ℤ → Db → Db
reconcile_rows account selection ids db = record db {
  entries =
      if is_unread_only selection
      then update_where (λ r. is_vanished account selection ids r && r.remote_status == "unread")
          (mark_vanished_read db.pending_mutations) db.entries
      else if is_starred selection
      then update_where (λ r. is_vanished account selection ids r && r.remote_starred)
          (mark_vanished_unstarred db.pending_mutations) db.entries
      else db.entries;
}

unfoldable pub reconcile_complete_selection :
    String → Selection → List Entry → Db → Result SqlError Db
reconcile_complete_selection account selection entries db = do
  ids ← remote_ids entries []
  ok (reconcile_rows account selection ids db)

unfoldable pub insert_feeds : String → ℤ → List Feed → List FeedRow → Result SqlError (List FeedRow)
insert_feeds account category_id [] rows = ok rows
insert_feeds account category_id (f ∷ feeds) rows = do
  next ←
      insert_row (feed_key account f.id)
        (record {
          account_id = account;
          id = f.id;
          category_id = category_id;
          title = f.title;
          remote_unread_count = f.unread_count;
        })
        rows
  insert_feeds account category_id feeds next

unfoldable pub insert_navigation :
    String
    → List Category
    → List CategoryRow
    → List FeedRow
    → Result SqlError (List CategoryRow × List FeedRow)
insert_navigation account [] categories feeds = ok (categories, feeds)
insert_navigation account (c ∷ cs) categories feeds = do
  categories' ←
      insert_row (category_key account c.id)
        (record { account_id = account; id = c.id; title = c.title }) categories
  feeds' ← insert_feeds account c.id c.feeds feeds
  insert_navigation account cs categories' feeds'

-- The row that the INSERT of a remote entry adds: what the server says, remote and effective.
unfoldable pub remote_row : String → Entry → EntryRow
remote_row account e = record {
  account_id = account;
  id = e.id;
  title = e.title;
  url = e.url;
  comments_url = e.comments_url;
  feed_id = e.feed_id;
  feed_name = e.feed_name;
  category_id = e.category_id;
  published_at = e.published_at_rfc3339;
  preview = e.preview;
  image_url = e.image_url;
  remote_status = as_str e.status;
  remote_starred = e.starred;
  status = as_str e.status;
  starred = e.starred;
}

-- ON CONFLICT: all columns are the server's, but an effective value with a pending change stays.
unfoldable pub merge_remote : String → Entry → Bool → Bool → EntryRow → EntryRow
merge_remote account e pending_read pending_starred r = record (remote_row account e) {
  account_id = r.account_id;
  id = r.id;
  status = if pending_read then r.status else as_str e.status;
  starred = if pending_starred then r.starred else e.starred;
}

unfoldable pub apply_entry : String → Entry → Db → Db
apply_entry account e db = record db {
  entries =
      upsert (entry_key account e.id)
        (merge_remote account e (exists_row (pending_key account e.id "read") db.pending_mutations)
          (exists_row (pending_key account e.id "starred") db.pending_mutations))
        (remote_row account e) db.entries;
}

unfoldable pub apply_entries : String → List Entry → Db → Db
apply_entries account [] db = db
apply_entries account (e ∷ entries) db = apply_entries account entries (apply_entry account e db)

-- `snapshot.total <= snapshot.entries.len() as i32 && (...)`
unfoldable pub is_complete : Selection → SnapshotData → Bool
is_complete selection snapshot =
    leb_ℤ snapshot.total (wrap_i32 (pos (length snapshot.entries)))
    && (is_unread_only selection || is_starred selection)

-- The UPDATE of the account and the INSERT of the selection's total.
unfoldable pub write_totals : String → String → Selection → SnapshotData → Db → Db
write_totals now account selection snapshot db = record db {
  accounts =
      update_where (account_key account)
        (λ a. record a { remote_starred_total = snapshot.starred_total; last_sync_at = some now })
        db.accounts;
  selection_totals =
      upsert_total account (selection_kind selection) (scope_id selection)
        (is_unread_only selection) snapshot.total db.selection_totals;
}

unfoldable pub reconcile_if_complete : String → Selection → SnapshotData → Db → Result SqlError Db
unfolding reconcile_complete_selection
reconcile_if_complete account selection snapshot db =
    if is_complete selection snapshot
    then reconcile_complete_selection account selection snapshot.entries db
    else ok db

-- DELETE FROM feeds, DELETE FROM categories, and the INSERTs of the new navigation.
unfoldable pub replace_navigation : String → List Category → Db → Result SqlError Db
replace_navigation account categories db = do
  (category_rows, feed_rows) ←
      insert_navigation account categories
        (delete_where (λ c. c.account_id == account) db.categories)
        (delete_where (λ f. f.account_id == account) db.feeds)
  ok (record db { categories = category_rows; feeds = feed_rows })

unfoldable pub apply_snapshot : String → String → SnapshotData → Db → Result SqlError Db
apply_snapshot now account snapshot db = do
  let selection = normalize_selection snapshot.selection
  reconciled ←
      reconcile_if_complete account selection snapshot
        (write_totals now account selection snapshot db)
  replaced ← replace_navigation account snapshot.categories reconciled
  ok (apply_entries account snapshot.entries replaced)
