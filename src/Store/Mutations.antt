-- ===== src/Store/Mutations.antt =====
-- rust-core/src/persistence/store.rs: the local mutations. Each runs in one transaction: it returns
-- the database that COMMIT makes visible, or an error, which leaves the database as it was.
--
-- The clock and the source of identifiers are arguments: `started` is the reading of `now_rfc3339`
-- at the start of a transaction, `now id` the reading when the pending row of entry `id` is written,
-- `fresh` the value of `random_id`.
use flux_bar.Prelude.{
  ◌+◌, Bool, not, ◌&&◌, Option, none, some, List, [], ◌∷◌, map, String, ◌==◌, ℤ, Result, ok, ◌>>=◌,
  ltb_ℤ, id_eq, pos, add_i32, if◌then◌else◌,
}
use flux_bar.Sql.{
  SqlError, select, find_row, exists_row, update_where, delete_where, upsert, insert_row,
}
use flux_bar.Store.Schema.{
  Db, EntryRow, PendingRow, UndoBatchRow, UndoItemRow, entry_key, pending_key, batch_key,
  item_of_batch, item_of_entry, item_key,
}

pub record MutationReceipt : Type 0 where
  pub id : String
  pub count : ℤ

-- The row that `upsert_pending` inserts, and its update of a row that is there.
abbrev pub new_pending : String → String → ℤ → String → Bool → PendingRow
new_pending now account id field desired = record {
  account_id = account;
  entry_id = id;
  field = field;
  desired = desired;
  revision = 1;
  updated_at = now;
}

abbrev pub bump : String → Bool → PendingRow → PendingRow
bump now desired p = record p { desired = desired; revision = p.revision + 1; updated_at = now }

unfoldable pub upsert_pending :
    String → String → ℤ → String → Bool → List PendingRow → List PendingRow
upsert_pending now account id field desired =
    upsert (pending_key account id field) (bump now desired)
      (new_pending now account id field desired)

-- `if read { "read" } else { "unread" }`
unfoldable pub read_text : Bool → String
read_text read = if read then "read" else "unread"

abbrev pub with_status : String → EntryRow → EntryRow
with_status status e = record e { status = status }

abbrev pub with_starred : Bool → EntryRow → EntryRow
with_starred starred e = record e { starred = starred }

-- UPDATE entries SET status=?1 WHERE account_id=?2 AND id=?3, and the pending row of the change.
unfoldable pub write_read : String → String → ℤ → Bool → Db → Db
write_read now account id read db = record db {
  entries = update_where (entry_key account id) (with_status (read_text read)) db.entries;
  pending_mutations = upsert_pending now account id "read" read db.pending_mutations;
}

unfoldable pub insert_undo_item : String → String → ℤ → Bool → Db → Result SqlError Db
insert_undo_item account batch id prior_read db = do
  items ←
      insert_row (item_key account batch id)
        (record { account_id = account; batch_id = batch; entry_id = id; prior_read = prior_read })
        db.undo_items
  ok (record db { undo_items = items })

-- The loop's body after the row was read: `continue`, or the change of one entry.
unfoldable pub mark_found :
    (ℤ → String)
    → String
    → Bool
    → Bool
    → String
    → ℤ
    → Option EntryRow
    → Db
    → ℤ
    → Result SqlError (Db × ℤ)
mark_found now account read undoable batch id none db count = ok (db, count)
mark_found now account read undoable batch id (some current) db count =
    if current.status == read_text read then ok (db, count) else do
      noted ←
          (if undoable
            then insert_undo_item account batch id (current.status == "read") db
            else ok db)
      ok (write_read (now id) account id read noted, add_i32 count (pos 1))

-- A change that cannot be undone invalidates what earlier batches would restore.
unfoldable pub forget_undo : String → ℤ → Bool → Db → Db
forget_undo account id undoable db = record db {
  undo_items =
      if undoable then db.undo_items else delete_where (item_of_entry account id) db.undo_items;
}

unfoldable pub mark_entries :
    (ℤ → String) → String → Bool → Bool → String → List ℤ → Db → ℤ → Result SqlError (Db × ℤ)
mark_entries now account read undoable batch [] db count = ok (db, count)
mark_entries now account read undoable batch (id ∷ ids) db count = do
  let cleared = forget_undo account id undoable db
  (marked, n) ←
      mark_found now account read undoable batch id
        (find_row (entry_key account id) cleared.entries) cleared count
  mark_entries now account read undoable batch ids marked n

unfoldable pub insert_batch : String → String → String → Db → Result SqlError Db
insert_batch started account id db = do
  batches ←
      insert_row (batch_key account id)
        (record { account_id = account; id = id; created_at = started }) db.undo_batches
  ok (record db { undo_batches = batches })

-- The WHERE of the clean-up: a batch of the account with no item left.
unfoldable pub is_empty_batch : String → List UndoItemRow → UndoBatchRow → Bool
is_empty_batch account items b =
    b.account_id == account && not (exists_row (item_of_batch b.account_id b.id) items)

unfoldable pub clean_batches : String → String → Bool → ℤ → Db → Db
clean_batches account batch undoable count db = record db {
  undo_batches =
      if undoable
      then (if id_eq count (pos 0)
          then delete_where (batch_key account batch) db.undo_batches
          else db.undo_batches)
      else delete_where (is_empty_batch account db.undo_items) db.undo_batches;
}

unfoldable pub set_read :
    String
    → (ℤ → String)
    → String
    → String
    → List ℤ
    → Bool
    → Bool
    → Db
    → Result SqlError (Db × Option MutationReceipt)
set_read started now fresh account ids read undoable db = do
  opened ← (if undoable then insert_batch started account fresh db else ok db)
  (marked, count) ← mark_entries now account read undoable fresh ids opened (pos 0)
  ok (
    clean_batches account fresh undoable count marked,
    (if undoable && ltb_ℤ (pos 0) count then some (record { id = fresh; count = count }) else none),
  )

unfoldable pub set_starred : String → String → ℤ → Bool → Db → Db
set_starred now account id starred db = record db {
  entries = update_where (entry_key account id) (with_starred starred) db.entries;
  pending_mutations = upsert_pending now account id "starred" starred db.pending_mutations;
}

unfoldable pub restore_items : (ℤ → String) → String → List UndoItemRow → Db → Db
restore_items now account [] db = db
restore_items now account (item ∷ items) db =
    restore_items now account items
      (write_read (now item.entry_id) account item.entry_id item.prior_read db)

-- DELETE FROM undo_items, DELETE FROM undo_batches of one batch.
unfoldable pub discard_undo : String → String → Db → Db
discard_undo account batch db = record db {
  undo_items = delete_where (item_of_batch account batch) db.undo_items;
  undo_batches = delete_where (batch_key account batch) db.undo_batches;
}

unfoldable pub undo : (ℤ → String) → String → String → Db → Db × List ℤ
undo now account batch db =
    let items = select (item_of_batch account batch) db.undo_items in
    (
      discard_undo account batch (restore_items now account items db),
      map (λ (item : UndoItemRow). item.entry_id) items,
    )
