-- ===== src/Store/SetRead.antt =====
-- `set_read` and `undo` of store.rs: what a call returns, and what it makes of the database.
use mathlib.Core.Option
use native.Mathlib.Nat.{zero-add}
use flux_bar.Prelude.{
  ◌≡◌, Bool, true, false, ◌&&◌, Option, none, some, List, String, ◌==◌, ℤ, arith, if◌then◌else◌,
  Bool-cases, inl, inr, ok, ltb_ℤ, pos, wrap_i32,
}
use flux_bar.Sql.{exists_row, insert_row, append_row}
use flux_bar.Sql.Laws.{exists_row-inside}
use flux_bar.Store.Schema.{Db, UndoItemRow, batch_key, item_of_batch, item_key}
use flux_bar.Store.Mutations.{
  MutationReceipt, mark_entries, insert_batch, clean_batches, set_read, read_text, with_status,
}
use flux_bar.Store.Views.{entry_at, pending_at, bumped}
use flux_bar.Store.ReadState.{listed, changes, step_entries, changed_count}
use flux_bar.Store.MarkLoop.{IsClear, mark_entries-step}
use flux_bar.Store.MarkAll.{entry_at-step_entries, pending_at-step_entries}

-- The identifier of a new batch is not in use.
pub record IsFresh (account fresh : String) (db : Db) : Type 0 where
  pub no_batch : exists_row (batch_key account fresh) db.undo_batches ≡ false
  pub no_items : exists_row (item_of_batch account fresh) db.undo_items ≡ false

item_key-inside :
    (a batch : String) (j : ℤ) (r : UndoItemRow)
    → item_key a batch j r ≡ true
    → item_of_batch a batch r ≡ true
unfolding item_key item_of_batch
item_key-inside a batch j r h = ground arith

module _ (started : String) (now : ℤ → String) (fresh account : String) (ids : List ℤ)
    (read undoable : Bool) (db : Db) where
  -- The database after the batch was opened, and after the loop.
  unfoldable pub opened : Db
  opened = record db {
    undo_batches =
        if undoable
        then append_row (record { account_id = account; id = fresh; created_at = started })
            db.undo_batches
        else db.undo_batches;
  }

  unfoldable pub changed : ℤ
  changed = wrap_i32 (pos (changed_count now account read undoable fresh ids opened))

  unfoldable pub after_set_read : Db
  after_set_read =
      clean_batches account fresh undoable changed
        (step_entries now account read undoable fresh ids opened)

  unfoldable pub receipt : Option MutationReceipt
  receipt =
      if undoable && ltb_ℤ (pos 0) changed
      then some (record { id = fresh; count = changed })
      else none

  IsClear-opened :
      (undoable ≡ true → IsFresh account fresh db) → IsClear now account read undoable fresh opened
  unfolding opened
  IsClear-opened unused = record {
    clear = λ j _ noted.
        exists_row-inside (item_of_batch account fresh) (item_key account fresh j) db.undo_items
          (item_key-inside account fresh j) (unused noted).no_items;
  }

  open_batch :
      (undoable ≡ true → IsFresh account fresh db)
      → (if undoable then insert_batch started account fresh db else ok db) ≡ ok opened
  unfolding opened insert_batch insert_row
  open_batch unused = elim (Bool-cases undoable) [
    | inl noted ↦ rw (noted, (unused noted).no_batch)
    | inr plain ↦ rw plain
  ]

  pub set_read-runs :
      (undoable ≡ true → IsFresh account fresh db)
      → set_read started now fresh account ids read undoable db ≡ ok (after_set_read, receipt)
  unfolding set_read after_set_read receipt changed mark_entries clean_batches wrap_i32
  set_read-runs unused = rw (open_batch unused) (
      rw (mark_entries-step now account read undoable fresh ids opened 0 (IsClear-opened unused))
        (rw zero-add))

  -- A call of `set_read` with a fresh batch identifier succeeds. Every listed entry of the account
  -- has the wanted status and its other columns, all other entries are unchanged; and exactly the
  -- listed entries whose status differed have their pending row "read" inserted or bumped to the
  -- wanted value, all other pending rows are unchanged.
  pub set_read-effect :
      (undoable ≡ true → IsFresh account fresh db)
      → (db' : Db) × (r : Option MutationReceipt) × (set_read started now fresh account ids read
            undoable db
          ≡ ok (db', r))
        × ((b : String) (j : ℤ)
            → entry_at b j db' ≡ (
                if account == b && listed j ids
                then Option.map (with_status (read_text read)) (entry_at b j db)
                else entry_at b j db))
        × ((b : String) (j : ℤ) (g : String)
            → pending_at b j g db' ≡ (
                if (account == b && "read" == g)
                  && (listed j ids && changes read (entry_at account j db))
                then some (bumped (now j) account j "read" read (pending_at b j g db))
                else pending_at b j g db))
  unfolding after_set_read clean_batches opened
  set_read-effect unused = (
    after_set_read,
    receipt,
    set_read-runs unused,
    entry_at-step_entries now account read undoable fresh ids opened,
    pending_at-step_entries now account read undoable fresh ids opened,
  )
