-- ===== src/Store/ReadState.antt =====
-- The loop of `set_read` of store.rs without its error path: one step for each identifier. The
-- loop is this function whenever no undo item of the new batch is in the way (MarkLoop.antt).
use flux_bar.Prelude.{
  ℕ, suc, Bool, false, not, ◌||◌, Option, none, some, List, [], ◌∷◌, String, ◌==◌, ℤ, id_eq,
  if◌then◌else◌,
}
use flux_bar.Sql.{append_row}
use flux_bar.Store.Schema.{Db, EntryRow, UndoItemRow}
use flux_bar.Store.Mutations.{write_read, read_text, forget_undo}
use flux_bar.Store.Views.{entry_at}

-- `entry_ids.contains(&id)`
unfoldable pub listed : ℤ → List ℤ → Bool
listed id [] = false
listed id (x ∷ xs) = id_eq x id || listed id xs

-- The entry exists, and its status is not yet the wanted one.
unfoldable pub changes : Bool → Option EntryRow → Bool
changes read none = false
changes read (some e) = not (e.status == read_text read)

abbrev pub item_row : String → String → ℤ → EntryRow → UndoItemRow
item_row account batch id e = record {
  account_id = account;
  batch_id = batch;
  entry_id = id;
  prior_read = e.status == "read";
}

unfoldable pub note_item : String → Bool → String → ℤ → EntryRow → Db → Db
note_item account undoable batch id e db = record db {
  undo_items =
      if undoable then append_row (item_row account batch id e) db.undo_items else db.undo_items;
}

module _ (now : ℤ → String) (account : String) (read undoable : Bool) (batch : String) where
  unfoldable pub step_found : ℤ → Option EntryRow → Db → Db
  step_found id none db = db
  step_found id (some e) db =
      if e.status == read_text read
      then db
      else write_read (now id) account id read (note_item account undoable batch id e db)

  unfoldable pub step_entry : ℤ → Db → Db
  step_entry id db =
      let cleared = forget_undo account id undoable db in
      step_found id (entry_at account id cleared) cleared

  unfoldable pub step_entries : List ℤ → Db → Db
  step_entries [] db = db
  step_entries (id ∷ ids) db = step_entries ids (step_entry id db)

  -- How many entries the loop changes.
  unfoldable pub changed_count : List ℤ → Db → ℕ
  changed_count [] db = 0
  changed_count (id ∷ ids) db =
      let rest = changed_count ids (step_entry id db) in
      if changes read (entry_at account id db) then suc rest else rest
