-- ===== src/Store/UndoItems.antt =====
-- The undo items that an undoable `set_read` of store.rs leaves, and what replaying them restores.
use mathlib.Core.Option
use flux_bar.Prelude.{
  ◌≡◌, refl, ap, sym, ◌∙◌, Bool, true, Option, none, some, List, [], ◌∷◌, ◌++◌, String, ◌==◌, ℤ,
  id_eq, if◌then◌else◌, Bool-cases, inl, inr,
}
use mathlib.Core.List.{append-nil, append_assoc}
use flux_bar.Sql.Laws.{append_row-append}
use flux_bar.Store.Schema.{Db, EntryRow, UndoItemRow}
use flux_bar.Store.Mutations.{read_text, with_status, write_read, restore_items, forget_undo}
use flux_bar.Store.Views.{entry_at, same_entry-account}
use flux_bar.Store.ReadState.{item_row, note_item, step_found, step_entry, step_entries}
use flux_bar.Store.MarkViews.{entry_at-write_read}

-- The item that one step adds.
unfoldable pub noted_item : String → Bool → String → ℤ → Option EntryRow → List UndoItemRow
noted_item a read batch id none = []
noted_item a read batch id (some e) =
    if e.status == read_text read then [] else item_row a batch id e ∷ []

module _ (now : ℤ → String) (a : String) (read : Bool) (batch : String) where
  -- The items that the loop adds, in its order.
  unfoldable pub noted_items : List ℤ → Db → List UndoItemRow
  noted_items [] db = []
  noted_items (id ∷ ids) db =
      noted_item a read batch id (entry_at a id db)
      ++ noted_items ids (step_entry now a read true batch id db)

  items_of_found :
      (id : ℤ) (found : Option EntryRow) (db : Db)
      → (step_found now a read true batch id found db).undo_items
        ≡ db.undo_items ++ noted_item a read batch id found
  unfolding step_found noted_item note_item write_read
  items_of_found id none db = sym (append-nil db.undo_items)
  items_of_found id (some e) db = elim (Bool-cases (e.status == read_text read)) [
    | inl done ↦ rw done (sym (append-nil db.undo_items))
    | inr more ↦ rw more (append_row-append (item_row a batch id e) db.undo_items)
  ]

  items_of_step :
      (id : ℤ) (db : Db)
      → (step_entry now a read true batch id db).undo_items
        ≡ db.undo_items ++ noted_item a read batch id (entry_at a id db)
  unfolding step_entry forget_undo
  items_of_step id db = items_of_found id (entry_at a id db) db

  pub undo_items-step_entries :
      (ids : List ℤ) (db : Db)
      → (step_entries now a read true batch ids db).undo_items ≡ db.undo_items ++ noted_items ids db
  unfolding step_entries noted_items
  undo_items-step_entries [] db = sym (append-nil db.undo_items)
  undo_items-step_entries (id ∷ ids) db =
      undo_items-step_entries ids (step_entry now a read true batch id db)
      ∙ ap (λ (l : List UndoItemRow). l ++ noted_items ids (step_entry now a read true batch id db))
          (items_of_step id db)
      ∙ append_assoc db.undo_items (noted_item a read batch id (entry_at a id db))
          (noted_items ids (step_entry now a read true batch id db))

-- What replaying undo items makes of one entry.
unfoldable pub restored : List UndoItemRow → ℤ → Option EntryRow → Option EntryRow
restored [] j found = found
restored (item ∷ items) j found = restored items j (
    if id_eq item.entry_id j
    then Option.map (with_status (read_text item.prior_read)) found
    else found)

pub entry_at-restore_items :
    (now : ℤ → String) (a : String) (items : List UndoItemRow) (db : Db) (j : ℤ)
    → entry_at a j (restore_items now a items db) ≡ restored items j (entry_at a j db)
unfolding restore_items restored
entry_at-restore_items now a [] db j = refl
entry_at-restore_items now a (item ∷ items) db j =
    entry_at-restore_items now a items
      (write_read (now item.entry_id) a item.entry_id item.prior_read db) j
    ∙ ap (restored items j) (
        entry_at-write_read (now item.entry_id) a item.entry_id item.prior_read db a j
        ∙ rw (same_entry-account a item.entry_id j))

pub restored-append :
    (xs ys : List UndoItemRow) (j : ℤ) (found : Option EntryRow)
    → restored (xs ++ ys) j found ≡ restored ys j (restored xs j found)
unfolding restored
restored-append [] ys j found = refl
restored-append (x ∷ xs) ys j found = restored-append xs ys j _
