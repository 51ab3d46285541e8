-- ===== src/Store/UndoSetRead.antt =====
-- `undo` of store.rs with the receipt of an undoable `set_read`.
use flux_bar.Prelude.{
  ◌≡◌, refl, ap, ◌∙◌, Bool, true, false, Option, none, some, List, [], ◌∷◌, String, ◌==◌, eq_iff,
  eq_refl, ℤ, arith, Bool-cases, inl, inr, ok,
}
use flux_bar.Sql.{select}
use flux_bar.Sql.Laws.{select_none, select-append}
use flux_bar.Store.Schema.{Db, EntryRow, UndoItemRow, item_of_batch}
use flux_bar.Store.Mutations.{
  MutationReceipt, clean_batches, set_read, write_read, undo, discard_undo, restore_items,
}
use flux_bar.Store.Views.{entry_at, same_entry}
use flux_bar.Store.ReadState.{step_entry}
use flux_bar.Store.MarkViews.{entry_at-write_read}
use flux_bar.Store.MarkAll.{entry_at-step_entries}
use flux_bar.Store.UndoItems.{
  noted_item, noted_items, restored, undo_items-step_entries, entry_at-restore_items,
}
use flux_bar.Store.UndoRoundTrip.{IsKnown, restored-step_entries}
use flux_bar.Store.SetRead.{IsFresh, opened, after_set_read, receipt, set_read-runs}

select-noted_item :
    (a : String) (read : Bool) (batch : String) (id : ℤ) (found : Option EntryRow)
    → select (item_of_batch a batch) (noted_item a read batch id found)
      ≡ noted_item a read batch id found
unfolding select noted_item item_of_batch
select-noted_item a read batch id none = refl
select-noted_item a read batch id (some e) = ground (arith, eq_refl a, eq_refl batch)

select-noted_items :
    (now : ℤ → String) (a : String) (read : Bool) (batch : String) (ids : List ℤ) (db : Db)
    → select (item_of_batch a batch) (noted_items now a read batch ids db)
      ≡ noted_items now a read batch ids db
unfolding noted_items
select-noted_items now a read batch [] db = unfold select in refl
select-noted_items now a read batch (id ∷ ids) db =
    let next = step_entry now a read true batch id db in
    select-append (item_of_batch a batch) (noted_item a read batch id (entry_at a id db))
      (noted_items now a read batch ids next)
    ∙ rw (select-noted_item, select-noted_items now a read batch ids next)

-- The entries of other accounts are not restored.
entry_at-restore_items_ne :
    (now : ℤ → String) (a : String) (items : List UndoItemRow) (db : Db) (b : String) (j : ℤ)
    → (a == b) ≡ false
    → entry_at b j (restore_items now a items db) ≡ entry_at b j db
unfolding restore_items
entry_at-restore_items_ne now a [] db b j other = refl
entry_at-restore_items_ne now a (item ∷ items) db b j other =
    let written = write_read (now item.entry_id) a item.entry_id item.prior_read db in
    entry_at-restore_items_ne now a items written b j other
    ∙ entry_at-write_read (now item.entry_id) a item.entry_id item.prior_read db b j
    ∙ unfold same_entry in rw other

module _ (started : String) (now : ℤ → String) (fresh account : String) (ids : List ℤ) (read : Bool)
    (db : Db) (unused : IsFresh account fresh db) where
  -- The batch of the call holds exactly the items of the loop.
  batch_items :
      select
        (item_of_batch account fresh)
        (after_set_read started now fresh account ids read true db).undo_items
      ≡ noted_items now account read fresh ids (opened started now fresh account ids read true db)
  unfolding after_set_read clean_batches opened
  batch_items =
      let start = opened started now fresh account ids read true db in
      ap (select (item_of_batch account fresh))
        (undo_items-step_entries now account read fresh ids start)
      ∙ select-append (item_of_batch account fresh) db.undo_items
          (noted_items now account read fresh ids start)
      ∙ rw (select_none (item_of_batch account fresh) db.undo_items unused.no_items)
          (select-noted_items now account read fresh ids start)

  returned :
      (db' : Db) (r : MutationReceipt)
      → set_read started now fresh account ids read true db ≡ ok (db', some r)
      → (after_set_read started now fresh account ids read true db ≡ db') × (r.id ≡ fresh)
  unfolding receipt
  returned db' r h =
      ground (arith, set_read-runs started now fresh account ids read true db (λ _. unused))

  undo_entries :
      ((j : ℤ) → IsKnown (entry_at account j db))
      → (later : ℤ → String) (b : String) (j : ℤ)
      → entry_at b j (
          restore_items later account
            (select
              (item_of_batch account fresh)
              (after_set_read started now fresh account ids read true db).undo_items)
            (after_set_read started now fresh account ids read true db))
        ≡ entry_at b j db
  unfolding after_set_read clean_batches opened
  undo_entries known later b j =
      let start = opened started now fresh account ids read true db in
      let after = after_set_read started now fresh account ids read true db in
      let items = select (item_of_batch account fresh) after.undo_items in
      elim (Bool-cases (account == b)) [
        | inl own ↦ rw (← (eq_iff account b).0 own) (
            entry_at-restore_items later account items after j
            ∙ ap (λ (l : List UndoItemRow). restored l j (entry_at account j after)) batch_items
            ∙ restored-step_entries now account read fresh ids start j (known j))
        | inr other ↦
            entry_at-restore_items_ne later account items after b j other
            ∙ entry_at-step_entries now account read true fresh ids start b j
            ∙ rw other
      ]

  -- `undo` with the identifier of an undoable `set_read` gives every entry of every account back as
  -- it was before the call, if the batch identifier was not in use and the account's entries had the
  -- status "read" or "unread".
  pub undo-set_read :
      ((j : ℤ) → IsKnown (entry_at account j db))
      → (db' : Db) (r : MutationReceipt) (later : ℤ → String)
      → set_read started now fresh account ids read true db ≡ ok (db', some r)
      → (b : String) (j : ℤ) → entry_at b j (undo later account r.id db').0 ≡ entry_at b j db
  unfolding undo discard_undo
  undo-set_read known db' r later h b j =
      let (after, id) = returned db' r h in rw (← after, id) (undo_entries known later b j)
