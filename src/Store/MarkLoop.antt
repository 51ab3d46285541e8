-- ===== src/Store/MarkLoop.antt =====
-- The loop of `set_read` runs to its end: no insertion of an undo item fails, since an entry that
-- was changed once has the wanted status from then on.
use mathlib.Core.Option
use native.Mathlib.Nat.{add-zero}
use flux_bar.Prelude.{
  ℕ, ◌+◌, pos, wrap_i32, add_i32, ◌+ℤ◌, ◌≡◌, refl, sym, ap, ◌∙◌, Bool, true, false, ◌&&◌, ◌||◌,
  Option, none, some, List, [], ◌∷◌, String, ◌==◌, eq_refl, ℤ, id_eq, ok, arith, if◌then◌else◌,
  Bool-cases, inl, inr,
}
use flux_bar.Sql.{exists_row, insert_row}
use flux_bar.Sql.Laws.{exists_row-append_row}
use flux_bar.Store.Schema.{Db, EntryRow, item_key}
use flux_bar.Store.Mutations.{
  insert_undo_item, mark_found, mark_entries, write_read, read_text, with_status, forget_undo,
}
use flux_bar.Store.Views.{entry_at, same_entry-account}
use flux_bar.Store.ReadState.{
  changes, item_row, note_item, step_found, step_entry, step_entries, changed_count,
}
use flux_bar.Store.MarkViews.{entry_at-step_entry}

-- The `i32` counter after one more step, however often it wrapped.
add_i32-wrap_i32 : (n : ℕ) → add_i32 (wrap_i32 (pos n)) (pos 1) ≡ wrap_i32 (pos (n + 1))
unfolding add_i32 wrap_i32 ◌+ℤ◌
add_i32-wrap_i32 n = ground arith

-- An entry with the wanted status does not change again.
pub changes-with_status :
    (read : Bool) (found : Option EntryRow)
    → changes read (Option.map (with_status (read_text read)) found) ≡ false
unfolding changes
changes-with_status read none = refl
changes-with_status read (some e) = rw (eq_refl (read_text read))

module _ (now : ℤ → String) (account : String) (read undoable : Bool) (batch : String) where
  -- No undo item of the batch stands in the way of an insertion.
  pub record IsClear (db : Db) : Type 0 where
    pub clear :
        (j : ℤ)
        → changes read (entry_at account j db) ≡ true
        → undoable ≡ true
        → exists_row (item_key account batch j) db.undo_items ≡ false

  mark_found-step :
      (id : ℤ) (found : Option EntryRow) (db : Db) (n : ℤ)
      → (changes read found ≡ true
          → undoable ≡ true
          → exists_row (item_key account batch id) db.undo_items ≡ false)
      → mark_found now account read undoable batch id found db n
        ≡ ok (
          step_found now account read undoable batch id found db,
          (if changes read found then add_i32 n (pos 1) else n),
        )
  unfolding mark_found step_found changes insert_undo_item insert_row note_item
  mark_found-step id none db n clear = refl
  mark_found-step id (some e) db n clear = elim (Bool-cases (e.status == read_text read)) [
    | inl done ↦ rw done
    | inr more ↦ elim (Bool-cases undoable) [
      | inl noted ↦ rw (more, noted, clear (rw more) noted)
      | inr plain ↦ rw (more, plain)
    ]
  ]

  items-step_found :
      (id : ℤ) (found : Option EntryRow) (db : Db) (j : ℤ)
      → undoable ≡ true
      → exists_row
          (item_key account batch j)
          (step_found now account read undoable batch id found db).undo_items
        ≡ (changes read found && id_eq id j) || exists_row (item_key account batch j) db.undo_items
  unfolding step_found changes note_item write_read item_key
  items-step_found id none db j noted = refl
  items-step_found id (some e) db j noted = elim (Bool-cases (e.status == read_text read)) [
    | inl done ↦ rw done
    | inr more ↦
        rw (more, noted)
          (exists_row-append_row (item_key account batch j) (item_row account batch id e)
              db.undo_items
            ∙ rw (eq_refl account, eq_refl batch))
  ]

  items-step_entry :
      (id : ℤ) (db : Db) (j : ℤ)
      → undoable ≡ true
      → exists_row
          (item_key account batch j)
          (step_entry now account read undoable batch id db).undo_items
        ≡ (changes read (entry_at account id db) && id_eq id j)
          || exists_row (item_key account batch j) db.undo_items
  unfolding step_entry forget_undo
  items-step_entry id db j noted =
      items-step_found id (entry_at account id db) (forget_undo account id undoable db) j noted
      ∙ rw noted

  IsClear-step_entry :
      (id : ℤ) (db : Db) → IsClear db → IsClear (step_entry now account read undoable batch id db)
  IsClear-step_entry id db c = record {
    clear = λ j changed noted.
        let after = entry_at-step_entry now account read undoable batch id db account j in
        let self = same_entry-account account id j in
        elim (Bool-cases (id_eq id j)) [
          | inl same ↦ absurd (
              cc (
                sym changed ∙ ap (changes read) (rw (self, same) at after),
                changes-with_status read (entry_at account j db),
              ))
          | inr apart ↦
              items-step_entry id db j noted
              ∙ ground (
                arith,
                c.clear j (sym (ap (changes read) (rw (self, apart) at after)) ∙ changed) noted,
                apart,
              )
        ];
  }

  mark_step :
      (id : ℤ) (db : Db) (n : ℤ)
      → IsClear db
      → mark_found now account read undoable batch id
          (entry_at account id db)
          (forget_undo account id undoable db)
          n
        ≡ ok (
          step_entry now account read undoable batch id db,
          (if changes read (entry_at account id db) then add_i32 n (pos 1) else n),
        )
  unfolding step_entry forget_undo
  mark_step id db n c =
      mark_found-step id (entry_at account id db) (forget_undo account id undoable db) n
        (λ changed noted. rw noted (c.clear id changed noted))

  -- The loop returns the database of the steps and counts the entries that changed.
  pub mark_entries-step :
      (ids : List ℤ) (db : Db) (n : ℕ)
      → IsClear db
      → mark_entries now account read undoable batch ids db (wrap_i32 (pos n))
        ≡ ok (
          step_entries now account read undoable batch ids db,
          wrap_i32 (pos (n + changed_count now account read undoable batch ids db)),
        )
  unfolding mark_entries step_entries changed_count forget_undo
  mark_entries-step [] db n c = rw (add-zero n) refl
  mark_entries-step (id ∷ ids) db n c =
      let next = step_entry now account read undoable batch id db in
      let kept = IsClear-step_entry id db c in
      rw (mark_step id db (wrap_i32 (pos n)) c)
        (elim (Bool-cases (changes read (entry_at account id db))) [
          | inl change ↦
              rw (change, add_i32-wrap_i32 n)
                (mark_entries-step ids next (n + 1) kept
                  ∙ ap
                      (λ k.
                        ok
                          (step_entries now account read undoable batch ids next, wrap_i32 (pos k)))
                      (omega arith))
          | inr same ↦ rw same (mark_entries-step ids next n kept)
        ])
