-- ===== src/Store/MarkViews.antt =====
-- One step of the loop of `set_read`, seen through the entries and the pending mutations.
use mathlib.Core.Option
use flux_bar.Prelude.{
  ◌≡◌, refl, ap, sym, Bool, true, ◌&&◌, Option, none, some, String, ◌==◌, ℤ, eq_iff, if◌then◌else◌,
  Bool-cases, inl, inr,
}
use flux_bar.Store.Schema.{Db, EntryRow}
use flux_bar.Store.Mutations.{write_read, read_text, with_status, forget_undo}
use flux_bar.Store.Views.{
  entry_at, pending_at, same_entry, same_entry_columns, same_pending, bumped, entry_at-update_where,
  pending_at-upsert_pending,
}
use flux_bar.Store.ReadState.{changes, note_item, step_found, step_entry}

module _ (now : String) (a : String) (i : ℤ) (read : Bool) (db : Db) where
  pub entry_at-write_read :
      (b : String) (j : ℤ)
      → entry_at b j (write_read now a i read db) ≡ (
          if same_entry a i b j
          then Option.map (with_status (read_text read)) (entry_at b j db)
          else entry_at b j db)
  unfolding write_read
  entry_at-write_read b j =
      entry_at-update_where a i b j (with_status (read_text read)) db.entries (λ r. (refl, refl))

  pub pending_at-write_read :
      (b : String) (j : ℤ) (g : String)
      → pending_at b j g (write_read now a i read db) ≡ (
          if same_pending a i "read" b j g
          then some (bumped now a i "read" read (pending_at b j g db))
          else pending_at b j g db)
  unfolding write_read
  pending_at-write_read b j g =
      pending_at-upsert_pending now a i "read" read b j g db.pending_mutations

-- Writing the status that an entry has changes nothing.
pub with_status-same :
    (read : Bool) (e : EntryRow)
    → e.status == read_text read ≡ true
    → with_status (read_text read) e ≡ e
with_status-same read e h =
    λ i. record e { status = sym ((eq_iff e.status (read_text read)).0 h) i }

module _ (now : ℤ → String) (a : String) (read undoable : Bool) (batch : String) where
  found_entries :
      (id : ℤ) (found : Option EntryRow) (db : Db) (b : String) (j : ℤ)
      → entry_at a id db ≡ found
      → entry_at b j (step_found now a read undoable batch id found db) ≡ (
          if same_entry a id b j
          then Option.map (with_status (read_text read)) (entry_at b j db)
          else entry_at b j db)
  unfolding step_found note_item
  found_entries id none db b j e = elim (Bool-cases (same_entry a id b j)) [
    | inl same ↦ let (x, y) = same_entry_columns a id b j same in rw (same, ← x, ← y, e)
    | inr apart ↦ rw apart
  ]
  found_entries id (some r) db b j e = elim (Bool-cases (r.status == read_text read)) [
    | inl done ↦ elim (Bool-cases (same_entry a id b j)) [
      | inl same ↦
          let (x, y) = same_entry_columns a id b j same in
          rw (done, same, ← x, ← y, e) (ap some (sym (with_status-same read r done)))
      | inr apart ↦ rw (done, apart)
    ]
    | inr more ↦
        rw more (entry_at-write_read (now id) a id read (note_item a undoable batch id r db) b j)
  ]

  -- A step writes the wanted status at the entry's key, and changes no other entry.
  pub entry_at-step_entry :
      (id : ℤ) (db : Db) (b : String) (j : ℤ)
      → entry_at b j (step_entry now a read undoable batch id db) ≡ (
          if same_entry a id b j
          then Option.map (with_status (read_text read)) (entry_at b j db)
          else entry_at b j db)
  unfolding step_entry forget_undo
  entry_at-step_entry id db b j =
      found_entries id (entry_at a id db) (forget_undo a id undoable db) b j refl

  found_pending :
      (id : ℤ) (found : Option EntryRow) (db : Db) (b : String) (j : ℤ) (g : String)
      → pending_at b j g (step_found now a read undoable batch id found db) ≡ (
          if changes read found && same_pending a id "read" b j g
          then some (bumped (now id) a id "read" read (pending_at b j g db))
          else pending_at b j g db)
  unfolding step_found note_item changes
  found_pending id none db b j g = refl
  found_pending id (some r) db b j g = elim (Bool-cases (r.status == read_text read)) [
    | inl done ↦ rw done
    | inr more ↦
        rw more
          (pending_at-write_read (now id) a id read (note_item a undoable batch id r db) b j g)
  ]

  -- A step queues the change of an entry that changes, and no other.
  pub pending_at-step_entry :
      (id : ℤ) (db : Db) (b : String) (j : ℤ) (g : String)
      → pending_at b j g (step_entry now a read undoable batch id db) ≡ (
          if changes read (entry_at a id db) && same_pending a id "read" b j g
          then some (bumped (now id) a id "read" read (pending_at b j g db))
          else pending_at b j g db)
  unfolding step_entry forget_undo
  pending_at-step_entry id db b j g =
      found_pending id (entry_at a id db) (forget_undo a id undoable db) b j g
