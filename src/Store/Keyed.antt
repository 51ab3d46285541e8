-- ===== src/Store/Keyed.antt =====
-- The PRIMARY KEYs of entries and pending_mutations, kept by the statements of the mutations.
use flux_bar.Prelude.{
  ◌≤◌, ◌≡◌, refl, Bool, true, Option, none, some, List, [], ◌∷◌, String, ◌==◌, eq_iff, ℤ, id_eq_iff,
  arith, Bool-cases, inl, inr,
}
use flux_bar.Sql.{count_rows}
use flux_bar.Sql.Keys.{count_rows-update_where, count_rows-upsert}
use flux_bar.Store.Schema.{Db, EntryRow, PendingRow, entry_key, pending_key}
use flux_bar.Store.Mutations.{
  write_read, set_starred, upsert_pending, new_pending, bump, with_status, with_starred, read_text,
  forget_undo,
}
use flux_bar.Store.ReadState.{step_found, step_entry, step_entries, note_item}
use flux_bar.Store.Views.{entry_at}

-- No two rows of a table have one primary key.
pub record IsKeyed (db : Db) : Type 0 where
  pub entries : (a : String) (j : ℤ) → count_rows (entry_key a j) db.entries ≤ 1
  pub pending :
      (a : String) (j : ℤ) (g : String) → count_rows (pending_key a j g) db.pending_mutations ≤ 1

pending_key-covers :
    (now a : String) (i : ℤ) (f : String) (desired : Bool) (b : String) (j : ℤ) (g : String)
    → pending_key b j g (new_pending now a i f desired) ≡ true
    → (r : PendingRow) → pending_key b j g r ≡ true
    → pending_key a i f r ≡ true
unfolding pending_key
pending_key-covers now a i f desired b j g own r h = ground (
  arith,
  eq_iff a b,
  id_eq_iff i j,
  eq_iff f g,
  eq_iff r.account_id b,
  id_eq_iff r.entry_id j,
  eq_iff r.field g,
  eq_iff r.account_id a,
  id_eq_iff r.entry_id i,
  eq_iff r.field f,
)

pub count-upsert_pending :
    (now a : String) (i : ℤ) (f : String) (desired : Bool) (b : String) (j : ℤ) (g : String)
    (rs : List PendingRow)
    → count_rows (pending_key b j g) rs ≤ 1
    → count_rows (pending_key b j g) (upsert_pending now a i f desired rs) ≤ 1
unfolding upsert_pending
count-upsert_pending now a i f desired b j g rs h =
    count_rows-upsert (pending_key b j g) (pending_key a i f) (bump now desired)
      (new_pending now a i f desired) rs (λ r. unfold pending_key in refl)
      (pending_key-covers now a i f desired b j g) h

pub write_read-IsKeyed :
    (now a : String) (i : ℤ) (read : Bool) (db : Db)
    → IsKeyed db
    → IsKeyed (write_read now a i read db)
unfolding write_read
write_read-IsKeyed now a i read db k = record {
  entries = λ b j.
      rw
        (count_rows-update_where (entry_key b j) (entry_key a i) (with_status (read_text read))
          db.entries (λ r. unfold entry_key in refl))
        (k.entries b j);
  pending = λ b j g.
      count-upsert_pending now a i "read" read b j g db.pending_mutations (k.pending b j g);
}

pub set_starred-IsKeyed :
    (now a : String) (i : ℤ) (starred : Bool) (db : Db)
    → IsKeyed db
    → IsKeyed (set_starred now a i starred db)
unfolding set_starred
set_starred-IsKeyed now a i starred db k = record {
  entries = λ b j.
      rw
        (count_rows-update_where (entry_key b j) (entry_key a i) (with_starred starred) db.entries
          (λ r. unfold entry_key in refl))
        (k.entries b j);
  pending = λ b j g.
      count-upsert_pending now a i "starred" starred b j g db.pending_mutations (k.pending b j g);
}

module _ (now : ℤ → String) (a : String) (read undoable : Bool) (batch : String) where
  IsKeyed-step_found :
      (id : ℤ) (found : Option EntryRow) (db : Db)
      → IsKeyed db
      → IsKeyed (step_found now a read undoable batch id found db)
  unfolding step_found note_item
  IsKeyed-step_found id none db k = k
  IsKeyed-step_found id (some e) db k = elim (Bool-cases (e.status == read_text read)) [
    | inl done ↦ rw done k
    | inr more ↦ rw more (
        write_read-IsKeyed (now id) a id read (note_item a undoable batch id e db)
          (record { entries = k.entries; pending = k.pending }))
  ]

  pub IsKeyed-step_entries :
      (ids : List ℤ) (db : Db)
      → IsKeyed db
      → IsKeyed (step_entries now a read undoable batch ids db)
  unfolding step_entries step_entry forget_undo
  IsKeyed-step_entries [] db k = k
  IsKeyed-step_entries (id ∷ ids) db k =
      IsKeyed-step_entries ids (step_entry now a read undoable batch id db) (
        IsKeyed-step_found id (entry_at a id db) (forget_undo a id undoable db)
          (record { entries = k.entries; pending = k.pending }))
