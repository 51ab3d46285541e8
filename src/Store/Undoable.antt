-- ===== src/Store/Undoable.antt =====
-- The undo items of store.rs refer to stored entries, and no operation removes an entry.
use mathlib.Core.Option
use flux_bar.Prelude.{
  ◌≡◌, ◌≢◌, refl, sym, ◌∙◌, Bool, true, false, ◌&&◌, Option, none, some, List, [], ◌∷◌, String,
  ◌==◌, ℤ, id_eq, id_eq_refl, arith, if◌then◌else◌, Bool-cases, inl, inr,
}
use flux_bar.Sql.{exists_row, select, delete_where}
use flux_bar.Sql.Laws.{exists_row-append_row}
use flux_bar.Sql.Counts.{exists-select}
use flux_bar.Store.Schema.{Db, EntryRow, UndoItemRow, item_of_batch, item_of_entry}
use flux_bar.Store.Mutations.{
  write_read, read_text, with_status, discard_undo, forget_undo, set_starred, with_starred,
}
use flux_bar.Store.Views.{entry_at, same_entry, same_entry_columns, entry_at-update_where}
use flux_bar.Store.ReadState.{item_row, note_item, step_found, step_entry, step_entries}
use flux_bar.Store.MarkViews.{entry_at-write_read}

-- Every entry of the first database is in the second.
pub record Stays (db db' : Db) : Type 0 where
  pub stays : (a : String) (j : ℤ) → entry_at a j db ≢ none → entry_at a j db' ≢ none

-- The entry of every undo item is stored.
pub record IsUndoable (db : Db) : Type 0 where
  pub stored :
      (a : String) (j : ℤ)
      → exists_row (item_of_entry a j) db.undo_items ≡ true
      → entry_at a j db ≢ none

pub map-ne :
    (f : EntryRow → EntryRow) (found : Option EntryRow) → found ≢ none → Option.map f found ≢ none
map-ne f none h = absurd (h refl)
map-ne f (some e) h = λ k. cc k

pub if-ne :
    (hit : Bool) (f : EntryRow → EntryRow) (found : Option EntryRow)
    → found ≢ none
    → (if hit then Option.map f found else found) ≢ none
if-ne true f found h = map-ne f found h
if-ne false f found h = h

pub Stays-write_read :
    (now a : String) (i : ℤ) (read : Bool) (db : Db) → Stays db (write_read now a i read db)
Stays-write_read now a i read db = record {
  stays = λ b j h.
      rw (entry_at-write_read now a i read db b j)
        (if-ne (same_entry a i b j) (with_status (read_text read)) (entry_at b j db) h);
}

pub Stays-set_starred :
    (now a : String) (i : ℤ) (starred : Bool) (db : Db) → Stays db (set_starred now a i starred db)
unfolding set_starred
Stays-set_starred now a i starred db = record {
  stays = λ b j h.
      rw (entry_at-update_where a i b j (with_starred starred) db.entries (λ r. (refl, refl)))
        (if-ne (same_entry a i b j) (with_starred starred) (entry_at b j db) h);
}

pub exists_row-delete_where {ℓ} :
    {R : Type ℓ} (q p : R → Bool) (rs : List R)
    → exists_row q (delete_where p rs) ≡ true
    → exists_row q rs ≡ true
unfolding exists_row delete_where
exists_row-delete_where q p [] h = h
exists_row-delete_where q p (r ∷ rs) h = ground (arith, exists_row-delete_where q p rs)

-- Fewer undo items and no fewer entries.
pub IsUndoable-of :
    (db db' : Db)
    → ((q : UndoItemRow → Bool)
        → exists_row q db'.undo_items ≡ true
        → exists_row q db.undo_items ≡ true)
    → Stays db db'
    → IsUndoable db
    → IsUndoable db'
IsUndoable-of db db' fewer kept u = record {
  stored = λ a j h. kept.stays a j (u.stored a j (fewer (item_of_entry a j) h));
}

pub IsUndoable-write_read :
    (now a : String) (i : ℤ) (read : Bool) (db : Db)
    → IsUndoable db
    → IsUndoable (write_read now a i read db)
unfolding write_read
IsUndoable-write_read now a i read db u =
    IsUndoable-of db (write_read now a i read db) (λ q h. h) (Stays-write_read now a i read db) u

pub IsUndoable-discard_undo :
    (a batch : String) (db : Db) → IsUndoable db → IsUndoable (discard_undo a batch db)
unfolding discard_undo
IsUndoable-discard_undo a batch db u =
    IsUndoable-of db (discard_undo a batch db)
      (λ q. exists_row-delete_where q (item_of_batch a batch) db.undo_items)
      (record { stays = λ b j h. h }) u

item_of_entry-row :
    (a batch : String) (i : ℤ) (e : EntryRow) (b : String) (j : ℤ)
    → item_of_entry b j (item_row a batch i e) ≡ same_entry a i b j
unfolding item_of_entry same_entry
item_of_entry-row a batch i e b j = refl

module _ (now : ℤ → String) (a : String) (read undoable : Bool) (batch : String) where
  -- The entry of the new item was found.
  IsUndoable-note_item :
      (id : ℤ) (e : EntryRow) (db : Db)
      → entry_at a id db ≡ some e
      → IsUndoable db
      → IsUndoable (note_item a undoable batch id e db)
  unfolding note_item
  IsUndoable-note_item id e db found u = elim (Bool-cases undoable) [
    | inr plain ↦ rw plain (record { stored = u.stored })
    | inl noted ↦ rw noted (record {
      stored = λ b j h. elim (Bool-cases (same_entry a id b j)) [
        | inl own ↦
            let (account, entry) = same_entry_columns a id b j own in
            rw (← account, ← entry, found) (λ k. cc k)
        | inr apart ↦ u.stored b j (
            sym (
              exists_row-append_row (item_of_entry b j) (item_row a batch id e) db.undo_items
              ∙ rw (item_of_entry-row a batch id e b j, apart))
            ∙ h)
      ];
    })
  ]

  IsUndoable-step_found :
      (id : ℤ) (found : Option EntryRow) (db : Db)
      → entry_at a id db ≡ found
      → IsUndoable db
      → IsUndoable (step_found now a read undoable batch id found db)
  unfolding step_found
  IsUndoable-step_found id none db found u = u
  IsUndoable-step_found id (some e) db found u = elim (Bool-cases (e.status == read_text read)) [
    | inl done ↦ rw done u
    | inr more ↦ rw more (
        IsUndoable-write_read (now id) a id read (note_item a undoable batch id e db)
          (IsUndoable-note_item id e db found u))
  ]

  IsUndoable-forget_undo :
      (id : ℤ) (db : Db) → IsUndoable db → IsUndoable (forget_undo a id undoable db)
  unfolding forget_undo
  IsUndoable-forget_undo id db u = elim (Bool-cases undoable) [
    | inl noted ↦ rw noted (record { stored = u.stored })
    | inr plain ↦ rw plain (record {
      stored = λ b j h.
          u.stored b j
            (exists_row-delete_where (item_of_entry b j) (item_of_entry a id) db.undo_items h);
    })
  ]

  pub IsUndoable-step_entries :
      (ids : List ℤ) (db : Db)
      → IsUndoable db
      → IsUndoable (step_entries now a read undoable batch ids db)
  unfolding step_entries step_entry
  IsUndoable-step_entries [] db u = u
  IsUndoable-step_entries (id ∷ ids) db u =
      let cleared = forget_undo a id undoable db in
      IsUndoable-step_entries ids
        (step_found now a read undoable batch id (entry_at a id cleared) cleared)
        (IsUndoable-step_found id (entry_at a id cleared) cleared refl
          (IsUndoable-forget_undo id db u))

item_of_selected :
    (a batch : String) (j : ℤ) (r : UndoItemRow)
    → (item_of_batch a batch r && id_eq r.entry_id j) ≡ true
    → item_of_entry a j r ≡ true
unfolding item_of_batch item_of_entry
item_of_selected a batch j r h = ground arith

exists_row-weaker {ℓ} :
    {R : Type ℓ} (p q : R → Bool) (rs : List R)
    → ((r : R) → p r ≡ true → q r ≡ true)
    → exists_row p rs ≡ true
    → exists_row q rs ≡ true
unfolding exists_row
exists_row-weaker p q [] inside h = h
exists_row-weaker p q (r ∷ rs) inside h = ground (arith, inside r, exists_row-weaker p q rs inside)

-- The entries of all items of the list are stored for the account.
abbrev pub AllStored : String → List UndoItemRow → Db → Type 0
AllStored a [] db = Unit
AllStored a (item ∷ items) db = (entry_at a item.entry_id db ≢ none) × AllStored a items db

AllStored-of :
    (a : String) (db : Db) (items : List UndoItemRow)
    → ((j : ℤ)
        → exists_row (λ (r : UndoItemRow). id_eq r.entry_id j) items ≡ true
        → entry_at a j db ≢ none)
    → AllStored a items db
unfolding exists_row
AllStored-of a db [] h = tt
AllStored-of a db (item ∷ items) h = (
  h item.entry_id (rw (id_eq_refl item.entry_id)),
  AllStored-of a db items (λ j k. h j (ground (arith, k))),
)

pub AllStored-batch :
    (a batch : String) (db : Db)
    → IsUndoable db
    → AllStored a (select (item_of_batch a batch) db.undo_items) db
AllStored-batch a batch db u =
    AllStored-of a db (select (item_of_batch a batch) db.undo_items) (λ j h. u.stored a j (
      exists_row-weaker (λ r. item_of_batch a batch r && id_eq r.entry_id j) (item_of_entry a j)
        db.undo_items (item_of_selected a batch j)
        (sym (exists-select (item_of_batch a batch) (λ r. id_eq r.entry_id j) db.undo_items) ∙ h)))

pub AllStored-Stays :
    (a : String) (db db' : Db)
    → Stays db db'
    → (items : List UndoItemRow) → AllStored a items db
    → AllStored a items db'
AllStored-Stays a db db' kept [] h = tt
AllStored-Stays a db db' kept (item ∷ items) (here, rest) =
    (kept.stays a item.entry_id here, AllStored-Stays a db db' kept items rest)
