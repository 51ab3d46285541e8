-- ===== src/Store/Acknowledged.antt =====
-- `acknowledge` of store.rs seen through the entries and the pending mutations.
use mathlib.Core.Option
use flux_bar.Prelude.{
  ◌≡◌, ◌≢◌, refl, ◌∙◌, true, Option, none, some, String, ◌==◌, ℤ, arith, nat_eq, if◌then◌else◌,
  Bool-cases, Option-cases, inl, inr, ok,
}
use flux_bar.Sql.{find_row, delete_where}
use flux_bar.Sql.Laws.{find_row-holds}
use flux_bar.Sql.Keys.{find_row-delete_key}
use flux_bar.Store.Schema.{Db, EntryRow, PendingRow, pending_key}
use flux_bar.Store.Mutations.{read_text}
use flux_bar.Store.Acknowledge.{
  PendingMutation, acknowledge, acknowledge_field, forget_sent, is_sent, with_remote_status,
  with_remote_starred,
}
use flux_bar.Store.Views.{
  entry_at, pending_at, same_entry, same_pending, pending_key-same, same_pending_symm,
  entry_at-update_where,
}
use flux_bar.Store.Keyed.{IsKeyed}

-- The row that is left of a pending row after one revision of it was acknowledged.
unfoldable pub unsent : PendingMutation → Option PendingRow → Option PendingRow
unsent m none = none
unsent m (some p) = if nat_eq p.revision m.revision then none else some p

unsent_found :
    (a : String) (m : PendingMutation) (b : String) (j : ℤ) (g : String) (found : Option PendingRow)
    → ((p : PendingRow) → found ≡ some p → pending_key b j g p ≡ true)
    → ◌≡◌ {A = Option PendingRow}
        (elim found [ none ↦ none | some p ↦ if is_sent a m p then none else some p ])
        (if same_pending a m.entry_id m.field b j g then unsent m found else found)
unfolding is_sent unsent
unsent_found a m b j g none keyed = ground arith
unsent_found a m b j g (some p) keyed =
    rw (pending_key-of p (keyed p refl))
      (elim (Bool-cases (same_pending a m.entry_id m.field b j g)) [
        | inl same ↦ rw same
        | inr apart ↦ rw apart
      ])
  where
    pending_key-of :
        (p : PendingRow)
        → pending_key b j g p ≡ true
        → pending_key a m.entry_id m.field p ≡ same_pending a m.entry_id m.field b j g
    pending_key-of p h =
        pending_key-same b j g a m.entry_id m.field p h
        ∙ same_pending_symm b j g a m.entry_id m.field

-- Exactly the acknowledged revision of the acknowledged row is deleted.
pub pending_at-is_sent :
    (a : String) (m : PendingMutation) (db : Db) (b : String) (j : ℤ) (g : String)
    → IsKeyed db
    → find_row (pending_key b j g) (delete_where (is_sent a m) db.pending_mutations) ≡ (
        if same_pending a m.entry_id m.field b j g
        then unsent m (pending_at b j g db)
        else pending_at b j g db)
pending_at-is_sent a m db b j g k =
    find_row-delete_key (pending_key b j g) (is_sent a m) db.pending_mutations (k.pending b j g)
    ∙ unsent_found a m b j g (pending_at b j g db)
        (λ p h. find_row-holds (pending_key b j g) db.pending_mutations p h)

-- What `acknowledge` writes to the entry.
unfoldable pub acknowledged : PendingMutation → EntryRow → EntryRow
acknowledged m =
    if m.field == "read"
    then with_remote_status (read_text m.desired)
    else with_remote_starred m.desired

field_entries :
    (a : String) (m : PendingMutation) (e : EntryRow) (db : Db) (b : String) (j : ℤ)
    → entry_at b j (acknowledge_field a m e db) ≡ (
        if same_entry a m.entry_id b j
        then Option.map (acknowledged m) (entry_at b j db)
        else entry_at b j db)
unfolding acknowledge_field acknowledged
field_entries a m e db b j = elim (Bool-cases (m.field == "read")) [
  | inl read ↦
      rw (read, acknowledged)
        (entry_at-update_where a m.entry_id b j (with_remote_status (read_text m.desired))
          db.entries (λ r. (refl, refl)))
  | inr star ↦
      rw (star, acknowledged)
        (entry_at-update_where a m.entry_id b j (with_remote_starred m.desired) db.entries
          (λ r. (refl, refl)))
]

field_pending :
    (a : String) (m : PendingMutation) (e : EntryRow) (db : Db)
    → (acknowledge_field a m e db).pending_mutations ≡ db.pending_mutations
unfolding acknowledge_field
field_pending a m e db = elim (Bool-cases (m.field == "read")) [
  | inl read ↦ rw read
  | inr star ↦ rw star
]

-- `acknowledge` of a stored entry succeeds. It writes the sent value to the remote column of that
-- entry, changes no other entry's columns, and deletes the pending row of the mutation exactly if it
-- still has the revision that was sent.
pub acknowledge-effect :
    (a : String) (m : PendingMutation) (db : Db)
    → IsKeyed db
    → entry_at a m.entry_id db ≢ none
    → (db' : Db) × (acknowledge a m db ≡ ok db')
      × ((b : String) (j : ℤ)
          → entry_at b j db' ≡ (
              if same_entry a m.entry_id b j
              then Option.map (acknowledged m) (entry_at b j db)
              else entry_at b j db))
      × ((b : String) (j : ℤ) (g : String)
          → pending_at b j g db' ≡ (
              if same_pending a m.entry_id m.field b j g
              then unsent m (pending_at b j g db)
              else pending_at b j g db))
unfolding acknowledge forget_sent
acknowledge-effect a m db k stored = elim (Option-cases (entry_at a m.entry_id db)) [
  | inl missing ↦ absurd (stored missing)
  | inr (e, found) ↦ (
    forget_sent a m (acknowledge_field a m e db),
    rw found,
    field_entries a m e db,
    λ b j g. rw (field_pending a m e db) (pending_at-is_sent a m db b j g k),
  )
]
