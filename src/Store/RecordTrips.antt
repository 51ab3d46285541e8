-- ===== src/Store/RecordTrips.antt =====
-- `upsert_entry` and `entry` of store.rs: what is written is read back.
use mathlib.Core.Option
use flux_bar.Prelude.{
  ◌≡◌, refl, ap, ◌∙◌, false, Option, none, some, String, eq_refl, ℤ, id_eq_refl, if◌then◌else◌,
  Bool-cases, inl, inr,
}
use flux_bar.Sql.{find_row}
use flux_bar.Sql.Laws.{find_row-upsert_self, find_row-upsert_ne, find_row-holds}
use flux_bar.Domain.Entry.{EntryStatus, as_str, parse}
use flux_bar.Store.Schema.{Db, EntryRow, entry_key}
use flux_bar.Store.Records.{
  PersistedEntry, persisted_row, overwrite_row, upsert_entry, map_entry_row, persisted_entry, entry,
}
use flux_bar.Store.Views.{same_entry, same_entry_columns}
use flux_bar.Store.ApplyViews.{entry_key-columns, entry_key-same}

-- `other` stands for neither of the two known statuses.
pub record IsCanonical (status : EntryStatus) : Type 0 where
  pub parsed : parse (as_str status) ≡ status

-- The stored row, read back.
read_back :
    (a : String) (p : PersistedEntry)
    → IsCanonical p.entry.status
    → IsCanonical p.remote_status
    → persisted_entry (persisted_row a p) ≡ p
unfolding persisted_entry persisted_row map_entry_row
read_back a p local remote = rw (local.parsed, remote.parsed)

read_back_over :
    (a : String) (p : PersistedEntry) (r : EntryRow)
    → r.id ≡ p.entry.id
    → persisted_entry (overwrite_row a p r) ≡ persisted_entry (persisted_row a p)
unfolding persisted_entry persisted_row map_entry_row overwrite_row
read_back_over a p r same = rw same

module _ (a : String) (p : PersistedEntry) (db : Db) where
  read_found :
      (found : Option EntryRow)
      → ((r : EntryRow) → found ≡ some r → r.id ≡ p.entry.id)
      → persisted_entry (elim found [ none ↦ persisted_row a p | some r ↦ overwrite_row a p r ])
        ≡ persisted_entry (persisted_row a p)
  read_found none keyed = refl
  read_found (some r) keyed = read_back_over a p r (keyed r refl)

  entry_self :
      IsCanonical p.entry.status
      → IsCanonical p.remote_status
      → entry a p.entry.id (upsert_entry a p db) ≡ some p
  unfolding entry upsert_entry
  entry_self local remote =
      ap (Option.map persisted_entry) (
        find_row-upsert_self (entry_key a p.entry.id) (overwrite_row a p) (persisted_row a p)
          db.entries (λ r. unfold entry_key overwrite_row in refl)
          (unfold entry_key persisted_row in rw (eq_refl a, id_eq_refl p.entry.id)))
      ∙ ap some (
          read_found (find_row (entry_key a p.entry.id) db.entries) (λ r found.
            (entry_key-columns a p.entry.id r
              (find_row-holds (entry_key a p.entry.id) db.entries r found)).1)
          ∙ read_back a p local remote)

  entry_ne :
      (b : String) (j : ℤ)
      → same_entry a p.entry.id b j ≡ false
      → entry b j (upsert_entry a p db) ≡ entry b j db
  unfolding entry upsert_entry
  entry_ne b j apart = ap (Option.map persisted_entry) (
      find_row-upsert_ne (entry_key b j) (entry_key a p.entry.id) (overwrite_row a p)
        (persisted_row a p) db.entries (λ r h. entry_key-same a p.entry.id b j r h ∙ apart)
        (λ r h. unfold entry_key overwrite_row in entry_key-same a p.entry.id b j r h ∙ apart)
        (unfold entry_key persisted_row same_entry in apart))

-- An entry whose statuses are not spelled as other ones is read back as it was written, and every
-- other entry, of this and of other accounts, is as before.
pub entry-upsert_entry :
    (a : String) (p : PersistedEntry) (db : Db) (b : String) (j : ℤ)
    → IsCanonical p.entry.status
    → IsCanonical p.remote_status
    → entry b j (upsert_entry a p db)
      ≡ (if same_entry a p.entry.id b j then some p else entry b j db)
entry-upsert_entry a p db b j local remote = elim (Bool-cases (same_entry a p.entry.id b j)) [
  | inl own ↦ rw own (
      let (account, id) = same_entry_columns a p.entry.id b j own in
      rw (← account, ← id) (entry_self a p db local remote))
  | inr apart ↦ rw apart (entry_ne a p db b j apart)
]
