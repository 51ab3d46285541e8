-- ===== src/Sync/ServiceLaws.antt =====
-- What the methods of `SyncService` in rust-core/src/sync.rs return and leave behind.
use mathlib.Core.Path.{subst}
use flux_bar.Prelude.{
  ℕ, ◌≡◌, ◌≢◌, refl, Bool, true, false, Option, none, List, String, ℤ, Result, ok, err, Bool-cases,
  inl, inr, ◌⊎◌,
}
use flux_bar.Sql.{SqlError}
use flux_bar.Domain.Selection.{Selection}
use flux_bar.Domain.Entry.{Entry}
use flux_bar.Store.Schema.{Db, PendingRow}
use flux_bar.Store.Mutations.{MutationReceipt}
use flux_bar.Store.Apply.{SnapshotData, apply_snapshot}
use flux_bar.Store.Snapshot.{Order, local_snapshot}
use flux_bar.Remote.Error.{RemoteError}
use flux_bar.Remote.Dto.{EntryDto}
use flux_bar.Sync.Flush.{RemoteInbox}
use flux_bar.Sync.Service.{
  SyncResult, success, partial, in_time, map_ok, to_text, local_snapshot_until, marked, mark_read,
  star, undo_read, applied, on_browsed, sync_serialized, sync,
}

in_time-ok :
    {A : Type 0} (late : Bool) (r : Result String A) (a : A) → in_time late r ≡ ok a → r ≡ ok a
in_time-ok true (err e) a h = cc h
in_time-ok false (err e) a h = cc h
in_time-ok true (ok x) a h = cc h
in_time-ok false (ok x) a h = h

map_ok-ok :
    {A B : Type 0} (f : A → B) (r : Result String A) (b : B)
    → map_ok f r ≡ ok b
    → (a : A) × (r ≡ ok a) × (f a ≡ b)
map_ok-ok f (err e) b h = cc h
map_ok-ok f (ok a) b h = (a, refl, cc h)

module _ (sql_text : SqlError → String) (account : String) (order : Order) (selection : Selection)
    (retain_ids : List ℤ) (newest_first : Bool) (locked late : ℕ → Bool) where
  to_text-ok :
      {A : Type 0} (r : Result SqlError A) (a : A)
      → to_text sql_text account order selection retain_ids newest_first locked late r ≡ ok a
      → r ≡ ok a
  to_text-ok (err e) a h = cc h
  to_text-ok (ok x) a h = cc h

  local_snapshot_until-ok :
      (n : ℕ) (db : Db) (local : SnapshotData)
      → local_snapshot_until sql_text account order selection retain_ids newest_first locked late n
          db
        ≡ ok local
      → local_snapshot order account selection newest_first retain_ids db ≡ ok local
  unfolding local_snapshot_until
  local_snapshot_until-ok n db local h = elim (Bool-cases (locked n)) [
    | inl had ↦
        to_text-ok (local_snapshot order account selection newest_first retain_ids db) local
          (in_time-ok (late n) _ local (rw had at h))
    | inr not_had ↦ absurd (cc (rw not_had at h))
  ]

  -- A flush is scheduled, or the database is the same.
  abbrev pub IsScheduled {ℓ} : {R : Type ℓ} → Db → Db × Option ℕ × R → Type 0
  IsScheduled db result = (result.1 ≢ none) ⊎ (result.0 ≡ db)

  marked-IsScheduled :
      (ids : List ℤ) (automatic : Bool) (db : Db)
      (ran : Result SqlError (Db × Option MutationReceipt))
      → IsScheduled db (
          marked sql_text account order selection retain_ids newest_first locked late ids automatic
            db ran)
  unfolding marked
  marked-IsScheduled ids automatic db (err e) = inr refl
  marked-IsScheduled ids automatic db (ok (db', r)) = inl (λ h. cc h)

  mark_read-IsScheduled :
      (started : String) (now : ℤ → String) (fresh : String) (ids : List ℤ) (read automatic : Bool)
      (db : Db)
      → IsScheduled db (
          mark_read sql_text account order selection retain_ids newest_first locked late started now
            fresh ids read automatic db)
  unfolding mark_read
  mark_read-IsScheduled started now fresh ids read automatic db = elim (Bool-cases (locked 0)) [
    | inr not_had ↦ rw not_had (inr refl)
    | inl had ↦ rw had (marked-IsScheduled ids automatic db _)
  ]

  star-IsScheduled :
      (now : String) (entry_id : ℤ) (starred : Bool) (db : Db)
      → IsScheduled db (
          star sql_text account order selection retain_ids newest_first locked late now entry_id
            starred db)
  unfolding star
  star-IsScheduled now entry_id starred db = elim (Bool-cases (locked 0)) [
    | inr not_had ↦ rw not_had (inr refl)
    | inl had ↦ rw had (inl (λ h. cc h))
  ]

  undo_read-IsScheduled :
      (now : ℤ → String) (receipt_id : String) (db : Db)
      → IsScheduled db (
          undo_read sql_text account order selection retain_ids newest_first locked late now
            receipt_id db)
  unfolding undo_read
  undo_read-IsScheduled now receipt_id db = elim (Bool-cases (locked 0)) [
    | inr not_had ↦ rw not_had (inr refl)
    | inl had ↦ rw had (inl (λ h. cc h))
  ]

  -- Each of `mark_read`, `set_starred` and `undo`, at any clock and also when it returns an error,
  -- either schedules a flush or leaves the database as it was.
  pub mutations-IsScheduled :
      (started : String) (now : ℤ → String) (fresh : String) (ids : List ℤ) (read automatic : Bool)
      (entry_id : ℤ) (starred : Bool) (receipt_id : String) (db : Db)
      → IsScheduled db (
          mark_read sql_text account order selection retain_ids newest_first locked late started now
            fresh ids read automatic db)
        × IsScheduled db (
            star sql_text account order selection retain_ids newest_first locked late started
              entry_id starred db)
        × IsScheduled db (
            undo_read sql_text account order selection retain_ids newest_first locked late now
              receipt_id db)
  mutations-IsScheduled started now fresh ids read automatic entry_id starred receipt_id db = (
    mark_read-IsScheduled started now fresh ids read automatic db,
    star-IsScheduled started entry_id starred db,
    undo_read-IsScheduled now receipt_id db,
  )

  module _ {S : Type 0} (remote : RemoteInbox S) (display : RemoteError → String)
      (quoted lower : String → String) (map_entry : EntryDto → Entry)
      (flush_locked flush_late : ℕ → Bool) (by_time : List PendingRow → List PendingRow) where
    -- A result that a refresh shows is what the store has.
    abbrev pub Shows : Db → SyncResult → Type 0
    Shows db (success local) =
        local_snapshot order account selection newest_first retain_ids db ≡ ok local
    Shows db (partial local _) =
        local_snapshot order account selection newest_first retain_ids db ≡ ok local

    applied-Shows :
        (db : Db) (s : S) (ran : Result SqlError Db) (result : SyncResult)
        → let after =
            applied sql_text account order selection retain_ids newest_first locked late remote
              display quoted lower map_entry flush_locked flush_late by_time db s ran in
          after.2 ≡ ok result → Shows after.0 result
    unfolding applied
    applied-Shows db s (err e) result h = absurd (cc h)
    applied-Shows db s (ok db') result h = elim (Bool-cases (late 0)) [
      | inl over ↦ absurd (cc (rw over at h))
      | inr timely ↦
          let (local, found, same) = map_ok-ok success _ result (rw timely at h) in
          subst (Shows db') same (local_snapshot_until-ok 1 db' local found)
    ]

    on_browsed-Shows :
        (now : String) (db : Db) (browsed : Result String SnapshotData × S) (result : SyncResult)
        → let after =
            on_browsed sql_text account order selection retain_ids newest_first locked late remote
              display quoted lower map_entry flush_locked flush_late by_time now db browsed in
          after.2 ≡ ok result → Shows after.0 result
    unfolding on_browsed
    on_browsed-Shows now db (err e, s) result h =
        let (local, found, same) = map_ok-ok (λ (x : SnapshotData). partial x e) _ result h in
        subst (Shows db) same (local_snapshot_until-ok 0 db local found)
    on_browsed-Shows now db (ok snapshot, s) result h = elim (Bool-cases (locked 0)) [
      | inr not_had ↦ absurd (cc (rw not_had at h))
      | inl had ↦
          rw had (applied-Shows db s (apply_snapshot now account snapshot db) result (rw had at h))
    ]

    sync-Shows :
        (gate : Bool) (now : String) (db : Db) (s : S) (result : SyncResult)
        → let after =
            sync sql_text account order selection retain_ids newest_first locked late remote display
              quoted lower map_entry flush_locked flush_late by_time gate now db s in
          after.2 ≡ ok result → Shows after.0 result
    unfolding sync sync_serialized
    sync-Shows gate now db s result h = elim (Bool-cases gate) [
      | inr shut ↦ absurd (cc (rw shut at h))
      | inl had ↦ rw had (on_browsed-Shows now _ _ result (rw had at h))
    ]

    -- What a refresh shows, complete or partial with an error, is what a local snapshot of the
    -- database that it leaves has.
    pub sync-shows :
        (gate : Bool) (now : String) (db : Db) (s : S) (local : SnapshotData) (e : String)
        → let after =
            sync sql_text account order selection retain_ids newest_first locked late remote display
              quoted lower map_entry flush_locked flush_late by_time gate now db s in
          (after.2 ≡ ok (success local)) ⊎ (after.2 ≡ ok (partial local e))
          → local_snapshot order account selection newest_first retain_ids after.0 ≡ ok local
    sync-shows gate now db s local e (inl h) = sync-Shows gate now db s (success local) h
    sync-shows gate now db s local e (inr h) = sync-Shows gate now db s (partial local e) h
