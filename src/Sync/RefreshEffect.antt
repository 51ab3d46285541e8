-- ===== src/Sync/RefreshEffect.antt =====
-- What a refresh of rust-core/src/sync.rs makes of the database: a flush, and then a snapshot.
use flux_bar.Prelude.{
  ℕ, ◌≡◌, refl, Bool, true, false, List, String, ℤ, Result, ok, err, Bool-cases, inl, inr, ◌⊎◌,
}
use flux_bar.Sql.{SqlError}
use flux_bar.Domain.Selection.{Selection}
use flux_bar.Domain.Entry.{Entry}
use flux_bar.Store.Schema.{Db, PendingRow}
use flux_bar.Store.Acknowledge.{PendingMutation, pending}
use flux_bar.Store.Apply.{SnapshotData, apply_snapshot}
use flux_bar.Store.Snapshot.{Order}
use flux_bar.Remote.Error.{RemoteError}
use flux_bar.Remote.Dto.{EntryDto}
use flux_bar.Sync.Flush.{RemoteInbox, flush_pending}
use flux_bar.Sync.Browse.{browse}
use flux_bar.Sync.Service.{
  SyncResult, success, partial, flushed, applied, on_browsed, sync_serialized, sync,
  local_snapshot_until, map_ok,
}
use flux_bar.Sync.FlushEffect.{Delivered, flush_pending-delivers}

abbrev pub is_success : Result String SyncResult → Bool
is_success (err _) = false
is_success (ok (partial _ _)) = false
is_success (ok (success _)) = true

-- The database that is left, with the result, after the snapshot of the server was tried on `mid`.
abbrev pub IsRefreshed :
    String → String → Db → Result String SnapshotData → Db → Result String SyncResult → Type 0
IsRefreshed now account mid answer db' r =
    ((db' ≡ mid) × (is_success r ≡ false))
    ⊎ ((snapshot : SnapshotData) × (answer ≡ ok snapshot)
        × (apply_snapshot now account snapshot mid ≡ ok db'))

partial-fails :
    (e : String) (local : Result String SnapshotData)
    → is_success (map_ok (λ (snapshot : SnapshotData). partial snapshot e) local) ≡ false
partial-fails e (err _) = refl
partial-fails e (ok _) = refl

module _ (sql_text : SqlError → String) (account : String) (order : Order) (selection : Selection)
    (retain_ids : List ℤ) (newest_first : Bool) (locked late : ℕ → Bool) {S : Type 0}
    (remote : RemoteInbox S) (display : RemoteError → String) (quoted lower : String → String)
    (map_entry : EntryDto → Entry) (flush_locked flush_late : ℕ → Bool)
    (by_time : List PendingRow → List PendingRow) where
  IsRefreshed-applied :
      (now : String) (snapshot : SnapshotData) (mid : Db) (s : S) (ran : Result SqlError Db)
      → apply_snapshot now account snapshot mid ≡ ran
      → let after =
          applied sql_text account order selection retain_ids newest_first locked late remote
            display quoted lower map_entry flush_locked flush_late by_time mid s ran in
        IsRefreshed now account mid (ok snapshot) after.0 after.2
  unfolding applied
  IsRefreshed-applied now snapshot mid s (err e) ran = inl (refl, refl)
  IsRefreshed-applied now snapshot mid s (ok db') ran = inr (snapshot, refl, ran)

  IsRefreshed-on_browsed :
      (now : String) (mid : Db) (browsed : Result String SnapshotData × S)
      → let after =
          on_browsed sql_text account order selection retain_ids newest_first locked late remote
            display quoted lower map_entry flush_locked flush_late by_time now mid browsed in
        IsRefreshed now account mid browsed.0 after.0 after.2
  unfolding on_browsed
  IsRefreshed-on_browsed now mid (err e, s) = inl (
    refl,
    partial-fails e (
        local_snapshot_until sql_text account order selection retain_ids newest_first locked late 0
          mid),
  )
  IsRefreshed-on_browsed now mid (ok snapshot, s) = elim (Bool-cases (locked 0)) [
    | inr not_had ↦ rw not_had (inl (refl, refl))
    | inl had ↦
        rw had
          (IsRefreshed-applied now snapshot mid s (apply_snapshot now account snapshot mid) refl)
  ]

  -- A refresh that had the gate, at any server and clock: its flush sends and acknowledges queued
  -- mutations one after the other from the first on, and then the database of the flush, and no other,
  -- either gets the snapshot that the server gave after the flush, or stays as it is; a success is
  -- returned only for the first.
  pub sync-refreshes :
      (now : String) (db : Db) (s : S)
      → let mid =
          flush_pending remote display sql_text quoted account flush_locked flush_late by_time db
            s in
        let after =
          sync sql_text account order selection retain_ids newest_first locked late remote display
            quoted lower map_entry flush_locked flush_late by_time true now db s in
        ((rest : List PendingMutation) × Delivered remote display sql_text quoted account
            (pending by_time account db)
            db
            s
            rest
            mid.0)
        × IsRefreshed now account mid.0
            (browse remote display sql_text quoted lower map_entry selection mid.1).0
            after.0
            after.2
  unfolding sync sync_serialized flushed
  sync-refreshes now db s =
      let mid =
        flush_pending remote display sql_text quoted account flush_locked flush_late by_time db s in
      let (rest, run, _) =
        flush_pending-delivers remote display sql_text quoted account flush_locked flush_late
          by_time db s in
      (
        (rest, run),
        IsRefreshed-on_browsed now mid.0
            (browse remote display sql_text quoted lower map_entry selection mid.1),
      )
