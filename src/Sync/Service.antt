-- ===== src/Sync/Service.antt =====
-- `SyncService` of rust-core/src/sync.rs: refresh, flush and the local mutations.
--
-- The clock and the locks are arguments: `gate` is whether `sync_gate` was had before the deadline;
-- `flush_locked` and `flush_late` are the looks of the flush, `locked n` and `late n` those that come
-- after it or without it. A method that schedules a flush returns the delay in milliseconds.
use flux_bar.Prelude.{
  ℕ, Bool, not, Option, none, some, List, [], ◌∷◌, ◌++◌, String, ℤ, Result, ok, err, if◌then◌else◌,
}
use flux_bar.Sql.{SqlError}
use flux_bar.Domain.Selection.{Selection}
use flux_bar.Domain.Entry.{Entry}
use flux_bar.Store.Schema.{Db, PendingRow}
use flux_bar.Store.Mutations.{MutationReceipt, set_read, set_starred, undo, discard_undo}
use flux_bar.Store.Apply.{SnapshotData, apply_snapshot}
use flux_bar.Store.Snapshot.{Order, local_snapshot}
use flux_bar.Remote.Error.{RemoteError}
use flux_bar.Remote.Dto.{EntryDto}
use flux_bar.Sync.Flush.{RemoteInbox, flush_pending}
use flux_bar.Sync.Browse.{browse}

abbrev pub automatic_flush_delay : ℕ
automatic_flush_delay = 10000

pub data SyncResult : Type 0 where
  success : SnapshotData → SyncResult
  partial : SnapshotData → String → SyncResult

abbrev pub exceeded {ℓ} : {A : Type ℓ} → Result String A
exceeded = err "context deadline exceeded"

-- `ensure_before(deadline)?` after a value.
abbrev pub in_time {ℓ} : {A : Type ℓ} → Bool → Result String A → Result String A
in_time late (err e) = err e
in_time late (ok a) = if late then exceeded else ok a

-- `map`
abbrev pub map_ok {ℓ κ} : {A : Type ℓ} {B : Type κ} → (A → B) → Result String A → Result String B
map_ok f (err e) = err e
map_ok f (ok a) = ok (f a)

module _ (sql_text : SqlError → String) (account : String) (order : Order) (selection : Selection)
    (retain_ids : List ℤ) (newest_first : Bool) (locked late : ℕ → Bool) where
  -- `map_err(|error| error.to_string())`
  abbrev pub to_text {ℓ} : {A : Type ℓ} → Result SqlError A → Result String A
  to_text (err e) = err (sql_text e)
  to_text (ok a) = ok a

  -- `local_snapshot` of sync.rs, with more ids to retain.
  unfoldable pub snapshot_with : List ℤ → Db → Result String SnapshotData
  snapshot_with ids db =
      to_text (local_snapshot order account selection newest_first (retain_ids ++ ids) db)

  unfoldable pub local_snapshot_until : ℕ → Db → Result String SnapshotData
  local_snapshot_until n db =
      if not (locked n)
      then exceeded
      else in_time (late n)
          (to_text (local_snapshot order account selection newest_first retain_ids db))

  -- What `mark_read` does with the result of the store.
  unfoldable pub marked :
      List ℤ
      → Bool
      → Db
      → Result SqlError (Db × Option MutationReceipt)
      → Db × Option ℕ × Result String (SnapshotData × Option MutationReceipt)
  unfolding snapshot_with
  marked ids automatic db (err e) = (db, none, err (sql_text e))
  marked ids automatic db (ok (db', receipt)) = (
    db',
    some (if automatic then automatic_flush_delay else 0),
    (if late 0
        then exceeded
        else map_ok (λ (snapshot : SnapshotData). (snapshot, receipt))
            (in_time (late 1) (snapshot_with ids db'))),
  )

  unfoldable pub mark_read :
      String
      → (ℤ → String)
      → String
      → List ℤ
      → Bool
      → Bool
      → Db
      → Db × Option ℕ × Result String (SnapshotData × Option MutationReceipt)
  unfolding marked
  mark_read started now fresh ids read automatic db =
      if not (locked 0)
      then (db, none, exceeded)
      else marked ids automatic db (set_read started now fresh account ids read automatic db)

  -- `SyncService::set_starred`
  unfoldable pub star : String → ℤ → Bool → Db → Db × Option ℕ × Result String SnapshotData
  unfolding snapshot_with
  star now entry_id starred db =
      if not (locked 0)
      then (db, none, exceeded)
      else let db' = set_starred now account entry_id starred db in
        (db', some 0, in_time (late 0) (snapshot_with (entry_id ∷ []) db'))

  -- `SyncService::undo`
  unfoldable pub undo_read : (ℤ → String) → String → Db → Db × Option ℕ × Result String SnapshotData
  unfolding snapshot_with
  undo_read now receipt_id db =
      if not (locked 0)
      then (db, none, exceeded)
      else let (db', ids) = undo now account receipt_id db in
        (db', some 0, in_time (late 0) (snapshot_with ids db'))

  -- `SyncService::discard_undo`
  unfoldable pub discard : String → Db → Db × Result String (Unit {0})
  discard receipt_id db =
      if not (locked 0)
      then (db, exceeded)
      else (discard_undo account receipt_id db, in_time (late 0) (ok tt))

  module _ {S : Type 0} (remote : RemoteInbox S) (display : RemoteError → String)
      (quoted lower : String → String) (map_entry : EntryDto → Entry)
      (flush_locked flush_late : ℕ → Bool) (by_time : List PendingRow → List PendingRow) where
    -- The flush that the methods start with.
    unfoldable pub flushed : Db → S → Db × S × Result String (Unit {0})
    unfolding flush_pending
    flushed = flush_pending remote display sql_text quoted account flush_locked flush_late by_time

    unfoldable pub applied : Db → S → Result SqlError Db → Db × S × Result String SyncResult
    unfolding local_snapshot_until
    applied db s (err e) = (db, s, err (sql_text e))
    applied db s (ok db') =
        (db', s, (if late 0 then exceeded else map_ok success (local_snapshot_until 1 db')))

    unfoldable pub on_browsed :
        String → Db → Result String SnapshotData × S → Db × S × Result String SyncResult
    unfolding local_snapshot_until applied
    on_browsed now db (err e, s) =
        (db, s, map_ok (λ (local : SnapshotData). partial local e) (local_snapshot_until 0 db))
    on_browsed now db (ok snapshot, s) =
        if not (locked 0)
        then (db, s, exceeded)
        else applied db s (apply_snapshot now account snapshot db)

    unfoldable pub sync_serialized : String → Db → S → Db × S × Result String SyncResult
    unfolding flushed on_browsed
    sync_serialized now db s =
        let (db', s', _) = flushed db s in
        on_browsed now db' (browse remote display sql_text quoted lower map_entry selection s')

    unfoldable pub sync : Bool → String → Db → S → Db × S × Result String SyncResult
    unfolding sync_serialized
    sync gate now db s = if not gate then (db, s, exceeded) else sync_serialized now db s

    unfoldable pub flush : Bool → Db → S → Db × S × Result String (Unit {0})
    unfolding flushed
    flush gate db s = if not gate then (db, s, exceeded) else flushed db s

    -- The snapshot after a flush that went through.
    unfoldable pub snapshot_after :
        Db × S × Result String (Unit {0}) → Db × S × Result String SnapshotData
    unfolding local_snapshot_until
    snapshot_after (db, s, err e) = (db, s, err e)
    snapshot_after (db, s, ok _) = (db, s, local_snapshot_until 0 db)

    unfoldable pub flush_and_snapshot : Bool → Db → S → Db × S × Result String SnapshotData
    unfolding flushed snapshot_after
    flush_and_snapshot gate db s =
        if not gate then (db, s, exceeded) else snapshot_after (flushed db s)
