-- ===== src/Sync/Interleaving.antt =====
-- rust-core/src/sync.rs: one flush for each account, which `sync_gate` serializes, and between its
-- transactions any of the operations of store.rs that the user and the synchronisation start.
--
-- `flights a` holds the mutations that the flush of account `a` has read and not yet acknowledged. A
-- send changes nothing of the store, so it is no step. A flush may stop after any step: on an error
-- of the server, or at the deadline. An operation that fails changes nothing, so it is no step. The
-- star of an entry that is not stored is left out, and so is a batch identifier that is in use.
use flux_bar.Prelude.{
  ◌≡◌, ◌≢◌, Bool, true, Option, none, List, [], ◌∷◌, String, ◌==◌, ℤ, ok, if◌then◌else◌,
}
use flux_bar.Store.Schema.{Db, PendingRow, empty_db}
use flux_bar.Store.Mutations.{MutationReceipt, set_read, set_starred, undo, discard_undo}
use flux_bar.Store.Acknowledge.{PendingMutation, pending, acknowledge}
use flux_bar.Store.Apply.{SnapshotData, apply_snapshot}
use flux_bar.Store.Views.{entry_at}
use flux_bar.Store.SetRead.{IsFresh}
use flux_bar.Sync.Started.{IsOrdering}

pub record World : Type 0 where
  pub db : Db
  pub flights : String → List PendingMutation

-- The flush of account `a` has the mutations `ms` left.
unfoldable pub with_flight : String → List PendingMutation → World → World
with_flight a ms w = record w { flights = λ b. if a == b then ms else w.flights b }

pub data Step : World → World → Type 0 where
  marked_read :
      (w : World) (started : String) (now : ℤ → String) (fresh a : String) (ids : List ℤ)
      (read undoable : Bool) (db' : Db) (r : Option MutationReceipt)
      → (undoable ≡ true → IsFresh a fresh w.db)
      → set_read started now fresh a ids read undoable w.db ≡ ok (db', r)
      → Step w (record w { db = db' })
  starred_one :
      (w : World) (now a : String) (i : ℤ) (starred : Bool)
      → entry_at a i w.db ≢ none
      → Step w (record w { db = set_starred now a i starred w.db })
  undone :
      (w : World) (now : ℤ → String) (a batch : String)
      → Step w (record w { db = (undo now a batch w.db).0 })
  discarded : (w : World) (a batch : String) → Step w (record w { db = discard_undo a batch w.db })
  synchronized :
      (w : World) (now a : String) (snapshot : SnapshotData) (db' : Db)
      → apply_snapshot now a snapshot w.db ≡ ok db'
      → Step w (record w { db = db' })
  flush_started :
      (w : World) (by_time : List PendingRow → List PendingRow) (a : String)
      → IsOrdering by_time
      → w.flights a ≡ []
      → Step w (with_flight a (pending by_time a w.db) w)
  acknowledged_one :
      (w : World) (a : String) (m : PendingMutation) (ms : List PendingMutation) (db' : Db)
      → w.flights a ≡ m ∷ ms
      → acknowledge a m w.db ≡ ok db'
      → Step w (with_flight a ms (record w { db = db' }))
  flush_stopped : (w : World) (a : String) → Step w (with_flight a [] w)

pub data Reach (start : World) : World → Type 0 where
  here : Reach start start
  next : {v w : World} → Reach start v → Step v w → Reach start w

-- A new database and no flush.
abbrev pub first_world : World
first_world = record { db = empty_db; flights = λ _. [] }
