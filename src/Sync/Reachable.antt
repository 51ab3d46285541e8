-- ===== src/Sync/Reachable.antt =====
-- Every interleaving of flushes with the other operations of the store.
use mathlib.Core.Path.{subst}
use flux_bar.Prelude.{◌≡◌, refl, sym, ◌∙◌, List, [], ◌∷◌, String, ok, ok-injective, arith}
use flux_bar.Sql.{select, find_row, count_rows, exists_row}
use flux_bar.Store.Schema.{Db, item_of_batch}
use flux_bar.Store.Mutations.{restore_items, undo, set_starred}
use flux_bar.Store.Acknowledge.{PendingMutation, pending, acknowledge}
use flux_bar.Store.Keyed.{IsKeyed}
use flux_bar.Store.Consistency.{IsConsistent}
use flux_bar.Store.AckConsistency.{acknowledge-IsConsistent}
use flux_bar.Store.Undoable.{AllStored-batch, IsUndoable, IsUndoable-of}
use flux_bar.Sync.FlushLaws.{IsKeyed-acknowledge}
use flux_bar.Sync.InFlight.{
  Flying, InFlight-WasSent, Requeues-set_read, Requeues-set_starred, Requeues-same,
}
use flux_bar.Sync.FlightAck.{
  Flying-acknowledge, Flying-acknowledge_other, HasFields-acknowledge, Stays-acknowledge,
}
use flux_bar.Sync.Started.{Flying-pending}
use flux_bar.Sync.Interleaving.{
  World, with_flight, Step, marked_read, starred_one, undone, discarded, synchronized,
  flush_started, acknowledged_one, flush_stopped, Reach, here, next, first_world,
}
use flux_bar.Sync.Safety.{
  IsSound, unflown, IsSafe-set_starred, IsSafe-set_read, restore_items-IsSound,
  discard_undo-IsSound, IsSafe-apply_snapshot, with_flight-IsSound,
}
use flux_bar.Store.ApplyKeyed.{Keeps-apply_snapshot}

acknowledged-IsSound :
    (w : World) (a : String) (m : PendingMutation) (ms : List PendingMutation) (db' : Db)
    → w.flights a ≡ m ∷ ms
    → acknowledge a m w.db ≡ ok db'
    → IsSound w
    → IsSound (with_flight a ms (record w { db = db' }))
acknowledged-IsSound w a m ms db' flight ran s =
    let (first, apart, rest) = subst (λ l. Flying a l w.db) flight (s.flying a) in
    let k = s.safe.keyed in
    let c = s.safe.consistent in
    let (after, done, consistent) =
      acknowledge-IsConsistent a m w.db k c (InFlight-WasSent a m w.db first) in
    with_flight-IsSound a ms (record w { db = db' })
      (record {
        keyed = IsKeyed-acknowledge a m w.db db' k ran;
        consistent = subst IsConsistent (ok-injective (sym done ∙ ran)) consistent;
        undoable =
            IsUndoable-of w.db db'
              (λ q h. rw (← (Stays-acknowledge a m w.db db' k c first ran).1) h)
              (Stays-acknowledge a m w.db db' k c first ran).0 s.safe.undoable;
        has_fields = HasFields-acknowledge a m w.db db' k c first ran s.safe.has_fields;
      })
      (Flying-acknowledge a m w.db db' k c first ran ms apart rest)
      (λ b other.
        Flying-acknowledge_other a m w.db db' k c first ran b other (w.flights b) (s.flying b))

pub Step-IsSound : {v w : World} → Step v w → IsSound v → IsSound w
Step-IsSound (marked_read w started now fresh a ids read undoable db' r unused ran) s =
    unflown w db'
      (IsSafe-set_read started now fresh a ids read undoable w.db db' r unused ran s.safe)
      (Requeues-set_read started now fresh a ids read undoable w.db unused db' r ran) s
Step-IsSound (starred_one w now a i starred stored) s =
    unflown w (set_starred now a i starred w.db)
      (IsSafe-set_starred now a i w.db stored s.safe starred)
      (Requeues-set_starred now a i starred w.db) s
Step-IsSound (undone w now a batch) s =
    let items = select (item_of_batch a batch) w.db.undo_items in
    unfold undo in
    discard_undo-IsSound a batch (record w { db = restore_items now a items w.db })
      (restore_items-IsSound now a items w (AllStored-batch a batch w.db s.safe.undoable) s)
Step-IsSound (discarded w a batch) s = discard_undo-IsSound a batch w s
Step-IsSound (synchronized w now a snapshot db' ran) s =
    unflown w db' (IsSafe-apply_snapshot now a snapshot w.db db' ran s.safe)
      (Requeues-same w.db db' (Keeps-apply_snapshot now a snapshot w.db db' ran).pending) s
Step-IsSound (flush_started w by_time a sorted idle) s =
    with_flight-IsSound a (pending by_time a w.db) w s.safe
      (Flying-pending a w.db s.safe.keyed s.safe.has_fields by_time sorted) (λ b other. s.flying b)
Step-IsSound (acknowledged_one w a m ms db' flight ran) s =
    acknowledged-IsSound w a m ms db' flight ran s
Step-IsSound (flush_stopped w a) s = with_flight-IsSound a [] w s.safe tt (λ b other. s.flying b)

IsSound-first : IsSound first_world
unfolding find_row exists_row count_rows
IsSound-first = record {
  safe = record {
    keyed = record { entries = λ a j. omega arith; pending = λ a j g. omega arith };
    consistent = record { agrees = λ a j. (refl, refl) };
    undoable = record { stored = λ a j h. absurd (cc h) };
    has_fields = record { fields = λ a j g h. absurd (h refl) };
  };
  flying = λ a. tt;
}

pub Reach-IsSound : {w : World} → Reach first_world w → IsSound w
Reach-IsSound here = IsSound-first
Reach-IsSound (next r step) = Step-IsSound step (Reach-IsSound r)

-- However flushes of any accounts, marks with fresh batches, stars of stored entries, undos and
-- synchronisations follow each other on a new database: no two entries and no two queued mutations have
-- one primary key, the effective status and star of every entry are its queued change or else the
-- stored value of the server, and the entry of every undo item is stored.
pub Reach-IsConsistent :
    {w : World} → Reach first_world w → IsKeyed w.db × IsConsistent w.db × IsUndoable w.db
Reach-IsConsistent r = let s = (Reach-IsSound r).safe in (s.keyed, s.consistent, s.undoable)

-- On the same runs, the acknowledgement of the mutation that a flush has sent always succeeds,
-- whatever the user did to the entry since it was read from the queue.
pub reachable_acknowledge :
    {w : World} {a : String} {m : PendingMutation} {ms : List PendingMutation}
    → Reach first_world w
    → w.flights a ≡ m ∷ ms
    → (db' : Db) × (acknowledge a m w.db ≡ ok db')
reachable_acknowledge {w} {a} {m} r flight =
    let s = Reach-IsSound r in
    let (first, _, _) = subst (λ l. Flying a l w.db) flight (s.flying a) in
    let (db', done, _) =
      acknowledge-IsConsistent a m w.db s.safe.keyed s.safe.consistent
        (InFlight-WasSent a m w.db first) in
    (db', done)
