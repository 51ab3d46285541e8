-- ===== src/Sync/Safety.antt =====
-- What holds of the database and of the mutations in flight after each step of Interleaving.antt.
use mathlib.Core.Path.{subst}
use flux_bar.Prelude.{
  ◌≡◌, ◌≢◌, refl, ap, sym, ◌∙◌, Bool, true, false, Option, none, List, [], ◌∷◌, String, ◌==◌,
  eq_iff, ℤ, ok, Bool-cases, inl, inr, ok-injective,
}
use flux_bar.Store.Schema.{Db, UndoItemRow}
use flux_bar.Store.Mutations.{
  MutationReceipt, write_read, set_read, set_starred, restore_items, discard_undo, clean_batches,
}
use flux_bar.Store.Acknowledge.{PendingMutation, pending}
use flux_bar.Store.Apply.{SnapshotData, apply_snapshot}
use flux_bar.Store.Views.{entry_at}
use flux_bar.Store.Keyed.{IsKeyed, write_read-IsKeyed, set_starred-IsKeyed, IsKeyed-step_entries}
use flux_bar.Store.Consistency.{
  IsConsistent, write_read-IsConsistent, set_read-IsConsistent, set_starred-IsConsistent,
}
use flux_bar.Store.SetRead.{IsFresh, opened, after_set_read, set_read-runs}
use flux_bar.Store.ApplyConsistency.{apply_snapshot-IsConsistent}
use flux_bar.Store.ApplyKeyed.{Keeps-apply_snapshot}
use flux_bar.Store.Undoable.{
  IsUndoable, IsUndoable-of, IsUndoable-write_read, IsUndoable-discard_undo,
  IsUndoable-step_entries, Stays-write_read, Stays-set_starred, AllStored, AllStored-Stays,
}
use flux_bar.Sync.InFlight.{
  HasFields, Flying, Requeues, Requeues-same, Requeues-write_read, Requeues-set_read,
  Requeues-set_starred, Flying-Requeues, HasFields-Requeues,
}
use flux_bar.Sync.Interleaving.{World, with_flight}

pub record IsSafe (db : Db) : Type 0 where
  pub keyed : IsKeyed db
  pub consistent : IsConsistent db
  pub undoable : IsUndoable db
  pub has_fields : HasFields db

pub record IsSound (w : World) : Type 0 where
  pub safe : IsSafe w.db
  pub flying : (a : String) → Flying a (w.flights a) w.db

-- A safe step of the store that no flush takes part in.
pub unflown :
    (w : World) (db' : Db)
    → IsSafe db'
    → Requeues w.db db'
    → IsSound w
    → IsSound (record w { db = db' })
unflown w db' safe kept s = record {
  safe = safe;
  flying = λ a. Flying-Requeues a w.db db' kept (w.flights a) (s.flying a);
}

module _ (now a : String) (i : ℤ) (db : Db) (stored : entry_at a i db ≢ none) (s : IsSafe db) where
  IsSafe-write_read : (read : Bool) → IsSafe (write_read now a i read db)
  IsSafe-write_read read = record {
    keyed = write_read-IsKeyed now a i read db s.keyed;
    consistent = write_read-IsConsistent now a i db stored s.consistent read;
    undoable = IsUndoable-write_read now a i read db s.undoable;
    has_fields =
        HasFields-Requeues db (write_read now a i read db) (Requeues-write_read now a i read db)
          s.has_fields;
  }

  pub IsSafe-set_starred : (starred : Bool) → IsSafe (set_starred now a i starred db)
  IsSafe-set_starred starred = record {
    keyed = set_starred-IsKeyed now a i starred db s.keyed;
    consistent = set_starred-IsConsistent now a i db stored s.consistent starred;
    undoable =
        IsUndoable-of db (set_starred now a i starred db) (λ q h. unfold set_starred in h)
          (Stays-set_starred now a i starred db) s.undoable;
    has_fields =
        HasFields-Requeues db (set_starred now a i starred db)
          (Requeues-set_starred now a i starred db) s.has_fields;
  }

-- Writes to other tables.
IsSafe-beside :
    (db db' : Db)
    → db'.entries ≡ db.entries
    → db'.pending_mutations ≡ db.pending_mutations
    → IsUndoable db'
    → IsSafe db
    → IsSafe db'
IsSafe-beside db db' entries pending undoable s = record {
  keyed = record {
    entries = λ a j. rw entries (s.keyed.entries a j);
    pending = λ a j g. rw pending (s.keyed.pending a j g);
  };
  consistent = record { agrees = λ a j. rw (entries, pending) (s.consistent.agrees a j) };
  undoable = undoable;
  has_fields = record { fields = λ a j g. rw pending (s.has_fields.fields a j g) };
}

pub IsSafe-set_read :
    (started : String) (now : ℤ → String) (fresh a : String) (ids : List ℤ) (read undoable : Bool)
    (db db' : Db) (r : Option MutationReceipt)
    → (undoable ≡ true → IsFresh a fresh db)
    → set_read started now fresh a ids read undoable db ≡ ok (db', r)
    → IsSafe db
    → IsSafe db'
unfolding after_set_read opened clean_batches
IsSafe-set_read started now fresh a ids read undoable db db' r unused ran s =
    let after = after_set_read started now fresh a ids read undoable db in
    let start = opened started now fresh a ids read undoable db in
    let same : after ≡ db' =
      ap (λ (t : Db × Option MutationReceipt). t.0)
        (ok-injective
          (sym (set_read-runs started now fresh a ids read undoable db unused) ∙ ran)) in
    let keyed =
      IsKeyed-step_entries now a read undoable fresh ids start
        (record { entries = s.keyed.entries; pending = s.keyed.pending }) in
    let undo_kept =
      IsUndoable-step_entries now a read undoable fresh ids start
        (record { stored = s.undoable.stored }) in
    record {
      keyed = subst IsKeyed same (record { entries = keyed.entries; pending = keyed.pending });
      consistent =
          set_read-IsConsistent started now fresh a ids read undoable db unused s.consistent db' r
            ran;
      undoable = subst IsUndoable same (record { stored = undo_kept.stored });
      has_fields =
          HasFields-Requeues db db'
            (Requeues-set_read started now fresh a ids read undoable db unused db' r ran)
            s.has_fields;
    }

-- The restoration of items whose entries are stored, item by item.
pub restore_items-IsSound :
    (now : ℤ → String) (a : String) (items : List UndoItemRow) (w : World)
    → AllStored a items w.db
    → IsSound w
    → IsSound (record w { db = restore_items now a items w.db })
unfolding restore_items
restore_items-IsSound now a [] w stored s = s
restore_items-IsSound now a (item ∷ items) w (here, rest) s =
    let at = now item.entry_id in
    let written = write_read at a item.entry_id item.prior_read w.db in
    restore_items-IsSound now a items (record w { db = written })
      (AllStored-Stays a w.db written (Stays-write_read at a item.entry_id item.prior_read w.db)
        items rest)
      (unflown w written (IsSafe-write_read at a item.entry_id w.db here s.safe item.prior_read)
        (Requeues-write_read at a item.entry_id item.prior_read w.db) s)

pub discard_undo-IsSound :
    (a batch : String) (w : World)
    → IsSound w
    → IsSound (record w { db = discard_undo a batch w.db })
discard_undo-IsSound a batch w s =
    let after = discard_undo a batch w.db in
    unflown w after
      (IsSafe-beside w.db after (unfold discard_undo in refl) (unfold discard_undo in refl)
        (IsUndoable-discard_undo a batch w.db s.safe.undoable) s.safe)
      (Requeues-same w.db after (unfold discard_undo in refl)) s

pub IsSafe-apply_snapshot :
    (now a : String) (snapshot : SnapshotData) (db db' : Db)
    → apply_snapshot now a snapshot db ≡ ok db'
    → IsSafe db
    → IsSafe db'
IsSafe-apply_snapshot now a snapshot db db' ran s =
    let kept = Keeps-apply_snapshot now a snapshot db db' ran in
    record {
      keyed = kept.keyed s.keyed;
      consistent = apply_snapshot-IsConsistent now a snapshot db db' s.consistent ran;
      undoable = IsUndoable-of db db' (λ q h. rw (← kept.undo) h) kept.entries s.undoable;
      has_fields = HasFields-Requeues db db' (Requeues-same db db' kept.pending) s.has_fields;
    }

-- A new list of one account's flush.
pub with_flight-IsSound :
    (a : String) (ms : List PendingMutation) (w : World)
    → IsSafe w.db
    → Flying a ms w.db
    → ((b : String) → a == b ≡ false → Flying b (w.flights b) w.db)
    → IsSound (with_flight a ms w)
unfolding with_flight
with_flight-IsSound a ms w safe own others = record {
  safe = safe;
  flying = λ b. elim (Bool-cases (a == b)) [
    | inl same ↦ rw (same, ← (eq_iff a b).0 same) own
    | inr apart ↦ rw apart (others b apart)
  ];
}
