-- ===== src/Sync/InFlight.antt =====
-- A mutation between its read from the queue and its acknowledgement, while other operations of
-- store.rs change the database: what is known of its row.

use mathlib.Core.Path.{subst}
use flux_bar.Prelude.{
  ◌≤◌, ◌≡◌, ◌≢◌, refl, ap, sym, ◌∙◌, Bool, true, false, ◌&&◌, Option, none, some, List, [], ◌∷◌,
  String, ◌==◌, eq_iff, ℤ, id_eq_iff, arith, if◌then◌else◌, Bool-cases, inl, inr, ◌⊎◌, ok,
  ok-injective,
}
use flux_bar.Store.Schema.{Db, PendingRow}
use flux_bar.Store.Mutations.{MutationReceipt, write_read, set_read, set_starred}
use flux_bar.Store.Acknowledge.{PendingMutation}
use flux_bar.Store.Views.{entry_at, pending_at, same_pending, bumped, pending_at-upsert_pending}
use flux_bar.Store.ReadState.{changes, listed}
use flux_bar.Store.MarkViews.{pending_at-write_read}
use flux_bar.Store.SetRead.{IsFresh, set_read-effect}
use flux_bar.Store.AckConsistency.{WasSent}
use flux_bar.Sync.FlushLaws.{Apart}

abbrev pub IsField : String → Type 0
IsField f = (f ≡ "read") ⊎ (f ≡ "starred")

-- Only the two fields are ever queued.
pub record HasFields (db : Db) : Type 0 where
  pub fields : (a : String) (j : ℤ) (g : String) → pending_at a j g db ≢ none → IsField g

-- The row of the mutation is in the table, with the revision that was read and the same value, or
-- with a later revision.
pub record InFlight (a : String) (m : PendingMutation) (db : Db) : Type 0 where
  pub row : PendingRow
  pub queued : pending_at a m.entry_id m.field db ≡ some row
  pub newer : m.revision ≤ row.revision
  pub unchanged : row.revision ≡ m.revision → row.desired ≡ m.desired
  pub known : IsField m.field

-- The mutations of one flush that are not yet acknowledged, each from a row of its own.
abbrev pub Flying : String → List PendingMutation → Db → Type 0
Flying a [] db = Unit
Flying a (m ∷ ms) db = InFlight a m db × Apart a m ms × Flying a ms db

pub InFlight-WasSent :
    (a : String) (m : PendingMutation) (db : Db) → InFlight a m db → WasSent a m db
InFlight-WasSent a m db f = record {
  row = f.row;
  queued = f.queued;
  unchanged = f.unchanged;
  known = f.known;
}

-- A pending row stays as it is, or the user's next change of it is written.
abbrev pub IsRequeued : String → ℤ → String → Option PendingRow → Option PendingRow → Type 0
IsRequeued a j g before after =
    (after ≡ before)
    ⊎ (IsField g
        × (now : String) × (desired : Bool) × (after ≡ some (bumped now a j g desired before)))

-- No pending row is lost, and each is at most changed by the user.
pub record Requeues (db db' : Db) : Type 0 where
  pub at :
      (a : String) (j : ℤ) (g : String)
      → IsRequeued a j g (pending_at a j g db) (pending_at a j g db')

InFlight-bumped :
    (a : String) (m : PendingMutation) (db db' : Db) (f : InFlight a m db)
    → (now : String) (desired : Bool)
    → pending_at a m.entry_id m.field db'
      ≡ some (bumped now a m.entry_id m.field desired (some f.row))
    → InFlight a m db'
unfolding bumped
InFlight-bumped a m db db' f now desired e = record {
  row = bumped now a m.entry_id m.field desired (some f.row);
  queued = e;
  newer = omega (arith, f.newer);
  unchanged = λ same. absurd (omega (arith, f.newer, same));
  known = f.known;
}

pub InFlight-Requeues :
    (a : String) (m : PendingMutation) (db db' : Db)
    → Requeues db db'
    → InFlight a m db
    → InFlight a m db'
InFlight-Requeues a m db db' kept f = elim (kept.at a m.entry_id m.field) [
  | inl same ↦ record {
    row = f.row;
    queued = same ∙ f.queued;
    newer = f.newer;
    unchanged = f.unchanged;
    known = f.known;
  }
  | inr (_, now, desired, changed) ↦
      InFlight-bumped a m db db' f now desired
        (changed ∙ ap (λ p. some (bumped now a m.entry_id m.field desired p)) f.queued)
]

pub Flying-Requeues :
    (a : String) (db db' : Db)
    → Requeues db db'
    → (ms : List PendingMutation) → Flying a ms db
    → Flying a ms db'
Flying-Requeues a db db' kept [] f = tt
Flying-Requeues a db db' kept (m ∷ ms) (here, apart, rest) =
    (InFlight-Requeues a m db db' kept here, apart, Flying-Requeues a db db' kept ms rest)

pub HasFields-Requeues : (db db' : Db) → Requeues db db' → HasFields db → HasFields db'
HasFields-Requeues db db' kept h = record {
  fields = λ a j g there. elim (kept.at a j g) [
    | inl same ↦ h.fields a j g (λ missing. there (same ∙ missing))
    | inr (field, _, _, _) ↦ field
  ];
}

pub Requeues-same : (db db' : Db) → db'.pending_mutations ≡ db.pending_mutations → Requeues db db'
Requeues-same db db' same = record { at = λ a j g. inl (rw same) }

same_field :
    (a : String) (i : ℤ) (f : String) (b : String) (j : ℤ) (g : String)
    → same_pending a i f b j g ≡ true
    → (a ≡ b) × (i ≡ j) × (f ≡ g)
unfolding same_pending
same_field a i f b j g h = ground (arith, eq_iff a b, eq_iff f g, id_eq_iff i j)

-- One queued change.
IsRequeued-queued :
    (now a : String) (i : ℤ) (f : String) (desired : Bool) (b : String) (j : ℤ) (g : String)
    (before after : Option PendingRow)
    → IsField f
    → after ≡ (if same_pending a i f b j g then some (bumped now a i f desired before) else before)
    → IsRequeued b j g before after
IsRequeued-queued now a i f desired b j g before after field e =
    elim (Bool-cases (same_pending a i f b j g)) [
      | inl own ↦
          let (account, id, name) = same_field a i f b j g own in
          inr (subst IsField name field, now, desired, e ∙ rw own (rw (account, id, name)))
      | inr apart ↦ inl (e ∙ rw apart)
    ]

pub Requeues-write_read :
    (now a : String) (i : ℤ) (read : Bool) (db : Db) → Requeues db (write_read now a i read db)
Requeues-write_read now a i read db = record {
  at = λ b j g.
      IsRequeued-queued now a i "read" read b j g (pending_at b j g db)
        (pending_at b j g (write_read now a i read db)) (inl refl)
        (pending_at-write_read now a i read db b j g);
}

pub Requeues-set_starred :
    (now a : String) (i : ℤ) (starred : Bool) (db : Db)
    → Requeues db (set_starred now a i starred db)
unfolding set_starred
Requeues-set_starred now a i starred db = record {
  at = λ b j g.
      IsRequeued-queued now a i "starred" starred b j g (pending_at b j g db)
        (pending_at b j g (set_starred now a i starred db)) (inr refl)
        (pending_at-upsert_pending now a i "starred" starred b j g db.pending_mutations);
}

IsRequeued-listed :
    (hit own : Bool) (now a : String) (read : Bool) (b : String) (j : ℤ) (g : String)
    (before after : Option PendingRow)
    → after ≡ (
        if (a == b && "read" == g) && hit then some (bumped now a j "read" read before) else before)
    → ((a == b && "read" == g) && hit) ≡ own
    → IsRequeued b j g before after
IsRequeued-listed hit false now a read b j g before after e split = inl (e ∙ rw split)
IsRequeued-listed hit true now a read b j g before after e split =
    let is_own : (a ≡ b) × ("read" ≡ g) = ground (arith, split, eq_iff a b, eq_iff "read" g) in
    inr (inl (sym is_own.1), now, read, e ∙ rw split (rw (is_own.0, is_own.1)))

pub Requeues-set_read :
    (started : String) (now : ℤ → String) (fresh account : String) (ids : List ℤ)
    (read undoable : Bool) (db : Db)
    → (undoable ≡ true → IsFresh account fresh db)
    → (db' : Db) (r : Option MutationReceipt)
    → set_read started now fresh account ids read undoable db ≡ ok (db', r)
    → Requeues db db'
Requeues-set_read started now fresh account ids read undoable db unused db' r h =
    let (after, receipt, runs, entries, pending) =
      set_read-effect started now fresh account ids read undoable db unused in
    let same : after ≡ db' =
      ap (λ (t : Db × Option MutationReceipt). t.0) (ok-injective (sym runs ∙ h)) in
    subst (Requeues db) same (record {
      at = λ b j g.
          IsRequeued-listed (listed j ids && changes read (entry_at account j db)) _ (now j) account
            read b j g (pending_at b j g db) (pending_at b j g after) (pending b j g) refl;
    })
