-- ===== src/Sync/FlightAck.antt =====
-- `acknowledge` of store.rs while other mutations are in flight.
use mathlib.Core.Path.{subst}
use flux_bar.Prelude.{
  ◌≡◌, refl, ap, sym, ◌∙◌, false, none, List, [], ◌∷◌, String, ◌==◌, ℤ, arith, if◌then◌else◌,
  Bool-cases, Option-cases, inl, inr, ok, ok-injective,
}
use flux_bar.Store.Schema.{Db}
use flux_bar.Store.Acknowledge.{PendingMutation, acknowledge, acknowledge_field, forget_sent}
use flux_bar.Store.Views.{entry_at, pending_at, same_entry, same_pending}
use flux_bar.Store.Keyed.{IsKeyed}
use flux_bar.Store.Consistency.{IsConsistent}
use flux_bar.Store.Acknowledged.{unsent, acknowledged, acknowledge-effect}
use flux_bar.Store.AckConsistency.{stored_sent}
use flux_bar.Store.Undoable.{Stays, if-ne}
use flux_bar.Sync.FlushLaws.{Apart}
use flux_bar.Sync.InFlight.{HasFields, InFlight, Flying, InFlight-WasSent}

undo_items-acknowledge :
    (a : String) (m : PendingMutation) (db db' : Db)
    → acknowledge a m db ≡ ok db'
    → db'.undo_items ≡ db.undo_items
unfolding acknowledge forget_sent acknowledge_field
undo_items-acknowledge a m db db' ran = elim (Option-cases (entry_at a m.entry_id db)) [
  | inl missing ↦ absurd (cc (rw missing at ran))
  | inr (e, found) ↦
      ap (λ (x : Db). x.undo_items) (ok-injective (sym (rw found at ran))) ∙ field_items e
]
  where
    field_items :
        (e : _) → (forget_sent a m (acknowledge_field a m e db)).undo_items ≡ db.undo_items
    field_items e = ground arith

-- The acknowledgement of a mutation leaves the rows of the others.
module _ (a : String) (m : PendingMutation) (db db' : Db) (k : IsKeyed db) (c : IsConsistent db)
    (f : InFlight a m db) (ran : acknowledge a m db ≡ ok db') where
  after_acknowledge :
      (b : String) (j : ℤ) (g : String)
      → pending_at b j g db' ≡ (
          if same_pending a m.entry_id m.field b j g
          then unsent m (pending_at b j g db)
          else pending_at b j g db)
  after_acknowledge b j g =
      let (db'', done, _, pending) =
        acknowledge-effect a m db k (stored_sent a m db c (InFlight-WasSent a m db f)) in
      let same : db'' ≡ db' = ok-injective (sym done ∙ ran) in
      ap (pending_at b j g) (sym same) ∙ pending b j g

  InFlight-acknowledge :
      (b : String) (m' : PendingMutation)
      → same_pending a m.entry_id m.field b m'.entry_id m'.field ≡ false
      → InFlight b m' db
      → InFlight b m' db'
  InFlight-acknowledge b m' apart f' = record {
    row = f'.row;
    queued = after_acknowledge b m'.entry_id m'.field ∙ rw apart f'.queued;
    newer = f'.newer;
    unchanged = f'.unchanged;
    known = f'.known;
  }

  pub Flying-acknowledge :
      (ms : List PendingMutation) → Apart a m ms → Flying a ms db → Flying a ms db'
  Flying-acknowledge [] apart flying = tt
  Flying-acknowledge (m' ∷ ms) (here, apart) (f', others, flying) =
      (InFlight-acknowledge a m' here f', others, Flying-acknowledge ms apart flying)

  -- The flush of another account.
  pub Flying-acknowledge_other :
      (b : String) → a == b ≡ false → (ms : List PendingMutation) → Flying b ms db → Flying b ms db'
  Flying-acknowledge_other b other [] flying = tt
  Flying-acknowledge_other b other (m' ∷ ms) (f', others, flying) = (
    InFlight-acknowledge b m' (unfold same_pending in rw other) f',
    others,
    Flying-acknowledge_other b other ms flying,
  )

  pub HasFields-acknowledge : HasFields db → HasFields db'
  HasFields-acknowledge h = record {
    fields = λ b j g there.
        h.fields b j g (λ missing. there (after_acknowledge b j g ∙ gone b j g missing));
  }
    where
      gone :
          (b : String) (j : ℤ) (g : String)
          → pending_at b j g db ≡ none
          → (if same_pending a m.entry_id m.field b j g
              then unsent m (pending_at b j g db)
              else pending_at b j g db)
            ≡ none
      gone b j g missing = elim (Bool-cases (same_pending a m.entry_id m.field b j g)) [
        | inl own ↦ rw (own, missing) (unfold unsent in refl)
        | inr apart ↦ rw apart missing
      ]

  -- The entries and the undo items stay.
  pub Stays-acknowledge : Stays db db' × (db'.undo_items ≡ db.undo_items)
  Stays-acknowledge =
      let (db'', done, entries, _) =
        acknowledge-effect a m db k (stored_sent a m db c (InFlight-WasSent a m db f)) in
      let same : db'' ≡ db' = ok-injective (sym done ∙ ran) in
      (
        subst (Stays db) same (record {
          stays = λ b j h.
              rw (entries b j)
                (if-ne (same_entry a m.entry_id b j) (acknowledged m) (entry_at b j db) h);
        }),
        undo_items-acknowledge a m db db' ran,
      )
