-- ===== src/Sync/Runs.antt =====
-- The methods of rust-core/src/sync.rs as runs of the steps of Interleaving.antt, so that what holds
-- after all runs holds of the databases that the methods leave.
use flux_bar.Prelude.{
  ℕ, ◌+◌, ◌≡◌, refl, Bool, List, [], ◌∷◌, String, eq_refl, Result, ok, err, Bool-cases, inl, inr,
}
use flux_bar.Sql.{SqlError}
use flux_bar.Store.Schema.{Db, PendingRow}
use flux_bar.Store.Acknowledge.{PendingMutation, pending, acknowledge}
use flux_bar.Remote.Error.{RemoteError}
use flux_bar.Sync.Flush.{RemoteInbox, send, advance, settle, flush_mutations, flush_pending}
use flux_bar.Sync.Started.{IsOrdering}
use flux_bar.Sync.Interleaving.{
  World, with_flight, flush_started, acknowledged_one, flush_stopped, Reach, here, next,
}

pub Reach-trans : {u v w : World} → Reach u v → Reach v w → Reach u w
Reach-trans r here = r
Reach-trans r (next s step) = next (Reach-trans r s) step

-- Some steps lead to a world with the database, in which no flush of the account is under way.
pub record Runs (w : World) (a : String) (db : Db) : Type 0 where
  pub final : World
  pub steps : Reach w final
  pub ends : final.db ≡ db
  pub idle : final.flights a ≡ []

pub Runs-then : (v w : World) (a : String) (db : Db) → Reach v w → Runs w a db → Runs v a db
Runs-then v w a db r run = record {
  final = run.final;
  steps = Reach-trans r run.steps;
  ends = run.ends;
  idle = run.idle;
}

pub flight_at :
    (a : String) (ms : List PendingMutation) (w : World) → (with_flight a ms w).flights a ≡ ms
unfolding with_flight
flight_at a ms w = rw (eq_refl a)

Runs-stopped : (w : World) (a : String) → Runs w a w.db
Runs-stopped w a = record {
  final = with_flight a [] w;
  steps = next here (flush_stopped w a);
  ends = unfold with_flight in refl;
  idle = flight_at a [] w;
}

module _ {S : Type 0} (remote : RemoteInbox S) (display : RemoteError → String)
    (sql_text : SqlError → String) (quoted : String → String) (a : String)
    (locked late : ℕ → Bool) where
  Runs-advance :
      (rest : Db → S → Db × S × Result String (Unit {0})) (n : ℕ) (w : World) (s : S)
      (m : PendingMutation) (ms : List PendingMutation) (ran : Result SqlError Db)
      → w.flights a ≡ m ∷ ms
      → acknowledge a m w.db ≡ ran
      → ((v : World) → v.flights a ≡ ms → Runs v a (rest v.db s).0)
      → Runs w a (advance remote display sql_text quoted a locked late rest n w.db s ran).0
  unfolding advance
  Runs-advance rest n w s m ms (err e) flight ran go = Runs-stopped w a
  Runs-advance rest n w s m ms (ok db') flight ran go =
      let v = with_flight a ms (record w { db = db' }) in
      let step : Reach w v = next here (acknowledged_one w a m ms db' flight ran) in
      elim (Bool-cases (late n)) [
        | inl over ↦ rw over (Runs-then w v a db' step (unfold with_flight in Runs-stopped v a))
        | inr in_time ↦ rw in_time (
            Runs-then w v a (rest db' s).0 step
              (unfold with_flight in go v (flight_at a ms (record w { db = db' }))))
      ]

  Runs-settle :
      (rest : Db → S → Db × S × Result String (Unit {0})) (n : ℕ) (w : World) (m : PendingMutation)
      (ms : List PendingMutation) (sent : Result String (Unit {0}) × S)
      → w.flights a ≡ m ∷ ms
      → ((v : World) (s : S) → v.flights a ≡ ms → Runs v a (rest v.db s).0)
      → Runs w a (settle remote display sql_text quoted a locked late rest n m w.db sent).0
  unfolding settle
  Runs-settle rest n w m ms (err e, s) flight go = Runs-stopped w a
  Runs-settle rest n w m ms (ok _, s) flight go = elim (Bool-cases (locked n)) [
    | inl had ↦
        rw had (Runs-advance rest n w s m ms (acknowledge a m w.db) flight refl (λ v. go v s))
    | inr not_had ↦ rw not_had (Runs-stopped w a)
  ]

  Runs-flush_mutations :
      (ms : List PendingMutation) (n : ℕ) (w : World) (s : S)
      → w.flights a ≡ ms
      → Runs w a (flush_mutations remote display sql_text quoted a locked late ms n w.db s).0
  unfolding flush_mutations
  Runs-flush_mutations [] n w s flight = record {
    final = w;
    steps = here;
    ends = refl;
    idle = flight;
  }
  Runs-flush_mutations (m ∷ ms) n w s flight =
      Runs-settle (flush_mutations remote display sql_text quoted a locked late ms (n + 1)) n w m ms
        (send remote display sql_text quoted m s) flight
        (λ v s'. Runs-flush_mutations ms (n + 1) v s')

  -- The database that `flush_pending` leaves is the one of a run.
  pub flush_pending-Runs :
      (by_time : List PendingRow → List PendingRow) (w : World) (s : S)
      → IsOrdering by_time
      → w.flights a ≡ []
      → Runs w a (flush_pending remote display sql_text quoted a locked late by_time w.db s).0
  unfolding flush_pending
  flush_pending-Runs by_time w s sorted idle =
      let start = with_flight a (pending by_time a w.db) w in
      let begun : Reach w start = next here (flush_started w by_time a sorted idle) in
      let whole =
        Runs-then w start a
          (flush_mutations remote display sql_text quoted a locked late (pending by_time a w.db) 1
            w.db s).0
          begun
          (unfold with_flight in
            Runs-flush_mutations (pending by_time a w.db) 1 start s
              (flight_at a (pending by_time a w.db) w)) in
      elim (Bool-cases (locked 0)) [
        | inr not_had ↦ rw not_had (Runs-stopped w a)
        | inl had ↦ elim (Bool-cases (late 0)) [
          | inl over ↦ rw (had, over) (Runs-stopped w a)
          | inr in_time ↦ rw (had, in_time) whole
        ]
      ]
