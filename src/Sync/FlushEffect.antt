-- ===== src/Sync/FlushEffect.antt =====
-- What a flush and a refresh of rust-core/src/sync.rs make of the database, from the sends and the
-- acknowledgements that have gone through.
use flux_bar.Prelude.{
  ℕ, ◌+◌, ◌≡◌, refl, Bool, List, [], ◌∷◌, String, Result, ok, err, Bool-cases, inl, inr, ◌⊎◌,
}
use flux_bar.Sql.{SqlError}
use flux_bar.Store.Schema.{Db, PendingRow}
use flux_bar.Store.Acknowledge.{PendingMutation, pending, acknowledge}
use flux_bar.Remote.Error.{RemoteError}
use flux_bar.Sync.Flush.{RemoteInbox, send, advance, settle, flush_mutations, flush_pending}

-- A run that went through leaves nothing, any other returns an error.
abbrev pub EndsWith : List PendingMutation → Result String (Unit {0}) → Type 0
EndsWith rest r = ((r ≡ ok tt) × (rest ≡ [])) ⊎ ((e : String) × (r ≡ err e))

module _ {S : Type 0} (remote : RemoteInbox S) (display : RemoteError → String)
    (sql_text : SqlError → String) (quoted : String → String) (account : String) where
  -- From the first of the mutations on, each is sent to the server, which takes it, and is then
  -- acknowledged; some at the end of the list may be left.
  pub data Delivered : List PendingMutation → Db → S → List PendingMutation → Db → Type 0 where
    left : (ms : List PendingMutation) (db : Db) (s : S) → Delivered ms db s ms db
    delivered :
        (m : PendingMutation) (ms rest : List PendingMutation) (db mid db' : Db) (s s' : S)
        → send remote display sql_text quoted m s ≡ (ok tt, s')
        → acknowledge account m db ≡ ok mid
        → Delivered ms mid s' rest db'
        → Delivered (m ∷ ms) db s rest db'

  module _ (locked late : ℕ → Bool) where
    -- A database and a result that the mutations may end with.
    abbrev Ended : List PendingMutation → Db → S → Db × S × Result String (Unit {0}) → Type 0
    Ended ms db s (db', _, r) =
        (rest : List PendingMutation) × Delivered ms db s rest db' × EndsWith rest r

    Ended-advance :
        (next : Db → S → Db × S × Result String (Unit {0})) (n : ℕ) (m : PendingMutation)
        (ms : List PendingMutation) (db : Db) (s s' : S) (ran : Result SqlError Db)
        → send remote display sql_text quoted m s ≡ (ok tt, s')
        → acknowledge account m db ≡ ran
        → ((mid : Db) → Ended ms mid s' (next mid s'))
        → Ended
            (m ∷ ms)
            db
            s
            (advance remote display sql_text quoted account locked late next n db s' ran)
    unfolding advance
    Ended-advance next n m ms db s s' (err e) sent ran go =
        (m ∷ ms, left (m ∷ ms) db s, inr (sql_text e, refl))
    Ended-advance next n m ms db s s' (ok mid) sent ran go = elim (Bool-cases (late n)) [
      | inl over ↦ rw over (
        ms,
        delivered m ms ms db mid mid s s' sent ran (left ms mid s'),
        inr ("context deadline exceeded", refl),
      )
      | inr in_time ↦
          let (rest, run, ends) = go mid in
          rw in_time (rest, delivered m ms rest db mid (next mid s').0 s s' sent ran run, ends)
    ]

    Ended-settle :
        (next : Db → S → Db × S × Result String (Unit {0})) (n : ℕ) (m : PendingMutation)
        (ms : List PendingMutation) (db : Db) (s : S) (sent : Result String (Unit {0}) × S)
        → send remote display sql_text quoted m s ≡ sent
        → ((mid : Db) (s' : S) → Ended ms mid s' (next mid s'))
        → Ended
            (m ∷ ms)
            db
            s
            (settle remote display sql_text quoted account locked late next n m db sent)
    unfolding settle
    Ended-settle next n m ms db s (err e, s') sent go = (m ∷ ms, left (m ∷ ms) db s, inr (e, refl))
    Ended-settle next n m ms db s (ok _, s') sent go = elim (Bool-cases (locked n)) [
      | inl had ↦ rw had (
          Ended-advance next n m ms db s s' (acknowledge account m db) sent refl (λ mid. go mid s'))
      | inr not_had ↦
          rw not_had (m ∷ ms, left (m ∷ ms) db s, inr ("context deadline exceeded", refl))
    ]

    Ended-flush_mutations :
        (ms : List PendingMutation) (n : ℕ) (db : Db) (s : S)
        → Ended ms db s
            (flush_mutations remote display sql_text quoted account locked late ms n db s)
    unfolding flush_mutations
    Ended-flush_mutations [] n db s = ([], left [] db s, inl (refl, refl))
    Ended-flush_mutations (m ∷ ms) n db s =
        Ended-settle (flush_mutations remote display sql_text quoted account locked late ms (n + 1))
          n m ms db s (send remote display sql_text quoted m s) refl
          (λ mid s'. Ended-flush_mutations ms (n + 1) mid s')

    -- At any server and clock, `flush_pending` sends and acknowledges queued mutations one after the
    -- other from the first on, each acknowledged in the database of the one before and only after the
    -- server has taken it, and changes nothing else; if it returns no error, none is left.
    pub flush_pending-delivers :
        (by_time : List PendingRow → List PendingRow) (db : Db) (s : S)
        → let after =
            flush_pending remote display sql_text quoted account locked late by_time db s in
          (rest : List PendingMutation) × Delivered (pending by_time account db) db s rest after.0
          × EndsWith rest after.2
    unfolding flush_pending
    flush_pending-delivers by_time db s =
        let queued = pending by_time account db in
        let exceeded : String = "context deadline exceeded" in
        elim (Bool-cases (locked 0)) [
          | inr not_had ↦ rw not_had (queued, left queued db s, inr (exceeded, refl))
          | inl had ↦ elim (Bool-cases (late 0)) [
            | inl over ↦ rw (had, over) (queued, left queued db s, inr (exceeded, refl))
            | inr in_time ↦ rw (had, in_time) (Ended-flush_mutations queued 1 db s)
          ]
        ]
