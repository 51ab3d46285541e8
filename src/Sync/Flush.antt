-- ===== src/Sync/Flush.antt =====
-- `flush_pending` of rust-core/src/sync.rs: the queued mutations, sent one by one.
--
-- The server is a state `S` with the calls of `RemoteInbox`, as an interface. Each mutation is
-- acknowledged in a transaction of its own, so the database is returned with an error too. `late n` is
-- what the clock says at the n-th look at the deadline, and `locked n` whether the lock of the store
-- was had in time before it. `quoted` is the debug form of a string, `sql_text` the text of an SQLite
-- error. Other operations between two transactions of the flush are not part of the run.
use Prim.Native.String.{◌++◌}
use flux_bar.Prelude.{
  ℕ, ◌+◌, Bool, true, false, not, Option, List, [], ◌∷◌, String, ◌==◌, ℤ, Result, ok, err,
  if◌then◌else◌,
}
use flux_bar.Sql.{SqlError}
use flux_bar.Store.Schema.{Db, PendingRow}
use flux_bar.Store.Acknowledge.{PendingMutation, pending, acknowledge}
use flux_bar.Remote.Dto.{EntriesFilter, EntryDto, CategoryDto, FeedDto, FeedCountersDto}
use flux_bar.Remote.Error.{RemoteError}

-- `RemoteInbox`; each call returns the server's next state.
pub record RemoteInbox (S : Type 0) : Type 0 where
  pub fetch_complete_selection : EntriesFilter → S → Result RemoteError (List EntryDto × ℤ) × S
  pub categories : S → Result RemoteError (List CategoryDto) × S
  pub feeds : S → Result RemoteError (List FeedDto) × S
  pub unread_counters : S → Result RemoteError FeedCountersDto × S
  pub starred_total : S → Result RemoteError ℤ × S
  pub icon_data_url : ℤ → S → Result RemoteError (Option String) × S
  pub set_read_batch : List ℤ → Bool → S → Result RemoteError (Unit {0}) × S
  pub entry_starred : ℤ → S → Result RemoteError Bool × S
  pub toggle_starred : ℤ → S → Result RemoteError (Unit {0}) × S

module _ {S : Type 0} (remote : RemoteInbox S) (display : RemoteError → String)
    (sql_text : SqlError → String) (quoted : String → String) where
  -- `.map_err(|error| format!("{context}: {error}"))`
  unfoldable pub with_context :
      {A : Type 0} → String → Result RemoteError A × S → Result String A × S
  with_context context (ok a, s) = (ok a, s)
  with_context context (err e, s) = (err (context ++ (": " ++ display e)), s)

  -- The toggle, if the star of the server is not the wanted one.
  unfoldable pub toggle_to : PendingMutation → Result String Bool × S → Result String (Unit {0}) × S
  unfolding with_context
  toggle_to m (err e, s) = (err e, s)
  toggle_to m (ok current, s) =
      let toggled =
        with_context "Miniflux-Markierung aktualisieren" (remote.toggle_starred m.entry_id s) in
      elim current [
        | true ↦ if m.desired then (ok tt, s) else toggled
        | false ↦ if m.desired then toggled else (ok tt, s)
      ]

  -- The match on the field.
  unfoldable pub send : PendingMutation → S → Result String (Unit {0}) × S
  unfolding with_context toggle_to
  send m s =
      if m.field == "read"
      then with_context "Miniflux-Lesestatus aktualisieren"
          (remote.set_read_batch (m.entry_id ∷ []) m.desired s)
      else if m.field == "starred"
      then toggle_to m (with_context "Miniflux-Eintrag laden" (remote.entry_starred m.entry_id s))
      else (err ("unbekanntes Mutationsfeld " ++ quoted m.field), s)

  module _ (account : String) (locked late : ℕ → Bool) where
    -- After the acknowledgement: the look at the deadline. `next` is the rest of the loop.
    unfoldable pub advance :
        (Db → S → Db × S × Result String (Unit {0}))
        → ℕ
        → Db
        → S
        → Result SqlError Db
        → Db × S × Result String (Unit {0})
    advance next n db s (err e) = (db, s, err (sql_text e))
    advance next n db s (ok db') =
        if late n then (db', s, err "context deadline exceeded") else next db' s

    -- After the send: the acknowledgement.
    unfoldable pub settle :
        (Db → S → Db × S × Result String (Unit {0}))
        → ℕ
        → PendingMutation
        → Db
        → Result String (Unit {0}) × S
        → Db × S × Result String (Unit {0})
    unfolding advance
    settle next n m db (err e, s) = (db, s, err e)
    settle next n m db (ok _, s) =
        if not (locked n)
        then (db, s, err "context deadline exceeded")
        else advance next n db s (acknowledge account m db)

    unfoldable pub flush_mutations :
        List PendingMutation → ℕ → Db → S → Db × S × Result String (Unit {0})
    unfolding send settle
    flush_mutations [] n db s = (db, s, ok tt)
    flush_mutations (m ∷ ms) n db s = settle (flush_mutations ms (n + 1)) n m db (send m s)

    unfoldable pub flush_pending :
        (List PendingRow → List PendingRow) → Db → S → Db × S × Result String (Unit {0})
    unfolding flush_mutations
    flush_pending by_time db s =
        if not (locked 0)
        then (db, s, err "context deadline exceeded")
        else if late 0
        then (db, s, err "context deadline exceeded")
        else flush_mutations (pending by_time account db) 1 db s
