-- ===== src/Sync/RefreshRuns.antt =====
-- The refresh of rust-core/src/sync.rs as a run of the steps of Interleaving.antt.
use mathlib.Core.Path.{subst}
use flux_bar.Prelude.{
  ℕ, ◌≡◌, refl, Bool, List, [], String, ℤ, Result, ok, err, Bool-cases, inl, inr,
}
use flux_bar.Sql.{SqlError}
use flux_bar.Domain.Selection.{Selection}
use flux_bar.Domain.Entry.{Entry}
use flux_bar.Store.Schema.{Db, PendingRow}
use flux_bar.Store.Apply.{SnapshotData, apply_snapshot}
use flux_bar.Store.Snapshot.{Order}
use flux_bar.Remote.Error.{RemoteError}
use flux_bar.Remote.Dto.{EntryDto}
use flux_bar.Sync.Flush.{RemoteInbox}
use flux_bar.Sync.Browse.{browse}
use flux_bar.Sync.Service.{flushed, applied, on_browsed, sync_serialized, sync}
use flux_bar.Sync.Started.{IsOrdering}
use flux_bar.Store.Consistency.{IsConsistent}
use flux_bar.Sync.Reachable.{Reach-IsConsistent}
use flux_bar.Sync.Interleaving.{World, first_world, synchronized, Reach, here, next}
use flux_bar.Sync.Runs.{Reach-trans, Runs, Runs-then, flush_pending-Runs}

module _ (sql_text : SqlError → String) (a : String) (order : Order) (selection : Selection)
    (retain_ids : List ℤ) (newest_first : Bool) (locked late : ℕ → Bool) {S : Type 0}
    (remote : RemoteInbox S) (display : RemoteError → String) (quoted lower : String → String)
    (map_entry : EntryDto → Entry) (flush_locked flush_late : ℕ → Bool)
    (by_time : List PendingRow → List PendingRow) where
  Runs-applied :
      (now : String) (snapshot : SnapshotData) (w : World) (s : S) (ran : Result SqlError Db)
      → w.flights a ≡ []
      → apply_snapshot now a snapshot w.db ≡ ran
      → Runs w a
          (applied sql_text a order selection retain_ids newest_first locked late remote display
            quoted lower map_entry flush_locked flush_late by_time w.db s ran).0
  unfolding applied
  Runs-applied now snapshot w s (err e) idle ran = record {
    final = w;
    steps = here;
    ends = refl;
    idle = idle;
  }
  Runs-applied now snapshot w s (ok db') idle ran = record {
    final = record w { db = db' };
    steps = next here (synchronized w now a snapshot db' ran);
    ends = refl;
    idle = idle;
  }

  Runs-on_browsed :
      (now : String) (w : World) (browsed : Result String SnapshotData × S)
      → w.flights a ≡ []
      → Runs w a
          (on_browsed sql_text a order selection retain_ids newest_first locked late remote display
            quoted lower map_entry flush_locked flush_late by_time now w.db browsed).0
  unfolding on_browsed
  Runs-on_browsed now w (err e, s) idle = record {
    final = w;
    steps = here;
    ends = refl;
    idle = idle;
  }
  Runs-on_browsed now w (ok snapshot, s) idle = elim (Bool-cases (locked 0)) [
    | inr not_had ↦ rw not_had (record { final = w; steps = here; ends = refl; idle = idle })
    | inl had ↦
        rw had (Runs-applied now snapshot w s (apply_snapshot now a snapshot w.db) idle refl)
  ]

  Runs-flushed :
      (w : World) (s : S)
      → IsOrdering by_time
      → w.flights a ≡ []
      → Runs w a
          (flushed sql_text a order selection retain_ids newest_first locked late remote display
            quoted lower map_entry flush_locked flush_late by_time w.db s).0
  unfolding flushed
  Runs-flushed w s sorted idle =
      flush_pending-Runs remote display sql_text quoted a flush_locked flush_late by_time w s sorted
        idle

  Runs-browsed_at :
      (now : String) (w : World) (db : Db) (browsed : Result String SnapshotData × S)
      → Runs w a db
      → Runs w a
          (on_browsed sql_text a order selection retain_ids newest_first locked late remote display
            quoted lower map_entry flush_locked flush_late by_time now db browsed).0
  Runs-browsed_at now w db browsed run =
      let after = λ (x : Db).
        (on_browsed sql_text a order selection retain_ids newest_first locked late remote display
          quoted lower map_entry flush_locked flush_late by_time now x browsed).0 in
      subst (λ (x : Db). Runs w a (after x)) run.ends
        (Runs-then w run.final a (after run.final.db) run.steps
          (Runs-on_browsed now run.final browsed run.idle))

  -- The database that a refresh leaves is the one of a run.
  sync-Runs :
      (gate : Bool) (now : String) (w : World) (s : S)
      → IsOrdering by_time
      → w.flights a ≡ []
      → Runs w a
          (sync sql_text a order selection retain_ids newest_first locked late remote display quoted
            lower map_entry flush_locked flush_late by_time gate now w.db s).0
  unfolding sync sync_serialized
  sync-Runs gate now w s sorted idle =
      let (db', s', _) =
        flushed sql_text a order selection retain_ids newest_first locked late remote display quoted
          lower map_entry flush_locked flush_late by_time w.db s in
      elim (Bool-cases gate) [
        | inr shut ↦ rw shut (record { final = w; steps = here; ends = refl; idle = idle })
        | inl had ↦ rw had (
            Runs-browsed_at now w db'
              (browse remote display sql_text quoted lower map_entry selection s')
              (Runs-flushed w s sorted idle))
      ]

  -- From every world that the operations can lead to, in which no flush of the account is under way, a
  -- refresh at any server and clock leaves a consistent database.
  sync-IsConsistent :
      (gate : Bool) (now : String) (w : World) (s : S)
      → IsOrdering by_time
      → Reach first_world w
      → w.flights a ≡ []
      → IsConsistent
          (sync sql_text a order selection retain_ids newest_first locked late remote display quoted
            lower map_entry flush_locked flush_late by_time gate now w.db s).0
  sync-IsConsistent gate now w s sorted reached idle =
      let run = sync-Runs gate now w s sorted idle in
      subst IsConsistent run.ends (Reach-IsConsistent (Reach-trans reached run.steps)).1
