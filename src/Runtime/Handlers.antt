-- ===== src/Runtime/Handlers.antt =====
-- The handlers of `AppRuntime` in rust-core/src/runtime.rs, on the services as an interface.
use flux_bar.Prelude.{
  ℕ, Bool, Option, none, some, List, [], ◌∷◌, String, ℤ, pos, ltb_ℤ, Result, ok, err, if◌then◌else◌,
  true,
}
use flux_bar.Domain.Selection as Domain
use flux_bar.Store.Mutations.{MutationReceipt}
use flux_bar.Store.Apply.{SnapshotData}
use flux_bar.Sync.Service.{SyncResult, success, partial}
use flux_bar.Transport.Request.{Selection, to_domain}
use flux_bar.Transport.Response.{
  Response, Icon, Receipt, default_response, ok_response, error_response, not_configured, assemble,
}
use flux_bar.Runtime.Session.{AppRuntime, current_engine}

-- The services: `W` is the database, the servers, the clock and the schedules. A method is called on
-- the number of a service.
pub record Engine (W : Type 0) : Type 0 where
  pub local_snapshot : ℕ → Domain.Selection → List ℤ → W → Result String SnapshotData × W
  pub sync : ℕ → Domain.Selection → List ℤ → W → Result String SyncResult × W
  pub mark_read :
      ℕ
      → Domain.Selection
      → List ℤ
      → List ℤ
      → Bool
      → Bool
      → W
      → Result String (SnapshotData × Option MutationReceipt) × W
  pub set_starred : ℕ → Domain.Selection → ℤ → Bool → List ℤ → W → Result String SnapshotData × W
  pub undo : ℕ → Domain.Selection → String → List ℤ → W → Result String SnapshotData × W
  pub discard_undo : ℕ → String → W → Result String (Unit {0}) × W
  pub flush_and_snapshot : ℕ → Domain.Selection → List ℤ → W → Result String SnapshotData × W
  pub feed_icon : ℕ → ℤ → W → Icon × W
  pub set_newest_first : ℕ → Bool → W → W

unfoldable pub snapshot_response : SnapshotData → Response
snapshot_response shown = record default_response { ok = true; snapshot = some (assemble shown) }

unfoldable pub snapshot_result : Result String SnapshotData → Response
unfolding snapshot_response error_response
snapshot_result (ok shown) = snapshot_response shown
snapshot_result (err e) = error_response e

unfoldable pub sync_result : Result String SyncResult → Response
unfolding snapshot_response error_response
sync_result (ok (success shown)) = snapshot_response shown
sync_result (ok (partial shown e)) = record (snapshot_response shown) { error = e }
sync_result (err e) = error_response e

abbrev pub receipt_of : Option MutationReceipt → Option Receipt
receipt_of none = none
receipt_of (some r) = some (record { id = r.id; count = r.count })

unfoldable pub marked_result : Result String (SnapshotData × Option MutationReceipt) → Response
unfolding snapshot_response error_response
marked_result (ok (shown, receipt)) = record (snapshot_response shown) {
  receipt = receipt_of receipt;
}
marked_result (err e) = error_response e

unfoldable pub unit_result : Result String (Unit {0}) → Response
unfolding ok_response error_response
unit_result (ok _) = ok_response
unit_result (err e) = error_response e

unfoldable pub icon_response : Icon → Response
icon_response icon = record default_response { ok = true; icon = some icon }

-- `vec![entry_id]` if there are no ids but this one.
unfoldable pub chosen_ids : ℤ → List ℤ → List ℤ
chosen_ids entry_id [] = if ltb_ℤ (pos 0) entry_id then entry_id ∷ [] else []
chosen_ids entry_id (id ∷ ids) = id ∷ ids

abbrev pub on_first : {A B W : Type 0} → (A → B) → A × W → B × W
on_first f (a, w) = (f a, w)

module _ {W : Type 0} (engine : Engine W) where
  -- `let Some(engine) = self.current_engine() else { ... }`
  unfoldable pub with_engine : AppRuntime → (ℕ → W → Response × W) → W → Response × W
  with_engine runtime handler w = elim (current_engine runtime) [
    | none ↦ (not_configured, w)
    | some service ↦ handler service w
  ]

  abbrev pub handle_local_snapshot : Selection → List ℤ → ℕ → W → Response × W
  handle_local_snapshot selection retain_ids service w =
      on_first snapshot_result (engine.local_snapshot service (to_domain selection) retain_ids w)

  abbrev pub handle_refresh : Selection → List ℤ → ℕ → W → Response × W
  handle_refresh selection retain_ids service w =
      on_first sync_result (engine.sync service (to_domain selection) retain_ids w)

  abbrev pub mark_ids : Selection → List ℤ → List ℤ → Bool → Bool → ℕ → W → Response × W
  mark_ids selection [] retain_ids read automatic service w =
      (error_response "missing entry IDs", w)
  mark_ids selection (id ∷ ids) retain_ids read automatic service w =
      on_first marked_result
        (engine.mark_read service (to_domain selection) (id ∷ ids) retain_ids read automatic w)

  abbrev pub handle_set_read : Selection → ℤ → List ℤ → List ℤ → Bool → Bool → ℕ → W → Response × W
  handle_set_read selection entry_id entry_ids retain_ids read automatic =
      mark_ids selection (chosen_ids entry_id entry_ids) retain_ids read automatic

  abbrev pub handle_set_starred : Selection → ℤ → List ℤ → Bool → ℕ → W → Response × W
  handle_set_starred selection entry_id retain_ids starred service w =
      on_first snapshot_result
        (engine.set_starred service (to_domain selection) entry_id starred retain_ids w)

  abbrev pub handle_undo_read : Selection → String → List ℤ → ℕ → W → Response × W
  handle_undo_read selection mutation_id retain_ids service w =
      on_first snapshot_result (engine.undo service (to_domain selection) mutation_id retain_ids w)

  abbrev pub handle_discard_undo : String → ℕ → W → Response × W
  handle_discard_undo mutation_id service w =
      on_first unit_result (engine.discard_undo service mutation_id w)

  abbrev pub handle_flush_pending : Selection → List ℤ → ℕ → W → Response × W
  handle_flush_pending selection retain_ids service w =
      on_first snapshot_result
        (engine.flush_and_snapshot service (to_domain selection) retain_ids w)

  abbrev pub handle_feed_icon : ℤ → ℕ → W → Response × W
  handle_feed_icon feed_id service w = on_first icon_response (engine.feed_icon service feed_id w)
