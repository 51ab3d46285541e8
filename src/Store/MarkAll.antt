-- ===== src/Store/MarkAll.antt =====
-- The whole loop of `set_read`, seen through the entries and the pending mutations.
use mathlib.Core.Option
use flux_bar.Prelude.{
  ◌≡◌, refl, ap, ◌∙◌, Bool, false, ◌&&◌, Option, none, some, List, [], ◌∷◌, String, ◌==◌, ℤ, id_eq,
  id_eq_iff, arith, if◌then◌else◌, Bool-cases, inl, inr,
}
use flux_bar.Store.Schema.{Db, EntryRow}
use flux_bar.Store.Mutations.{read_text, with_status}
use flux_bar.Store.Views.{
  entry_at, pending_at, same_entry, same_entry-account, same_pending, bumped,
}
use flux_bar.Store.ReadState.{listed, changes, step_entry, step_entries}
use flux_bar.Store.MarkViews.{entry_at-step_entry, pending_at-step_entry}
use flux_bar.Store.MarkLoop.{changes-with_status}

with_status_idem :
    (s : String) (found : Option EntryRow)
    → Option.map (with_status s) (Option.map (with_status s) found)
      ≡ Option.map (with_status s) found
with_status_idem s none = refl
with_status_idem s (some e) = refl

-- The status of an entry that a step found, tested again after it.
pub changes-step :
    (now : ℤ → String) (a : String) (read undoable : Bool) (batch : String) (id : ℤ) (db : Db)
    (j : ℤ)
    → changes read (entry_at a j (step_entry now a read undoable batch id db))
      ≡ (if id_eq id j then false else changes read (entry_at a j db))
changes-step now a read undoable batch id db j =
    ap (changes read) (entry_at-step_entry now a read undoable batch id db a j)
    ∙ rw (same_entry-account a id j) (elim (Bool-cases (id_eq id j)) [
      | inl same ↦ rw same (changes-with_status read (entry_at a j db))
      | inr apart ↦ rw apart
    ])

module _ (now : ℤ → String) (a : String) (read undoable : Bool) (batch : String) where
  pub entry_at-step_entries :
      (ids : List ℤ) (db : Db) (b : String) (j : ℤ)
      → entry_at b j (step_entries now a read undoable batch ids db) ≡ (
          if a == b && listed j ids
          then Option.map (with_status (read_text read)) (entry_at b j db)
          else entry_at b j db)
  unfolding step_entries listed same_entry
  entry_at-step_entries [] db b j = ground arith
  entry_at-step_entries (id ∷ ids) db b j =
      let next = step_entry now a read undoable batch id db in
      ground (
        arith,
        entry_at-step_entries ids next b j,
        entry_at-step_entry now a read undoable batch id db b j,
        with_status_idem (read_text read) (entry_at b j db),
      )

  pub pending_at-step_entries :
      (ids : List ℤ) (db : Db) (b : String) (j : ℤ) (g : String)
      → pending_at b j g (step_entries now a read undoable batch ids db) ≡ (
          if (a == b && "read" == g) && (listed j ids && changes read (entry_at a j db))
          then some (bumped (now j) a j "read" read (pending_at b j g db))
          else pending_at b j g db)
  unfolding step_entries listed same_pending
  pending_at-step_entries [] db b j g = ground arith
  pending_at-step_entries (id ∷ ids) db b j g =
      let next = step_entry now a read undoable batch id db in
      ground (
        arith,
        pending_at-step_entries ids next b j g,
        pending_at-step_entry now a read undoable batch id db b j g,
        changes-step now a read undoable batch id db j,
        id_eq_iff id j,
      )
