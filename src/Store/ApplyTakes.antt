-- ===== src/Store/ApplyTakes.antt =====
-- What `apply_snapshot` of store.rs takes over from the server, and what it leaves to the user.
use mathlib.Core.Path.{subst}
use flux_bar.Prelude.{
  ◌≡◌, refl, sym, ◌∙◌, false, some, List, [], ◌∷◌, ◌++◌, String, ℤ, id_eq, Option-cases, inl, inr,
  ok, >>=-eq-ok, ok-injective, eq_refl,
}
use flux_bar.Sql.Laws.{find_row-holds}
use flux_bar.Domain.Entry.{Entry, as_str}
use flux_bar.Store.Schema.{Db, EntryRow, entry_key}
use flux_bar.Store.Apply.{
  SnapshotData, reconcile_if_complete, replace_navigation, write_totals, apply_entry, apply_entries,
  apply_snapshot, merge_remote, remote_row, normalize_selection,
}
use flux_bar.Store.Views.{entry_at, pending_at, same_entry}
use flux_bar.Store.ApplyViews.{entry_key-columns, is_pending, applied, apply_self, apply_ne}
use flux_bar.Store.ApplyKeyed.{Keeps-apply_snapshot}
use flux_bar.Store.Consistency.{IsConsistent}
use flux_bar.Store.ApplyConsistency.{apply_snapshot-IsConsistent}

-- None of the entries has the identifier.
abbrev pub Unlisted : ℤ → List Entry → Type 0
Unlisted i [] = Unit
Unlisted i (e ∷ es) = (id_eq e.id i ≡ false) × Unlisted i es

-- The entry is stored with all columns that the server gives, up to the effective status and star.
abbrev pub IsTaken : String → Entry → Db → Type 0
IsTaken a e db =
    (r : EntryRow) × (entry_at a e.id db ≡ some r)
    × (record r { status = as_str e.status; starred = e.starred } ≡ remote_row a e)

module _ (a : String) (e : Entry) where
  IsTaken-apply_entry : (db : Db) → IsTaken a e (apply_entry a e db)
  unfolding applied merge_remote remote_row
  IsTaken-apply_entry db = elim (Option-cases (entry_at a e.id db)) [
    | inl missing ↦ (remote_row a e, apply_self a e db ∙ rw missing refl, refl)
    | inr (r, found) ↦
        let (account, id) =
          entry_key-columns a e.id r (find_row-holds (entry_key a e.id) db.entries r found) in
        (
          merge_remote a e (is_pending (pending_at a e.id "read" db))
              (is_pending (pending_at a e.id "starred" db)) r,
          apply_self a e db ∙ rw found refl,
          rw (account, id) refl,
        )
  ]

  IsTaken-later :
      (later : List Entry) (db : Db)
      → Unlisted e.id later
      → IsTaken a e db
      → IsTaken a e (apply_entries a later db)
  unfolding apply_entries same_entry
  IsTaken-later [] db none_of taken = taken
  IsTaken-later (x ∷ later) db (other, none_of) (r, found, columns) =
      IsTaken-later later (apply_entry a x db) none_of
        (r, apply_ne a x db a e.id (rw (eq_refl a, other) refl) ∙ found, columns)

  IsTaken-apply_entries :
      (before later : List Entry) (db : Db)
      → Unlisted e.id later
      → IsTaken a e (apply_entries a (before ++ (e ∷ later)) db)
  unfolding apply_entries
  IsTaken-apply_entries [] later db none_of =
      IsTaken-later later (apply_entry a e db) none_of (IsTaken-apply_entry db)
  IsTaken-apply_entries (x ∷ before) later db none_of =
      IsTaken-apply_entries before later (apply_entry a x db) none_of

-- A snapshot of the server that is applied to a consistent database leaves the queue of the user's
-- changes as it was; the entry that the snapshot has last of an identifier is stored with all columns
-- that the server gives, but for its effective status and star; and the database is consistent, so that
-- these two are, of every entry, the queued ones where a change is pending, and the stored ones of the
-- server otherwise.
pub apply_snapshot-IsTaken :
    (now a : String) (snapshot : SnapshotData) (db db' : Db) (before later : List Entry) (e : Entry)
    → IsConsistent db
    → snapshot.entries ≡ before ++ (e ∷ later)
    → Unlisted e.id later
    → apply_snapshot now a snapshot db ≡ ok db'
    → (db'.pending_mutations ≡ db.pending_mutations) × IsTaken a e db' × IsConsistent db'
unfolding apply_snapshot
apply_snapshot-IsTaken now a snapshot db db' before later e c listed none_of h =
    let selection = normalize_selection snapshot.selection in
    let counted = write_totals now a selection snapshot db in
    let (mid, first, rest) = >>=-eq-ok (reconcile_if_complete a selection snapshot counted) _ h in
    let (replaced, second, done) =
      >>=-eq-ok (replace_navigation a snapshot.categories mid) _ rest in
    (
      (Keeps-apply_snapshot now a snapshot db db' h).pending,
      subst (IsTaken a e) (ok-injective done) (
          subst (λ (es : List Entry). IsTaken a e (apply_entries a es replaced)) (sym listed)
            (IsTaken-apply_entries a e before later replaced none_of)),
      apply_snapshot-IsConsistent now a snapshot db db' c h,
    )
