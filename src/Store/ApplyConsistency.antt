-- ===== src/Store/ApplyConsistency.antt =====
-- `apply_snapshot` of store.rs keeps the invariant: pending local values survive, everything else
-- follows the server.
use mathlib.Core.Path.{subst}
use flux_bar.Prelude.{
  ◌≡◌, refl, sym, ◌∙◌, ◌&&◌, Option, none, some, List, [], ◌∷◌, String, ◌==◌, ℤ, Bool-cases,
  Option-cases, inl, inr, ok, >>=-eq-ok, ok-injective,
}
use flux_bar.Sql.Laws.{find_row-holds}
use flux_bar.Domain.Selection.{Selection, is_unread_only}
use flux_bar.Domain.Navigation.{Category}
use flux_bar.Domain.Entry.{Entry}
use flux_bar.Store.Schema.{Db, CategoryRow, FeedRow, EntryRow, PendingRow, entry_key}
use flux_bar.Store.Apply.{
  SnapshotData, reconcile_rows, reconcile_if_complete, replace_navigation, write_totals, remote_ids,
  is_vanished, is_starred, has_pending, apply_entry, apply_entries, apply_snapshot, merge_remote,
  remote_row, mark_vanished_read, mark_vanished_unstarred, is_complete, normalize_selection,
}
use flux_bar.Store.Views.{entry_at, pending_at, same_entry}
use flux_bar.Store.ApplyViews.{
  entry_key-columns, is_pending, exists_pending, applied, entry_at-apply_entry, reconciled,
  vanished_read, vanished_unstarred, entry_at-reconcile_rows,
}
use flux_bar.Store.Consistency.{Agrees, Agrees-of, IsConsistent}

Agrees-applied :
    (a : String) (e : Entry) (found : Option EntryRow) (pr ps : Option PendingRow)
    → Agrees found pr ps
    → Agrees (some (applied a e pr ps found)) pr ps
unfolding applied remote_row merge_remote is_pending
Agrees-applied a e none none none h = (refl, refl)
Agrees-applied a e none (some p) ps h = absurd (cc h.0)
Agrees-applied a e none none (some p) h = absurd (cc h.1)
Agrees-applied a e (some r) none none h = (refl, refl)
Agrees-applied a e (some r) none (some p) h = (refl, h.1)
Agrees-applied a e (some r) (some q) none h = (h.0, refl)
Agrees-applied a e (some r) (some q) (some p) h = (h.0, h.1)

apply_entry-IsConsistent :
    (a : String) (e : Entry) (db : Db) → IsConsistent db → IsConsistent (apply_entry a e db)
unfolding apply_entry
apply_entry-IsConsistent a e db c = record {
  agrees = λ b j. elim (Bool-cases (same_entry a e.id b j)) [
    | inl own ↦
        Agrees-of
          {x' = some (
            applied a e (pending_at b j "read" db) (pending_at b j "starred" db) (entry_at b j db))}
          (entry_at-apply_entry a e db b j ∙ rw own) refl refl
          (Agrees-applied a e (entry_at b j db) (pending_at b j "read" db)
            (pending_at b j "starred" db) (c.agrees b j))
    | inr apart ↦
        Agrees-of {x' = entry_at b j db} (entry_at-apply_entry a e db b j ∙ rw apart) refl refl
          (c.agrees b j)
  ];
}

apply_entries-IsConsistent :
    (a : String) (es : List Entry) (db : Db)
    → IsConsistent db
    → IsConsistent (apply_entries a es db)
unfolding apply_entries
apply_entries-IsConsistent a [] db c = c
apply_entries-IsConsistent a (e ∷ es) db c =
    apply_entries-IsConsistent a es (apply_entry a e db) (apply_entry-IsConsistent a e db c)

module _ (a : String) (selection : Selection) (ids : List ℤ) (rows : List PendingRow)
    (r : EntryRow) where
  gone_read :
      (pr ps : Option PendingRow)
      → has_pending rows "read" r ≡ is_pending pr
      → Agrees (some r) pr ps
      → Agrees (some (mark_vanished_read rows r)) pr ps
  unfolding is_pending
  gone_read none ps hr h = rw hr (refl, h.1)
  gone_read (some q) ps hr h = rw hr (h.0, h.1)

  gone_unstarred :
      (pr ps : Option PendingRow)
      → has_pending rows "starred" r ≡ is_pending ps
      → Agrees (some r) pr ps
      → Agrees (some (mark_vanished_unstarred rows r)) pr ps
  unfolding is_pending
  gone_unstarred pr none hs h = rw hs (h.0, refl)
  gone_unstarred pr (some q) hs h = rw hs (h.0, h.1)

  Agrees-vanished_read :
      (pr ps : Option PendingRow)
      → has_pending rows "read" r ≡ is_pending pr
      → Agrees (some r) pr ps
      → Agrees (some (vanished_read a selection ids rows r)) pr ps
  unfolding vanished_read
  Agrees-vanished_read pr ps hr h =
      elim (Bool-cases (is_vanished a selection ids r && r.remote_status == "unread")) [
        | inl gone ↦ rw gone (gone_read pr ps hr h)
        | inr kept ↦ rw kept h
      ]

  Agrees-vanished_unstarred :
      (pr ps : Option PendingRow)
      → has_pending rows "starred" r ≡ is_pending ps
      → Agrees (some r) pr ps
      → Agrees (some (vanished_unstarred a selection ids rows r)) pr ps
  unfolding vanished_unstarred
  Agrees-vanished_unstarred pr ps hs h =
      elim (Bool-cases (is_vanished a selection ids r && r.remote_starred)) [
        | inl gone ↦ rw gone (gone_unstarred pr ps hs h)
        | inr kept ↦ rw kept h
      ]

  Agrees-reconciled :
      (pr ps : Option PendingRow)
      → has_pending rows "read" r ≡ is_pending pr
      → has_pending rows "starred" r ≡ is_pending ps
      → Agrees (some r) pr ps
      → Agrees (some (reconciled a selection ids rows r)) pr ps
  unfolding reconciled
  Agrees-reconciled pr ps hr hs h = elim (Bool-cases (is_unread_only selection)) [
    | inl unread ↦ rw (unread, reconciled) (Agrees-vanished_read pr ps hr h)
    | inr all ↦ elim (Bool-cases (is_starred selection)) [
      | inl star ↦ rw (all, star, reconciled) (Agrees-vanished_unstarred pr ps hs h)
      | inr neither ↦ rw (all, neither, reconciled) h
    ]
  ]

has_pending-at :
    (b : String) (j : ℤ) (g : String) (db : Db) (r : EntryRow)
    → entry_at b j db ≡ some r
    → has_pending db.pending_mutations g r ≡ is_pending (pending_at b j g db)
unfolding has_pending
has_pending-at b j g db r found =
    let (account, id) =
      entry_key-columns b j r (find_row-holds (entry_key b j) db.entries r found) in
    rw (account, id) (exists_pending b j g db)

reconcile_rows-IsConsistent :
    (a : String) (selection : Selection) (ids : List ℤ) (db : Db)
    → IsConsistent db
    → IsConsistent (reconcile_rows a selection ids db)
unfolding reconcile_rows
reconcile_rows-IsConsistent a selection ids db c = record {
  agrees = λ b j. elim (Option-cases (entry_at b j db)) [
    | inl missing ↦
        Agrees-of {x' = none} (entry_at-reconcile_rows a selection ids db b j ∙ rw missing) refl
          refl (Agrees-of (sym missing) refl refl (c.agrees b j))
    | inr (r, found) ↦
        Agrees-of {x' = some (reconciled a selection ids db.pending_mutations r)}
          (entry_at-reconcile_rows a selection ids db b j ∙ rw found) refl refl
          (Agrees-reconciled a selection ids db.pending_mutations r (pending_at b j "read" db)
            (pending_at b j "starred" db) (has_pending-at b j "read" db r found)
            (has_pending-at b j "starred" db r found)
            (Agrees-of (sym found) refl refl (c.agrees b j)))
  ];
}

reconcile_if_complete-IsConsistent :
    (a : String) (selection : Selection) (snapshot : SnapshotData) (db db' : Db)
    → IsConsistent db
    → reconcile_if_complete a selection snapshot db ≡ ok db'
    → IsConsistent db'
unfolding reconcile_if_complete
reconcile_if_complete-IsConsistent a selection snapshot db db' c h =
    elim (Bool-cases (is_complete selection snapshot)) [
      | inl complete ↦
          let (ids, _, done) =
            >>=-eq-ok (remote_ids snapshot.entries [])
              (λ ids. ok (reconcile_rows a selection ids db)) (rw complete at h) in
          subst IsConsistent (ok-injective done) (reconcile_rows-IsConsistent a selection ids db c)
      | inr partial ↦ subst IsConsistent (ok-injective (rw partial at h)) c
    ]

replace_navigation-IsConsistent :
    (a : String) (categories : List Category) (db db' : Db)
    → IsConsistent db
    → replace_navigation a categories db ≡ ok db'
    → IsConsistent db'
unfolding replace_navigation
replace_navigation-IsConsistent a categories db db' c h =
    let (rows, _, done) =
      >>=-eq-ok _
        (λ (rows : List CategoryRow × List FeedRow).
          ok (record db { categories = rows.0; feeds = rows.1 }))
        h in
    subst IsConsistent (ok-injective done) (record { agrees = c.agrees })

-- `apply_snapshot` keeps the invariant: for every entry the effective status and star are the queued
-- ones where a change is pending, and the server's otherwise.
pub apply_snapshot-IsConsistent :
    (now a : String) (snapshot : SnapshotData) (db db' : Db)
    → IsConsistent db
    → apply_snapshot now a snapshot db ≡ ok db'
    → IsConsistent db'
unfolding apply_snapshot write_totals
apply_snapshot-IsConsistent now a snapshot db db' c h =
    let selection = normalize_selection snapshot.selection in
    let counted = write_totals now a selection snapshot db in
    let (mid, first, rest) = >>=-eq-ok (reconcile_if_complete a selection snapshot counted) _ h in
    let (replaced, second, done) =
      >>=-eq-ok (replace_navigation a snapshot.categories mid) _ rest in
    subst IsConsistent (ok-injective done) (
      apply_entries-IsConsistent a snapshot.entries replaced (
        replace_navigation-IsConsistent a snapshot.categories mid replaced
          (reconcile_if_complete-IsConsistent a selection snapshot counted mid
            (record { agrees = c.agrees }) first)
          second))
