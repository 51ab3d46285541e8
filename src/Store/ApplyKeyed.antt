-- ===== src/Store/ApplyKeyed.antt =====
-- `apply_snapshot` of store.rs keeps the primary keys and the entries, and leaves the pending
-- mutations and the undo items alone.

use flux_bar.Prelude.{
  ◌≡◌, refl, ◌∙◌, true, List, [], ◌∷◌, String, ◌==◌, eq_iff, ℤ, id_eq_iff, arith, Bool-cases, inl,
  inr, ok, >>=-eq-ok, ok-injective, ◌&&◌,
}
use mathlib.Core.Path.{subst}
use flux_bar.Sql.{exists_row}
use flux_bar.Sql.Keys.{count_rows-update_where, count_rows-upsert}
use flux_bar.Domain.Selection.{Selection, is_unread_only}
use flux_bar.Domain.Navigation.{Category}
use flux_bar.Domain.Entry.{Entry}
use flux_bar.Store.Schema.{Db, CategoryRow, FeedRow, EntryRow, entry_key, pending_key}
use flux_bar.Store.Apply.{
  SnapshotData, reconcile_rows, reconcile_if_complete, replace_navigation, write_totals, remote_ids,
  is_vanished, is_starred, apply_entry, apply_entries, apply_snapshot, merge_remote, remote_row,
  mark_vanished_read, mark_vanished_unstarred, is_complete, normalize_selection,
}
use flux_bar.Store.Views.{entry_at, same_entry}
use flux_bar.Store.ApplyViews.{entry_at-apply_entry, reconciled, entry_at-reconcile_rows}
use flux_bar.Store.Keyed.{IsKeyed}
use flux_bar.Store.Undoable.{Stays, map-ne}

-- What a part of the transaction keeps.
pub record Keeps (db db' : Db) : Type 0 where
  pub entries : Stays db db'
  pub keyed : IsKeyed db → IsKeyed db'
  pub pending : db'.pending_mutations ≡ db.pending_mutations
  pub undo : db'.undo_items ≡ db.undo_items

Keeps-then : (db db' db'' : Db) → Keeps db db' → Keeps db' db'' → Keeps db db''
Keeps-then db db' db'' k l = record {
  entries = record { stays = λ a j h. l.entries.stays a j (k.entries.stays a j h) };
  keyed = λ h. l.keyed (k.keyed h);
  pending = l.pending ∙ k.pending;
  undo = l.undo ∙ k.undo;
}

-- The columns outside of these three tables.
Keeps-same :
    (db db' : Db)
    → db'.entries ≡ db.entries
    → db'.pending_mutations ≡ db.pending_mutations
    → db'.undo_items ≡ db.undo_items
    → Keeps db db'
Keeps-same db db' entries pending undo = record {
  entries = record { stays = λ a j h. rw entries h };
  keyed = λ k. record {
    entries = λ a j. rw entries (k.entries a j);
    pending = λ a j g. rw pending (k.pending a j g);
  };
  pending = pending;
  undo = undo;
}

entry_key-covers :
    (a : String) (e : Entry) (b : String) (j : ℤ)
    → entry_key b j (remote_row a e) ≡ true
    → (r : EntryRow) → entry_key b j r ≡ true
    → entry_key a e.id r ≡ true
unfolding entry_key remote_row
entry_key-covers a e b j own r h = ground (
  arith,
  eq_iff a b,
  id_eq_iff e.id j,
  eq_iff r.account_id b,
  id_eq_iff r.id j,
  eq_iff r.account_id a,
  id_eq_iff r.id e.id,
)

Keeps-apply_entry : (a : String) (e : Entry) (db : Db) → Keeps db (apply_entry a e db)
unfolding apply_entry
Keeps-apply_entry a e db = record {
  entries = record {
    stays = λ b j h. elim (Bool-cases (same_entry a e.id b j)) [
      | inl own ↦ rw (entry_at-apply_entry a e db b j, own) (λ k. cc k)
      | inr apart ↦ rw (entry_at-apply_entry a e db b j, apart) h
    ];
  };
  keyed = λ k. record {
    entries = λ b j.
        count_rows-upsert (entry_key b j) (entry_key a e.id)
          (merge_remote a e (exists_row (pending_key a e.id "read") db.pending_mutations)
            (exists_row (pending_key a e.id "starred") db.pending_mutations))
          (remote_row a e) db.entries (λ r. unfold entry_key merge_remote in refl)
          (entry_key-covers a e b j) (k.entries b j);
    pending = k.pending;
  };
  pending = refl;
  undo = refl;
}

Keeps-apply_entries : (a : String) (es : List Entry) (db : Db) → Keeps db (apply_entries a es db)
unfolding apply_entries
Keeps-apply_entries a [] db = Keeps-same db db refl refl refl
Keeps-apply_entries a (e ∷ es) db =
    Keeps-then db (apply_entry a e db) (apply_entries a es (apply_entry a e db))
      (Keeps-apply_entry a e db) (Keeps-apply_entries a es (apply_entry a e db))

count-reconcile_rows :
    (a : String) (selection : Selection) (ids : List ℤ) (db : Db)
    → IsKeyed db
    → IsKeyed (reconcile_rows a selection ids db)
unfolding reconcile_rows
count-reconcile_rows a selection ids db k = elim (Bool-cases (is_unread_only selection)) [
  | inl unread ↦ rw unread (record {
    entries = λ b j.
        rw
          (count_rows-update_where (entry_key b j)
            (λ r. is_vanished a selection ids r && r.remote_status == "unread")
            (mark_vanished_read db.pending_mutations) db.entries (λ r. unfold entry_key in refl))
          (k.entries b j);
    pending = k.pending;
  })
  | inr all ↦ elim (Bool-cases (is_starred selection)) [
    | inl star ↦
        rw (all, star)
          (record {
            entries = λ b j.
                rw
                  (count_rows-update_where (entry_key b j)
                    (λ r. is_vanished a selection ids r && r.remote_starred)
                    (mark_vanished_unstarred db.pending_mutations) db.entries
                    (λ r. unfold entry_key in refl))
                  (k.entries b j);
            pending = k.pending;
          })
    | inr neither ↦ rw (all, neither) (record { entries = k.entries; pending = k.pending })
  ]
]

Keeps-reconcile_rows :
    (a : String) (selection : Selection) (ids : List ℤ) (db : Db)
    → Keeps db (reconcile_rows a selection ids db)
Keeps-reconcile_rows a selection ids db = record {
  entries = record {
    stays = λ b j h.
        rw (entry_at-reconcile_rows a selection ids db b j)
          (map-ne (reconciled a selection ids db.pending_mutations) (entry_at b j db) h);
  };
  keyed = count-reconcile_rows a selection ids db;
  pending = unfold reconcile_rows in refl;
  undo = unfold reconcile_rows in refl;
}

Keeps-reconcile_if_complete :
    (a : String) (selection : Selection) (snapshot : SnapshotData) (db db' : Db)
    → reconcile_if_complete a selection snapshot db ≡ ok db'
    → Keeps db db'
unfolding reconcile_if_complete
Keeps-reconcile_if_complete a selection snapshot db db' h =
    elim (Bool-cases (is_complete selection snapshot)) [
      | inl complete ↦
          let (ids, _, done) =
            >>=-eq-ok (remote_ids snapshot.entries [])
              (λ ids. ok (reconcile_rows a selection ids db)) (rw complete at h) in
          subst (Keeps db) (ok-injective done) (Keeps-reconcile_rows a selection ids db)
      | inr partial ↦
          subst (Keeps db) (ok-injective (rw partial at h)) (Keeps-same db db refl refl refl)
    ]

Keeps-replace_navigation :
    (a : String) (categories : List Category) (db db' : Db)
    → replace_navigation a categories db ≡ ok db'
    → Keeps db db'
unfolding replace_navigation
Keeps-replace_navigation a categories db db' h =
    let (rows, _, done) =
      >>=-eq-ok _
        (λ (rows : List CategoryRow × List FeedRow).
          ok (record db { categories = rows.0; feeds = rows.1 }))
        h in
    subst (Keeps db) (ok-injective done)
      (Keeps-same db (record db { categories = rows.0; feeds = rows.1 }) refl refl refl)

pub Keeps-apply_snapshot :
    (now a : String) (snapshot : SnapshotData) (db db' : Db)
    → apply_snapshot now a snapshot db ≡ ok db'
    → Keeps db db'
unfolding apply_snapshot write_totals
Keeps-apply_snapshot now a snapshot db db' h =
    let selection = normalize_selection snapshot.selection in
    let counted = write_totals now a selection snapshot db in
    let (mid, first, rest) = >>=-eq-ok (reconcile_if_complete a selection snapshot counted) _ h in
    let (replaced, second, done) =
      >>=-eq-ok (replace_navigation a snapshot.categories mid) _ rest in
    subst (Keeps db) (ok-injective done) (
      Keeps-then db replaced (apply_entries a snapshot.entries replaced)
        (Keeps-then db mid replaced
          (Keeps-then db counted mid (Keeps-same db counted refl refl refl)
            (Keeps-reconcile_if_complete a selection snapshot counted mid first))
          (Keeps-replace_navigation a snapshot.categories mid replaced second))
        (Keeps-apply_entries a snapshot.entries replaced))
