-- ===== src/Store/ApplyViews.antt =====
-- The writes of `apply_snapshot` of store.rs to the entries, seen through the entries' keys.
use mathlib.Core.Option
use flux_bar.Prelude.{
  ◌≡◌, refl, ◌∙◌, Bool, true, false, ◌&&◌, Option, none, some, List, [], ◌∷◌, String, ◌==◌, eq_iff,
  eq_refl, ℤ, id_eq_iff, id_eq_refl, arith, if◌then◌else◌, Bool-cases, Option-cases, inl, inr,
}
use flux_bar.Sql.{exists_row}
use flux_bar.Sql.Laws.{
  find_row-update_where, find_row-upsert_self, find_row-upsert_ne, exists_row-find_row,
}
use flux_bar.Domain.Selection.{Selection, is_unread_only}
use flux_bar.Domain.Entry.{Entry}
use flux_bar.Store.Schema.{Db, EntryRow, PendingRow, entry_key, pending_key}
use flux_bar.Store.Apply.{
  reconcile_rows, is_vanished, is_starred, mark_vanished_read, mark_vanished_unstarred, apply_entry,
  apply_entries, merge_remote, remote_row,
}
use flux_bar.Store.Views.{entry_at, pending_at, same_entry, same_entry_columns}

pub entry_key-columns :
    (a : String) (i : ℤ) (r : EntryRow) → entry_key a i r ≡ true → (r.account_id ≡ a) × (r.id ≡ i)
unfolding entry_key
entry_key-columns a i r h = ground (arith, eq_iff r.account_id a, id_eq_iff r.id i)

pub entry_key-same :
    (a : String) (i : ℤ) (b : String) (j : ℤ) (r : EntryRow)
    → entry_key a i r ≡ true
    → entry_key b j r ≡ same_entry a i b j
unfolding entry_key same_entry
entry_key-same a i b j r h = let (account, id) = entry_key-columns a i r h in rw (account, id)

-- Something is pending at a key.
unfoldable pub is_pending : Option PendingRow → Bool
is_pending none = false
is_pending (some _) = true

pub exists_pending :
    (b : String) (j : ℤ) (g : String) (db : Db)
    → exists_row (pending_key b j g) db.pending_mutations ≡ is_pending (pending_at b j g db)
exists_pending b j g db =
    exists_row-find_row (pending_key b j g) db.pending_mutations
    ∙ elim (Option-cases (pending_at b j g db)) [
      | inl e ↦ unfold is_pending in rw e
      | inr (p, e) ↦ unfold is_pending in rw e
    ]

-- The row that a remote entry leaves at its key.
unfoldable pub applied :
    String → Entry → Option PendingRow → Option PendingRow → Option EntryRow → EntryRow
applied a e pr ps none = remote_row a e
applied a e pr ps (some r) = merge_remote a e (is_pending pr) (is_pending ps) r

module _ (a : String) (e : Entry) (db : Db) where
  pub apply_self :
      entry_at a e.id (apply_entry a e db)
      ≡ some (
          applied a e
            (pending_at a e.id "read" db)
            (pending_at a e.id "starred" db)
            (entry_at a e.id db))
  unfolding apply_entry applied
  apply_self =
      find_row-upsert_self (entry_key a e.id)
        (merge_remote a e (exists_row (pending_key a e.id "read") db.pending_mutations)
          (exists_row (pending_key a e.id "starred") db.pending_mutations))
        (remote_row a e) db.entries (λ r. unfold entry_key merge_remote in refl)
        (unfold entry_key remote_row in rw (eq_refl a, id_eq_refl e.id))
      ∙ elim (Option-cases (entry_at a e.id db)) [
        | inl missing ↦ rw missing
        | inr (r, found) ↦
            rw (found, exists_pending a e.id "read" db, exists_pending a e.id "starred" db)
      ]

  pub apply_ne :
      (b : String) (j : ℤ)
      → same_entry a e.id b j ≡ false
      → entry_at b j (apply_entry a e db) ≡ entry_at b j db
  unfolding apply_entry
  apply_ne b j apart =
      find_row-upsert_ne (entry_key b j) (entry_key a e.id)
        (merge_remote a e (exists_row (pending_key a e.id "read") db.pending_mutations)
          (exists_row (pending_key a e.id "starred") db.pending_mutations))
        (remote_row a e) db.entries (λ r h. entry_key-same a e.id b j r h ∙ apart)
        (λ r h. unfold entry_key merge_remote in entry_key-same a e.id b j r h ∙ apart)
        (unfold entry_key remote_row same_entry in apart)

  -- A remote entry changes what is found at its own key only.
  pub entry_at-apply_entry :
      (b : String) (j : ℤ)
      → entry_at b j (apply_entry a e db) ≡ (
          if same_entry a e.id b j
          then some (
              applied a e
                (pending_at b j "read" db)
                (pending_at b j "starred" db)
                (entry_at b j db))
          else entry_at b j db)
  entry_at-apply_entry b j = elim (Bool-cases (same_entry a e.id b j)) [
    | inl own ↦
        let (account, id) = same_entry_columns a e.id b j own in
        rw (own, ← account, ← id) apply_self
    | inr apart ↦ rw apart (apply_ne b j apart)
  ]

pub pending-apply_entries :
    (a : String) (es : List Entry) (db : Db)
    → (apply_entries a es db).pending_mutations ≡ db.pending_mutations
unfolding apply_entries apply_entry
pending-apply_entries a [] db = refl
pending-apply_entries a (e ∷ es) db = pending-apply_entries a es (apply_entry a e db)

unfoldable pub vanished_read : String → Selection → List ℤ → List PendingRow → EntryRow → EntryRow
vanished_read a selection ids rows r =
    if is_vanished a selection ids r && r.remote_status == "unread"
    then mark_vanished_read rows r
    else r

unfoldable pub vanished_unstarred :
    String → Selection → List ℤ → List PendingRow → EntryRow → EntryRow
vanished_unstarred a selection ids rows r =
    if is_vanished a selection ids r && r.remote_starred then mark_vanished_unstarred rows r else r

-- What the reconciliation of a complete selection makes of one row.
unfoldable pub reconciled : String → Selection → List ℤ → List PendingRow → EntryRow → EntryRow
unfolding vanished_read vanished_unstarred
reconciled a selection ids rows =
    if is_unread_only selection
    then vanished_read a selection ids rows
    else if is_starred selection
    then vanished_unstarred a selection ids rows
    else (λ r. r)

map-same : (found : Option EntryRow) → found ≡ Option.map (λ (r : EntryRow). r) found
map-same none = refl
map-same (some r) = refl

-- The reconciliation changes what is found at each key by one function of the row.
pub entry_at-reconcile_rows :
    (a : String) (selection : Selection) (ids : List ℤ) (db : Db) (b : String) (j : ℤ)
    → entry_at b j (reconcile_rows a selection ids db)
      ≡ Option.map (reconciled a selection ids db.pending_mutations) (entry_at b j db)
unfolding reconcile_rows reconciled
entry_at-reconcile_rows a selection ids db b j = elim (Bool-cases (is_unread_only selection)) [
  | inl unread ↦
      rw (unread, reconciled)
        (find_row-update_where (entry_key b j)
          (λ r. is_vanished a selection ids r && r.remote_status == "unread")
          (mark_vanished_read db.pending_mutations) db.entries (λ r. unfold entry_key in refl))
  | inr all ↦ elim (Bool-cases (is_starred selection)) [
    | inl star ↦
        rw (all, star, reconciled)
          (find_row-update_where (entry_key b j)
            (λ r. is_vanished a selection ids r && r.remote_starred)
            (mark_vanished_unstarred db.pending_mutations) db.entries
            (λ r. unfold entry_key in refl))
    | inr none_of ↦ rw (all, none_of, reconciled) (map-same (entry_at b j db))
  ]
]
