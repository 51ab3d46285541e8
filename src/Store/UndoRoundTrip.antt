-- ===== src/Store/UndoRoundTrip.antt =====
-- `undo` of store.rs after an undoable `set_read`: every entry is as it was.
use mathlib.Core.Option
use mathlib.Core.Path.{subst}
use flux_bar.Prelude.{
  ◌≡◌, refl, ap, sym, ◌∙◌, Bool, true, false, not, ◌&&◌, Option, none, some, List, [], ◌∷◌, ◌++◌,
  String, ◌==◌, eq_refl, ℤ, id_eq, id_eq_iff, id_eq_refl, arith, Bool-cases, inl, inr, ◌⊎◌,
}
use flux_bar.Store.Schema.{Db, EntryRow}
use flux_bar.Store.Mutations.{read_text, with_status}
use flux_bar.Store.Views.{entry_at, same_entry-account}
use flux_bar.Store.ReadState.{listed, changes, step_entry, step_entries}
use flux_bar.Store.MarkViews.{entry_at-step_entry, with_status-same}
use flux_bar.Store.MarkAll.{entry_at-step_entries, changes-step}
use flux_bar.Store.UndoItems.{noted_item, noted_items, restored, restored-append}

-- The entry, if there is one, has a status that undo items can record.
abbrev pub IsKnown : Option EntryRow → Type 0
IsKnown none = Unit
IsKnown (some e) = (e.status ≡ "read") ⊎ (e.status ≡ "unread")

-- Another entry's item restores nothing here, nor does an entry that did not change.
restored-noted_item :
    (a : String) (read : Bool) (batch : String) (id : ℤ) (found v : Option EntryRow) (j : ℤ)
    → (id_eq id j && changes read found) ≡ false
    → restored (noted_item a read batch id found) j v ≡ v
unfolding restored noted_item changes
restored-noted_item a read batch id none v j h = refl
restored-noted_item a read batch id (some e) v j h = ground arith

map-with_status_same :
    (read : Bool) (found : Option EntryRow)
    → changes read found ≡ false
    → Option.map (with_status (read_text read)) found ≡ found
unfolding changes
map-with_status_same read none h = refl
map-with_status_same read (some e) h = ap some (with_status-same read e (ground arith))

-- A known status is the text of the flag that an undo item keeps.
read_text-known : (s : String) → (s ≡ "read") ⊎ (s ≡ "unread") → read_text (s == "read") ≡ s
unfolding read_text
read_text-known s (inl e) = rw e
read_text-known s (inr e) = rw e

not-eq-true : (b : Bool) → not b ≡ true → b ≡ false
not-eq-true b h = ground arith

and-eq-true : (b c : Bool) → (b && c) ≡ true → (b ≡ true) × (c ≡ true)
and-eq-true b c h = ground arith

restored-item :
    (a : String) (read : Bool) (batch : String) (id : ℤ) (e : EntryRow) (s : String)
    → IsKnown (some e)
    → changes read (some e) ≡ true
    → restored (noted_item a read batch id (some e)) id (some (with_status s e)) ≡ some e
unfolding restored noted_item changes
restored-item a read batch id e s known h =
    rw (not-eq-true (e.status == read_text read) h, id_eq_refl id)
      (ap some (λ i. record e { status = read_text-known e.status known i }))

module _ (now : ℤ → String) (a : String) (read : Bool) (batch : String) where
  -- The step of `id` is no change of entry `j`.
  step_keeps :
      (id : ℤ) (db : Db) (j : ℤ)
      → (id_eq id j && changes read (entry_at a id db)) ≡ false
      → entry_at a j (step_entry now a read true batch id db) ≡ entry_at a j db
  step_keeps id db j h =
      entry_at-step_entry now a read true batch id db a j
      ∙ rw (same_entry-account a id j) (elim (Bool-cases (id_eq id j)) [
        | inl same ↦
            let e = (id_eq_iff id j).0 same in
            rw same (map-with_status_same read (entry_at a j db) (rw (same, e) at h))
        | inr apart ↦ rw apart
      ])

  quiet :
      (id : ℤ) (db : Db) (j : ℤ)
      → changes read (entry_at a j db) ≡ false
      → (id_eq id j && changes read (entry_at a id db)) ≡ false
  quiet id db j h = elim (Bool-cases (id_eq id j)) [
    | inl same ↦ rw (same, (id_eq_iff id j).0 same) h
    | inr apart ↦ rw apart
  ]

  -- An entry that has the wanted status gets no item.
  restored-noted_items :
      (ids : List ℤ) (db : Db) (j : ℤ) (v : Option EntryRow)
      → changes read (entry_at a j db) ≡ false
      → restored (noted_items now a read batch ids db) j v ≡ v
  unfolding noted_items
  restored-noted_items [] db j v h = unfold restored in refl
  restored-noted_items (id ∷ ids) db j v h =
      let next = step_entry now a read true batch id db in
      let rest = noted_items now a read batch ids next in
      restored-append (noted_item a read batch id (entry_at a id db)) rest j v
      ∙ ap (restored rest j)
          (restored-noted_item a read batch id (entry_at a id db) v j (quiet id db j h))
      ∙ restored-noted_items ids next j v
          (ap (changes read) (step_keeps id db j (quiet id db j h)) ∙ h)

  -- An entry that changed has the wanted status after the loop, and its other columns.
  changed_entry :
      (id : ℤ) (ids : List ℤ) (db : Db) (e : EntryRow)
      → entry_at a id db ≡ some e
      → entry_at a id (step_entries now a read true batch (id ∷ ids) db)
        ≡ some (with_status (read_text read) e)
  unfolding listed
  changed_entry id ids db e h =
      entry_at-step_entries now a read true batch (id ∷ ids) db a id
      ∙ rw (eq_refl a, id_eq_refl id, h)

  restored_changed :
      (id : ℤ) (ids : List ℤ) (db : Db) (e : EntryRow)
      → entry_at a id db ≡ some e
      → IsKnown (some e)
      → changes read (some e) ≡ true
      → restored
          (noted_items now a read batch (id ∷ ids) db)
          id
          (entry_at a id (step_entries now a read true batch (id ∷ ids) db))
        ≡ some e
  unfolding noted_items
  restored_changed id ids db e found known changed =
      let next = step_entry now a read true batch id db in
      let rest = noted_items now a read batch ids next in
      ap (restored (noted_item a read batch id (entry_at a id db) ++ rest) id)
        (changed_entry id ids db e found)
      ∙ restored-append (noted_item a read batch id (entry_at a id db)) rest id
          (some (with_status (read_text read) e))
      ∙ ap (restored rest id)
          (rw found (restored-item a read batch id e (read_text read) known changed))
      ∙ restored-noted_items ids next id (some e)
          (changes-step now a read true batch id db id ∙ rw (id_eq_refl id))

  restored_here :
      (id : ℤ) (ids : List ℤ) (db : Db) (found : Option EntryRow)
      → entry_at a id db ≡ found
      → IsKnown found
      → changes read found ≡ true
      → restored
          (noted_items now a read batch (id ∷ ids) db)
          id
          (entry_at a id (step_entries now a read true batch (id ∷ ids) db))
        ≡ found
  restored_here id ids db none e known changed = unfold changes in cc
  restored_here id ids db (some r) e known changed = restored_changed id ids db r e known changed

  restored_kept :
      (id : ℤ) (ids : List ℤ) (db : Db) (j : ℤ) (v : Option EntryRow)
      → (id_eq id j && changes read (entry_at a id db)) ≡ false
      → restored (noted_items now a read batch (id ∷ ids) db) j v
        ≡ restored (noted_items now a read batch ids (step_entry now a read true batch id db)) j v
  unfolding noted_items
  restored_kept id ids db j v kept =
      let rest = noted_items now a read batch ids (step_entry now a read true batch id db) in
      restored-append (noted_item a read batch id (entry_at a id db)) rest j v
      ∙ ap (restored rest j) (restored-noted_item a read batch id (entry_at a id db) v j kept)

  -- Replaying the loop's items gives back the entry that the loop found.
  pub restored-step_entries :
      (ids : List ℤ) (db : Db) (j : ℤ)
      → IsKnown (entry_at a j db)
      → restored
          (noted_items now a read batch ids db)
          j
          (entry_at a j (step_entries now a read true batch ids db))
        ≡ entry_at a j db
  unfolding step_entries
  restored-step_entries [] db j known = unfold restored noted_items in refl
  restored-step_entries (id ∷ ids) db j known =
      elim (Bool-cases (id_eq id j && changes read (entry_at a id db))) [
        | inl changed ↦
            let (same, differs) = and-eq-true _ _ changed in
            subst
              (λ k.
                IsKnown (entry_at a k db)
                → restored (noted_items now a read batch (id ∷ ids) db) k
                    (entry_at a k (step_entries now a read true batch (id ∷ ids) db))
                  ≡ entry_at a k db)
              ((id_eq_iff id j).0 same)
              (λ found. restored_here id ids db (entry_at a id db) refl found differs) known
        | inr kept ↦
            let next = step_entry now a read true batch id db in
            restored_kept id ids db j (entry_at a j (step_entries now a read true batch ids next))
              kept
            ∙ restored-step_entries ids next j (subst IsKnown (sym (step_keeps id db j kept)) known)
            ∙ step_keeps id db j kept
      ]
