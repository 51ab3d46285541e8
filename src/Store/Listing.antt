-- ===== src/Store/Listing.antt =====
-- The entries of `local_snapshot`: the selection's test agrees with the domain's, the limit holds,
-- and nothing is listed twice or left out.
use flux_bar.Prelude.{
  ◌≡◌, ◌≤◌, refl, ap, sym, ◌∙◌, Bool, true, not, ◌&&◌, ◌||◌, List, [], ◌∷◌, map, String, ◌==◌,
  eq_iff, suc, ℤ, id_eq, id_eq_iff, id_eq_refl, arith, if◌then◌else◌, length, take, length-take,
  ltb, Bool-cases, inl, inr,
}
use flux_bar.Sql.{select, exists_row, count_rows}
use flux_bar.Sql.Counts.{
  every, every-select, every-take, every-count, count-every, exists-count, count-length,
  length-select, exists-select, take-whole,
}
use flux_bar.Domain.Selection.{Selection, all, unread, starred, category, feed, is_unread_only}
use flux_bar.Domain.Entry.{Entry, matches_scope, matches_read_state, is_unread, parse}
use flux_bar.Store.Schema.{Db, EntryRow}
use flux_bar.Store.Apply.{is_starred}
use flux_bar.Store.Records.{map_entry_row}
use flux_bar.Store.Snapshot.{
  Order, selection_clause, is_selected, is_shown, first_seen, snapshot_entries, snapshot_limit,
}

-- The domain's test of an entry against a selection, with the star of a starred one.
unfoldable pub in_selection : Selection → Entry → Bool
in_selection selection e =
    matches_scope e selection
    && matches_read_state e selection
    && (if is_starred selection then e.starred else true)

unread_parse : (value : String) → is_unread (parse value) ≡ (value == "unread")
unfolding is_unread parse
unread_parse value = elim (Bool-cases (value == "unread")) [
  | inl same ↦ rw ((eq_iff value "unread").0 same) refl
  | inr apart ↦ elim (Bool-cases (value == "read")) [
    | inl read ↦ rw (read, apart)
    | inr neither ↦ rw (neither, apart)
  ]
]

-- The WHERE clause of a selection chooses exactly the account's rows whose entry the domain's
-- `matches_scope` and `matches_read_state` accept, and that have a star for a starred selection.
pub selection_clause-matches :
    (account : String) (selection : Selection) (r : EntryRow)
    → selection_clause account selection r
      ≡ (r.account_id == account && in_selection selection (map_entry_row r))
unfolding selection_clause in_selection is_selected matches_scope matches_read_state is_starred
    is_unread_only map_entry_row
selection_clause-matches account (all _ only) r = ground (arith, unread_parse r.status)
selection_clause-matches account (unread _) r = ground (arith, unread_parse r.status)
selection_clause-matches account (starred only) r = ground (arith, unread_parse r.status)
selection_clause-matches account (category _ only) r = ground (arith, unread_parse r.status)
selection_clause-matches account (feed _ only) r = ground (arith, unread_parse r.status)

-- Two ids of the list are not the same.
unfoldable pub distinct : List Entry → Bool
distinct [] = true
distinct (e ∷ es) = not (exists_row (λ x. id_eq x.id e.id) es) && distinct es

unfoldable pub is_seen : List ℤ → ℤ → Bool
is_seen seen j = exists_row (λ id. id_eq id j) seen

seen_at : (seen : List ℤ) (i j : ℤ) → id_eq i j ≡ true → is_seen seen j ≡ is_seen seen i
seen_at seen i j same = ap (is_seen seen) (sym ((id_eq_iff i j).0 same))

exists-first_seen :
    (seen : List ℤ) (j : ℤ) (es : List Entry)
    → exists_row (λ e. id_eq e.id j) (first_seen seen es)
      ≡ (not (is_seen seen j) && exists_row (λ e. id_eq e.id j) es)
unfolding first_seen exists_row is_seen
exists-first_seen seen j [] = ground arith
exists-first_seen seen j (e ∷ es) = elim (Bool-cases (exists_row (λ id. id_eq id e.id) seen)) [
  | inl again ↦ rw again (ground (arith, exists-first_seen seen j es, seen_at seen e.id j, again))
  | inr new ↦
      rw new (ground (arith, exists-first_seen (e.id ∷ seen) j es, seen_at seen e.id j, new))
]

distinct-first_seen : (seen : List ℤ) (es : List Entry) → distinct (first_seen seen es) ≡ true
unfolding first_seen distinct is_seen exists_row
distinct-first_seen seen [] = refl
distinct-first_seen seen (e ∷ es) = elim (Bool-cases (exists_row (λ id. id_eq id e.id) seen)) [
  | inl again ↦ rw again (distinct-first_seen seen es)
  | inr new ↦ rw new (
      ground (
        arith,
        exists-first_seen (e.id ∷ seen) e.id es,
        id_eq_refl e.id,
        distinct-first_seen (e.id ∷ seen) es,
      ))
]

length-first_seen : (seen : List ℤ) (es : List Entry) → length (first_seen seen es) ≤ length es
unfolding first_seen
length-first_seen seen [] = omega arith
length-first_seen seen (e ∷ es) =
    ground (arith, length-first_seen seen es, length-first_seen (e.id ∷ seen) es)

every-first_seen :
    (p : Entry → Bool) (seen : List ℤ) (es : List Entry)
    → every p es ≡ true
    → every p (first_seen seen es) ≡ true
unfolding first_seen every
every-first_seen p seen [] h = refl
every-first_seen p seen (e ∷ es) h =
    ground (arith, every-first_seen p seen es, every-first_seen p (e.id ∷ seen) es)

-- ORDER BY permutes the rows.
pub record IsSorting (order : Order) : Type 0 where
  pub entries :
      (newest_first : Bool) (p : EntryRow → Bool) (rs : List EntryRow)
      → count_rows p (order.entries newest_first rs) ≡ count_rows p rs

-- What a listed entry is: one of the selection, or one that the caller wants to keep.
unfoldable pub is_listed : Selection → List ℤ → Entry → Bool
is_listed selection retain_ids e =
    in_selection selection e || exists_row (λ id. id_eq id e.id) retain_ids

shown_id : (r : EntryRow) → (map_entry_row r).id ≡ r.id
unfolding map_entry_row
shown_id r = refl

every-map :
    (selection : Selection) (account : String) (retain_ids : List ℤ) (rs : List EntryRow)
    → every (is_shown account selection retain_ids) rs ≡ true
    → every (is_listed selection retain_ids) (map map_entry_row rs) ≡ true
unfolding every is_listed is_shown
every-map selection account retain_ids [] h = refl
every-map selection account retain_ids (r ∷ rs) h = ground (
  arith,
  selection_clause-matches account selection r,
  shown_id r,
  every-map selection account retain_ids rs,
)

exists-map :
    (j : ℤ) (rs : List EntryRow)
    → exists_row (λ e. id_eq e.id j) (map map_entry_row rs) ≡ exists_row (λ r. id_eq r.id j) rs
unfolding exists_row map_entry_row
exists-map j [] = refl
exists-map j (r ∷ rs) = rw (exists-map j rs)

length-map : (rs : List EntryRow) → length (map map_entry_row rs) ≡ length rs
length-map [] = refl
length-map (r ∷ rs) = ap suc (length-map rs)

module _ (order : Order) (sorting : IsSorting order) (account : String) (selection : Selection)
    (newest_first : Bool) (retain_ids : List ℤ) (db : Db) where
  abbrev shown : EntryRow → Bool
  shown = is_shown account selection retain_ids

  abbrev rows : List EntryRow
  rows = order.entries newest_first (select shown db.entries)

  every-rows : every shown rows ≡ true
  every-rows = count-every shown rows (
      sorting.entries newest_first (λ r. not (shown r)) (select shown db.entries)
      ∙ every-count shown (select shown db.entries) (every-select shown db.entries))

  length-rows : length rows ≡ count_rows shown db.entries
  length-rows =
      sym (count-length rows)
      ∙ sorting.entries newest_first (λ _. true) (select shown db.entries)
      ∙ count-length (select shown db.entries)
      ∙ length-select shown db.entries

  exists-rows :
      (j : ℤ)
      → exists_row (λ r. id_eq r.id j) rows ≡ exists_row (λ r. shown r && id_eq r.id j) db.entries
  exists-rows j =
      exists-count (λ r. id_eq r.id j) rows
      ∙ ap (ltb 0) (sorting.entries newest_first (λ r. id_eq r.id j) (select shown db.entries))
      ∙ sym (exists-count (λ r. id_eq r.id j) (select shown db.entries))
      ∙ exists-select shown (λ r. id_eq r.id j) db.entries

  -- At most `SNAPSHOT_LIMIT` entries are listed, none twice, each in the selection or retained; and if
  -- no more than the limit are to be shown, each of them is listed.
  pub snapshot_entries-listed :
      let entries = snapshot_entries order.entries account selection newest_first retain_ids db in
      (length entries ≤ snapshot_limit)
      × (distinct entries ≡ true)
      × (every (is_listed selection retain_ids) entries ≡ true)
      × (count_rows shown db.entries ≤ snapshot_limit
          → (j : ℤ)
          → exists_row (λ e. id_eq e.id j) entries
            ≡ exists_row (λ r. shown r && id_eq r.id j) db.entries)
  unfolding snapshot_entries
  snapshot_entries-listed =
      let page = map map_entry_row (take snapshot_limit rows) in
      (
        omega (
          arith,
          length-first_seen [] page,
          length-map (take snapshot_limit rows),
          length-take snapshot_limit rows,
        ),
        distinct-first_seen [] page,
        every-first_seen (is_listed selection retain_ids) [] page (
            every-map selection account retain_ids (take snapshot_limit rows)
              (every-take shown snapshot_limit rows every-rows)),
        λ few j.
            exists-first_seen [] j page
            ∙ unfold is_seen exists_row in
              exists-map j (take snapshot_limit rows)
              ∙ rw (take-whole snapshot_limit rows (omega (arith, length-rows, few)))
                  (exists-rows j),
      )
