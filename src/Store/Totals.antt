-- ===== src/Store/Totals.antt =====
-- The selection, the entries and the total that `local_snapshot` of store.rs returns.
use mathlib.Core.Path.{subst}
use flux_bar.Prelude.{
  ◌≡◌, refl, sym, Bool, List, String, ℤ, pos, ◌≤ℤ◌, max_ℤ, is_i32, Option, none, some, arith, ok,
  >>=-eq-ok, ok-injective, Bool-cases, inl, inr,
}
use flux_bar.Sql.{to_i32, count_rows}
use flux_bar.Domain.Selection.{Selection}
use flux_bar.Store.Schema.{Db}
use flux_bar.Store.Apply.{SnapshotData, normalize_selection}
use flux_bar.Store.Snapshot.{
  navigation, starred_total, selection_total, delta_if, adjusted_total, Order, selection_clause,
  snapshot_entries, local_snapshot,
}

le_adjusted_total :
    (counted : ℤ) (remote : Option ℤ) (delta : ℤ) → counted ≤ℤ adjusted_total counted remote delta
unfolding adjusted_total max_ℤ
le_adjusted_total counted none delta = omega arith
le_adjusted_total counted (some remote) delta = ground arith

to_i32-same : (n m : ℤ) → to_i32 n ≡ ok m → n ≡ m
unfolding to_i32
to_i32-same n m h = elim (Bool-cases (is_i32 n)) [
  | inl fits ↦ ok-injective (rw fits at h)
  | inr out ↦ absurd (cc (rw out at h))
]

-- A local snapshot has the normalized selection, lists its entries, and gives no smaller total than
-- the number of stored articles of the selection.
pub local_snapshot-shows :
    (order : Order) (account : String) (selection : Selection) (newest_first : Bool)
    (retain_ids : List ℤ) (db : Db) (s : SnapshotData)
    → local_snapshot order account selection newest_first retain_ids db ≡ ok s
    → (s.selection ≡ normalize_selection selection)
      × (s.entries
          ≡ snapshot_entries order.entries account
              (normalize_selection selection)
              newest_first
              retain_ids
              db)
      × (pos (count_rows (selection_clause account (normalize_selection selection)) db.entries)
          ≤ℤ s.total)
unfolding local_snapshot
local_snapshot-shows order account selection newest_first retain_ids db s h =
    let (nav, _, h1) = >>=-eq-ok (navigation order.feeds order.categories account db) _ h in
    let (star, _, h2) = >>=-eq-ok (starred_total account db) _ h1 in
    let (counted, local, h3) = >>=-eq-ok (to_i32 _) _ h2 in
    let (remote, _, h4) = >>=-eq-ok (selection_total account _ _ _ db) _ h3 in
    let (delta, _, h5) = >>=-eq-ok (delta_if remote account _ db) _ h4 in
    rw (← ok-injective h5) (
      refl,
      refl,
      subst (λ (n : ℤ). n ≤ℤ adjusted_total counted remote delta)
          (sym (to_i32-same _ counted local)) (le_adjusted_total counted remote delta),
    )
