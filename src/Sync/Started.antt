-- ===== src/Sync/Started.antt =====
-- The list of mutations that a flush reads from the queue: each stands for a row of its own.
use flux_bar.Prelude.{
  ◌≤◌, ◌≡◌, sym, ◌∙◌, Bool, true, false, not, ◌&&◌, some, List, [], ◌∷◌, map, String, ◌==◌, eq_iff,
  eq_refl, id_eq_iff, id_eq_refl, arith, nat_eq, Bool-cases, inl, inr,
}
use flux_bar.Sql.{select, find_row, count_rows}
use flux_bar.Sql.Laws.{find_row-holds}
use flux_bar.Sql.Counts.{every, every-select, every-count, count-every}
use flux_bar.Store.Schema.{Db, PendingRow, pending_key}
use flux_bar.Store.Acknowledge.{to_mutation, pending}
use flux_bar.Store.Views.{pending_at, same_pending}
use flux_bar.Store.Keyed.{IsKeyed}
use flux_bar.Sync.FlushLaws.{Apart}
use flux_bar.Sync.InFlight.{HasFields, InFlight, Flying}

-- ORDER BY permutes the rows.
pub record IsOrdering (by_time : List PendingRow → List PendingRow) : Type 0 where
  pub counts :
      (p : PendingRow → Bool) (rs : List PendingRow) → count_rows p (by_time rs) ≡ count_rows p rs

count_rows-select {ℓ} :
    {R : Type ℓ} (p q : R → Bool) (rs : List R) → count_rows q (select p rs) ≤ count_rows q rs
unfolding count_rows select
count_rows-select p q [] = omega arith
count_rows-select p q (r ∷ rs) = ground (arith, count_rows-select p q rs)

find_row-counted {ℓ} :
    {R : Type ℓ} (q : R → Bool) (rs : List R)
    → 1 ≤ count_rows q rs
    → (r : R) × (find_row q rs ≡ some r)
unfolding count_rows find_row
find_row-counted q [] h = absurd (omega (arith, h))
find_row-counted q (r ∷ rs) h = elim (Bool-cases (q r)) [
  | inl hit ↦ (r, rw hit)
  | inr miss ↦ let (x, found) = find_row-counted q rs (rw miss at h) in (x, rw miss found)
]

count_rows-inside {ℓ} :
    {R : Type ℓ} (q key : R → Bool) (rs : List R)
    → ((r : R) → q r ≡ true → key r ≡ true)
    → count_rows q rs ≤ count_rows key rs
unfolding count_rows
count_rows-inside q key [] inside = omega arith
count_rows-inside q key (r ∷ rs) inside =
    ground (arith, inside r, count_rows-inside q key rs inside)

-- The only row with a key is the one that a narrower test finds.
find_row-narrower {ℓ} :
    {R : Type ℓ} (q key : R → Bool) (rs : List R) (r : R)
    → ((x : R) → q x ≡ true → key x ≡ true)
    → count_rows key rs ≤ 1
    → find_row q rs ≡ some r
    → find_row key rs ≡ some r
unfolding count_rows find_row
find_row-narrower q key [] r inside one h = h
find_row-narrower q key (x ∷ xs) r inside one h = ground (
  arith,
  inside x,
  find_row-narrower q key xs r inside,
  count_rows-inside q key xs inside,
  counted xs,
)
  where
    counted : (ys : List _) → find_row q ys ≡ some r → 1 ≤ count_rows q ys
    counted [] found = cc found
    counted (y ∷ ys) found = ground (arith, counted ys)

same_bool : Bool → Bool → Bool
same_bool true b = b
same_bool false b = not b

same_bool-eq : (a b : Bool) → same_bool a b ≡ true → a ≡ b
unfolding same_bool
same_bool-eq a b h = ground arith

same_bool_refl : (b : Bool) → same_bool b b ≡ true
unfolding same_bool
same_bool_refl b = ground arith

-- The columns that the flush reads of a row.
is_like : PendingRow → PendingRow → Bool
is_like p r =
    pending_key p.account_id p.entry_id p.field r
    && nat_eq r.revision p.revision
    && same_bool r.desired p.desired

is_like_refl : (p : PendingRow) → is_like p p ≡ true
unfolding is_like pending_key
is_like_refl p =
    ground (
      arith,
      eq_refl p.account_id,
      id_eq_refl p.entry_id,
      eq_refl p.field,
      same_bool_refl p.desired,
    )

is_like-columns :
    (p r : PendingRow)
    → is_like p r ≡ true
    → (pending_key p.account_id p.entry_id p.field r ≡ true)
      × (r.revision ≡ p.revision)
      × (r.desired ≡ p.desired)
unfolding is_like
is_like-columns p r h = ground (arith, same_bool-eq r.desired p.desired)

module _ (a : String) (db : Db) (k : IsKeyed db) (h : HasFields db) where
  -- A row that is counted in the table is the row at its key.
  InFlight-counted :
      (p : PendingRow)
      → p.account_id ≡ a
      → 1 ≤ count_rows (is_like p) db.pending_mutations
      → InFlight a (to_mutation p) db
  unfolding to_mutation
  InFlight-counted p own there =
      let (r, found) = find_row-counted (is_like p) db.pending_mutations there in
      let (_, revision, desired) =
        is_like-columns p r (find_row-holds (is_like p) db.pending_mutations r found) in
      let at_key : pending_at a p.entry_id p.field db ≡ some r = rw (← own) (
        find_row-narrower (is_like p) (pending_key p.account_id p.entry_id p.field)
          db.pending_mutations r (λ x like. (is_like-columns p x like).0)
          (k.pending p.account_id p.entry_id p.field) found) in
      record {
        row = r;
        queued = at_key;
        newer = omega (arith, revision);
        unchanged = λ _. desired;
        known = h.fields a p.entry_id p.field (λ missing. cc (at_key, missing));
      }

  pending_key-own :
      (p : PendingRow) (q : PendingRow)
      → p.account_id ≡ a
      → q.account_id ≡ a
      → pending_key a p.entry_id p.field q ≡ same_pending a p.entry_id p.field a q.entry_id q.field
  unfolding pending_key same_pending
  pending_key-own p q own other = ground (
    arith,
    eq_iff q.account_id a,
    eq_refl a,
    id_eq_iff q.entry_id p.entry_id,
    id_eq_iff p.entry_id q.entry_id,
    eq_iff q.field p.field,
    eq_iff p.field q.field,
  )

  Apart-counted :
      (p : PendingRow) (rs : List PendingRow)
      → p.account_id ≡ a
      → every (λ (r : PendingRow). r.account_id == a) rs ≡ true
      → count_rows (pending_key a p.entry_id p.field) rs ≤ 0
      → Apart a (to_mutation p) (map to_mutation rs)
  unfolding count_rows every to_mutation
  Apart-counted p [] own all gone = tt
  Apart-counted p (r ∷ rs) own all gone =
      let is_own : (r.account_id ≡ a) × (every (λ (x : PendingRow). x.account_id == a) rs ≡ true) =
        ground (arith, all, eq_iff r.account_id a) in
      let apart : pending_key a p.entry_id p.field r ≡ false = ground (arith, gone) in
      (
        sym (pending_key-own p r own is_own.0) ∙ apart,
        Apart-counted p rs own is_own.1 (ground (arith, gone)),
      )

  Flying-counted :
      (rs : List PendingRow)
      → every (λ (r : PendingRow). r.account_id == a) rs ≡ true
      → ((q : PendingRow → Bool) → count_rows q rs ≤ count_rows q db.pending_mutations)
      → Flying a (map to_mutation rs) db
  unfolding count_rows every
  Flying-counted [] all inside = tt
  Flying-counted (p ∷ rs) all inside =
      let own : (p.account_id ≡ a) × (every (λ (x : PendingRow). x.account_id == a) rs ≡ true) =
        ground (arith, all, eq_iff p.account_id a) in
      let here : pending_key a p.entry_id p.field p ≡ true =
        unfold pending_key in rw (own.0, eq_refl a, id_eq_refl p.entry_id, eq_refl p.field) in
      (
        InFlight-counted p own.0 (ground (arith, inside (is_like p), is_like_refl p)),
        Apart-counted p rs own.0 own.1 (
            ground (
              arith,
              here,
              inside (pending_key a p.entry_id p.field),
              k.pending a p.entry_id p.field,
            )),
        Flying-counted rs own.1 (λ q. ground (arith, inside q)),
      )

  -- What `pending` returns is ready to be sent.
  pub Flying-pending :
      (by_time : List PendingRow → List PendingRow)
      → IsOrdering by_time
      → Flying a (pending by_time a db) db
  unfolding pending
  Flying-pending by_time sorted =
      let rows = select (λ (p : PendingRow). p.account_id == a) db.pending_mutations in
      Flying-counted (by_time rows)
        (count-every (λ (p : PendingRow). p.account_id == a) (by_time rows)
          (sorted.counts (λ p. not (p.account_id == a)) rows
            ∙ every-count (λ (p : PendingRow). p.account_id == a) rows
                (every-select (λ (p : PendingRow). p.account_id == a) db.pending_mutations)))
        (λ q.
          rw (sorted.counts q rows)
            (count_rows-select (λ (p : PendingRow). p.account_id == a) q db.pending_mutations))
