-- ===== src/Sql/Keys.antt =====
-- Primary keys under the SQL statements: a test that at most one row passes.
use flux_bar.Prelude.{
  ◌≤◌, ◌≡◌, refl, Bool, true, false, none, some, List, [], ◌∷◌, arith, if◌then◌else◌, Bool-cases,
  inl, inr,
}
use flux_bar.Sql.{find_row, count_rows, update_where, delete_where, upsert}

module _ {ℓ} {R : Type ℓ} where
  pub count_rows-update_where :
      (q p : R → Bool) (f : R → R) (rs : List R)
      → ((r : R) → q (f r) ≡ q r)
      → count_rows q (update_where p f rs) ≡ count_rows q rs
  unfolding count_rows update_where
  count_rows-update_where q p f [] keep = refl
  count_rows-update_where q p f (r ∷ rs) keep =
      ground (arith, keep r, count_rows-update_where q p f rs keep)

  pub count_rows-delete_where :
      (q p : R → Bool) (rs : List R) → count_rows q (delete_where p rs) ≤ count_rows q rs
  unfolding count_rows delete_where
  count_rows-delete_where q p [] = omega arith
  count_rows-delete_where q p (r ∷ rs) = ground (arith, count_rows-delete_where q p rs)

  pub count_rows-upsert_ne :
      (q p : R → Bool) (f : R → R) (row : R) (rs : List R)
      → ((r : R) → q (f r) ≡ q r)
      → q row ≡ false
      → count_rows q (upsert p f row rs) ≡ count_rows q rs
  unfolding count_rows upsert
  count_rows-upsert_ne q p f row [] keep h = rw h
  count_rows-upsert_ne q p f row (r ∷ rs) keep h =
      ground (arith, keep r, count_rows-upsert_ne q p f row rs keep h)

  upsert_inside :
      (q p : R → Bool) (f : R → R) (row : R) (rs : List R)
      → ((r : R) → q (f r) ≡ q r)
      → ((r : R) → q r ≡ true → p r ≡ true)
      → count_rows q rs ≤ 1
      → count_rows q (upsert p f row rs) ≤ 1
  unfolding count_rows upsert
  upsert_inside q p f row [] keep inside h = ground arith
  upsert_inside q p f row (r ∷ rs) keep inside h =
      ground (arith, keep r, inside r, upsert_inside q p f row rs keep inside)

  -- An upsert whose conflict test covers the new row's key adds no second row with that key.
  pub count_rows-upsert :
      (q p : R → Bool) (f : R → R) (row : R) (rs : List R)
      → ((r : R) → q (f r) ≡ q r)
      → (q row ≡ true → (r : R) → q r ≡ true → p r ≡ true)
      → count_rows q rs ≤ 1
      → count_rows q (upsert p f row rs) ≤ 1
  count_rows-upsert q p f row rs keep covers h = elim (Bool-cases (q row)) [
    | inl own ↦ upsert_inside q p f row rs keep (covers own) h
    | inr other ↦ rw (count_rows-upsert_ne q p f row rs keep other) h
  ]

  find_row-none : (q : R → Bool) (rs : List R) → count_rows q rs ≤ 0 → find_row q rs ≡ none
  unfolding count_rows find_row
  find_row-none q [] h = refl
  find_row-none q (r ∷ rs) h = ground (arith, find_row-none q rs)

  -- A DELETE removes the one row with a key exactly if it addresses that row.
  pub find_row-delete_key :
      (q p : R → Bool) (rs : List R)
      → count_rows q rs ≤ 1
      → find_row q (delete_where p rs)
        ≡ elim (find_row q rs) [ none ↦ none | some r ↦ if p r then none else some r ]
  unfolding count_rows find_row delete_where
  find_row-delete_key q p [] h = refl
  find_row-delete_key q p (r ∷ rs) h = ground (
    arith,
    find_row-delete_key q p rs,
    find_row-none q rs,
    find_row-none q (delete_where p rs),
    count_rows-delete_where q p rs,
  )
