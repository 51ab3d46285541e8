-- ===== src/Sql/Laws.antt =====
-- Laws of the SQL statements: what a query finds after a write.
use mathlib.Core.Option
use flux_bar.Prelude.{
  ◌≡◌, refl, ap, Bool, true, false, ◌||◌, none, some, List, [], ◌∷◌, ◌++◌, arith, length,
  if◌then◌else◌,
}
use flux_bar.Sql.{
  select, find_row, exists_row, count_rows, update_where, delete_where, upsert, append_row,
}

module _ {ℓ} {R : Type ℓ} where
  -- An UPDATE that keeps the tested columns acts on the row that a query finds.
  pub find_row-update_where :
      (q p : R → Bool) (f : R → R) (rs : List R)
      → ((r : R) → q (f r) ≡ q r)
      → find_row q (update_where p f rs) ≡ Option.map (λ r. if p r then f r else r) (find_row q rs)
  unfolding find_row update_where
  find_row-update_where q p f [] keep = refl
  find_row-update_where q p f (r ∷ rs) keep =
      ground (arith, keep r, find_row-update_where q p f rs keep)

  -- Rows that an UPDATE does not address are found unchanged.
  pub find_row-update_where_ne :
      (q p : R → Bool) (f : R → R) (rs : List R)
      → ((r : R) → p r ≡ true → q r ≡ false)
      → ((r : R) → p r ≡ true → q (f r) ≡ false)
      → find_row q (update_where p f rs) ≡ find_row q rs
  unfolding find_row update_where
  find_row-update_where_ne q p f [] apart kept = refl
  find_row-update_where_ne q p f (r ∷ rs) apart kept =
      ground (arith, apart r, kept r, find_row-update_where_ne q p f rs apart kept)

  pub find_row-delete_where :
      (q p : R → Bool) (rs : List R)
      → ((r : R) → p r ≡ true → q r ≡ false)
      → find_row q (delete_where p rs) ≡ find_row q rs
  unfolding find_row delete_where
  find_row-delete_where q p [] apart = refl
  find_row-delete_where q p (r ∷ rs) apart =
      ground (arith, apart r, find_row-delete_where q p rs apart)

  -- After a DELETE no row is found that the DELETE addressed.
  pub find_row-delete_where_all :
      (q p : R → Bool) (rs : List R)
      → ((r : R) → q r ≡ true → p r ≡ true)
      → find_row q (delete_where p rs) ≡ none
  unfolding find_row delete_where
  find_row-delete_where_all q p [] inside = refl
  find_row-delete_where_all q p (r ∷ rs) inside =
      ground (arith, inside r, find_row-delete_where_all q p rs inside)

  -- A row that is found satisfies the test.
  pub find_row-holds : (q : R → Bool) (rs : List R) (r : R) → find_row q rs ≡ some r → q r ≡ true
  unfolding find_row
  find_row-holds q [] r h = cc
  find_row-holds q (x ∷ rs) r h = ground (arith, find_row-holds q rs r)

  -- An upsert is found under its own key: the conflicting row updated, or the new row.
  pub find_row-upsert_self :
      (q : R → Bool) (f : R → R) (row : R) (rs : List R)
      → ((r : R) → q (f r) ≡ q r)
      → q row ≡ true
      → find_row q (upsert q f row rs) ≡ some (elim (find_row q rs) [ none ↦ row | some r ↦ f r ])
  unfolding find_row upsert
  find_row-upsert_self q f row [] keep h = rw h
  find_row-upsert_self q f row (r ∷ rs) keep h =
      ground (arith, keep r, find_row-upsert_self q f row rs keep h)

  pub find_row-upsert_ne :
      (q p : R → Bool) (f : R → R) (row : R) (rs : List R)
      → ((r : R) → p r ≡ true → q r ≡ false)
      → ((r : R) → p r ≡ true → q (f r) ≡ false)
      → q row ≡ false
      → find_row q (upsert p f row rs) ≡ find_row q rs
  unfolding find_row upsert
  find_row-upsert_ne q p f row [] apart kept h = rw h
  find_row-upsert_ne q p f row (r ∷ rs) apart kept h =
      ground (arith, apart r, kept r, find_row-upsert_ne q p f row rs apart kept h)

  pub append_row-append : (row : R) (rs : List R) → append_row row rs ≡ rs ++ row ∷ []
  unfolding append_row
  append_row-append row [] = refl
  append_row-append row (r ∷ rs) = ap (◌∷◌ r) (append_row-append row rs)

  pub exists_row-find_row :
      (q : R → Bool) (rs : List R)
      → exists_row q rs ≡ elim (find_row q rs) [ none ↦ false | some _ ↦ true ]
  unfolding exists_row find_row
  exists_row-find_row q [] = refl
  exists_row-find_row q (r ∷ rs) = ground (arith, exists_row-find_row q rs)

  pub select-update_where_ne :
      (q p : R → Bool) (f : R → R) (rs : List R)
      → ((r : R) → p r ≡ true → q r ≡ false)
      → ((r : R) → p r ≡ true → q (f r) ≡ false)
      → select q (update_where p f rs) ≡ select q rs
  unfolding select update_where
  select-update_where_ne q p f [] apart kept = refl
  select-update_where_ne q p f (r ∷ rs) apart kept =
      ground (arith, apart r, kept r, select-update_where_ne q p f rs apart kept)

  pub select-delete_where_ne :
      (q p : R → Bool) (rs : List R)
      → ((r : R) → p r ≡ true → q r ≡ false)
      → select q (delete_where p rs) ≡ select q rs
  unfolding select delete_where
  select-delete_where_ne q p [] apart = refl
  select-delete_where_ne q p (r ∷ rs) apart =
      ground (arith, apart r, select-delete_where_ne q p rs apart)

  pub select-delete_where_all :
      (q p : R → Bool) (rs : List R)
      → ((r : R) → q r ≡ true → p r ≡ true)
      → select q (delete_where p rs) ≡ []
  unfolding select delete_where
  select-delete_where_all q p [] inside = refl
  select-delete_where_all q p (r ∷ rs) inside =
      ground (arith, inside r, select-delete_where_all q p rs inside)

  pub select-upsert_ne :
      (q p : R → Bool) (f : R → R) (row : R) (rs : List R)
      → ((r : R) → p r ≡ true → q r ≡ false)
      → ((r : R) → p r ≡ true → q (f r) ≡ false)
      → q row ≡ false
      → select q (upsert p f row rs) ≡ select q rs
  unfolding select upsert
  select-upsert_ne q p f row [] apart kept h = rw h
  select-upsert_ne q p f row (r ∷ rs) apart kept h =
      ground (arith, apart r, kept r, select-upsert_ne q p f row rs apart kept h)

  pub select-append_row :
      (q : R → Bool) (row : R) (rs : List R)
      → select q (append_row row rs) ≡ (if q row then append_row row (select q rs) else select q rs)
  unfolding select append_row
  select-append_row q row [] = ground arith
  select-append_row q row (r ∷ rs) = ground (arith, select-append_row q row rs)

  pub count_rows-length : (q : R → Bool) (rs : List R) → count_rows q rs ≡ length (select q rs)
  unfolding count_rows select
  count_rows-length q [] = refl
  count_rows-length q (r ∷ rs) = ground (arith, count_rows-length q rs)

  pub exists_row-append_row :
      (q : R → Bool) (row : R) (rs : List R)
      → exists_row q (append_row row rs) ≡ q row || exists_row q rs
  unfolding exists_row append_row
  exists_row-append_row q row [] = refl
  exists_row-append_row q row (r ∷ rs) = ground (arith, exists_row-append_row q row rs)

  pub exists_row-inside :
      (p q : R → Bool) (rs : List R)
      → ((r : R) → q r ≡ true → p r ≡ true)
      → exists_row p rs ≡ false
      → exists_row q rs ≡ false
  unfolding exists_row
  exists_row-inside p q [] inside h = refl
  exists_row-inside p q (r ∷ rs) inside h =
      ground (arith, inside r, exists_row-inside p q rs inside)

  pub select_none : (p : R → Bool) (rs : List R) → exists_row p rs ≡ false → select p rs ≡ []
  unfolding select exists_row
  select_none p [] h = refl
  select_none p (r ∷ rs) h = ground (arith, select_none p rs)

  pub select-append :
      (p : R → Bool) (xs ys : List R) → select p (xs ++ ys) ≡ select p xs ++ select p ys
  unfolding select
  select-append p [] ys = refl
  select-append p (x ∷ xs) ys = ground (arith, select-append p xs ys)
