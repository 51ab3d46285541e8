-- ===== src/Sql/Counts.antt =====
-- Row counts of a table, by which a permuted table is compared with the table.
use flux_bar.Prelude.{
  ◌≡◌, ◌≤◌, refl, ap, Bool, true, not, ◌&&◌, List, [], ◌∷◌, ℕ, zero, suc, arith, length, take, ltb,
}
use flux_bar.Sql.{select, exists_row, count_rows}

module _ {ℓ} {R : Type ℓ} where
  unfoldable pub every : (R → Bool) → List R → Bool
  every p [] = true
  every p (r ∷ rs) = p r && every p rs

  pub every-select : (p : R → Bool) (rs : List R) → every p (select p rs) ≡ true
  unfolding every select
  every-select p [] = refl
  every-select p (r ∷ rs) = ground (arith, every-select p rs)

  pub every-take :
      (p : R → Bool) (n : ℕ) (rs : List R) → every p rs ≡ true → every p (take n rs) ≡ true
  unfolding every
  every-take p n [] h = refl
  every-take p zero (r ∷ rs) h = refl
  every-take p (suc n) (r ∷ rs) h = ground (arith, every-take p n rs)

  pub every-count :
      (p : R → Bool) (rs : List R) → every p rs ≡ true → count_rows (λ r. not (p r)) rs ≡ 0
  unfolding every count_rows
  every-count p [] h = refl
  every-count p (r ∷ rs) h = ground (arith, every-count p rs)

  pub count-every :
      (p : R → Bool) (rs : List R) → count_rows (λ r. not (p r)) rs ≡ 0 → every p rs ≡ true
  unfolding every count_rows
  count-every p [] h = refl
  count-every p (r ∷ rs) h = ground (arith, count-every p rs)

  pub exists-count : (p : R → Bool) (rs : List R) → exists_row p rs ≡ ltb 0 (count_rows p rs)
  unfolding exists_row count_rows
  exists-count p [] = refl
  exists-count p (r ∷ rs) = ground (arith, exists-count p rs)

  pub count-length : (rs : List R) → count_rows (λ _. true) rs ≡ length rs
  unfolding count_rows
  count-length [] = refl
  count-length (r ∷ rs) = ground (arith, count-length rs)

  pub length-select : (p : R → Bool) (rs : List R) → length (select p rs) ≡ count_rows p rs
  unfolding select count_rows
  length-select p [] = refl
  length-select p (r ∷ rs) = ground (arith, length-select p rs)

  pub exists-select :
      (p q : R → Bool) (rs : List R) → exists_row q (select p rs) ≡ exists_row (λ r. p r && q r) rs
  unfolding select exists_row
  exists-select p q [] = refl
  exists-select p q (r ∷ rs) = ground (arith, exists-select p q rs)

  pub take-whole : (n : ℕ) (rs : List R) → length rs ≤ n → take n rs ≡ rs
  take-whole n [] h = refl
  take-whole zero (r ∷ rs) h = absurd (omega (arith, h))
  take-whole (suc n) (r ∷ rs) h = ap (λ tail. r ∷ tail) (take-whole n rs (omega (arith, h)))
