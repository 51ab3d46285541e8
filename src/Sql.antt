-- ===== src/Sql.antt =====
-- SQL statements as functions on tables, in the form that rust-core/src/persistence/store.rs uses
-- them: a table is the list of its rows in the order of insertion, a WHERE clause is a Boolean test
-- on a row, and a statement that fails a constraint returns an error.
pub mod Laws
pub mod Keys
pub mod Counts
use flux_bar.Prelude.{
  ℕ, zero, suc, Bool, true, false, ◌||◌, Option, none, some, List, [], ◌∷◌, Result, ok, err, ℤ, pos,
  ◌+ℤ◌, if◌then◌else◌, is_i32,
}

-- `rusqlite::Error`, as far as the statements of the store can raise it.
pub data SqlError : Type 0 where
  -- ConstraintViolation: a second row with one primary key
  constraint : SqlError
  -- QueryReturnedNoRows
  no_rows : SqlError
  -- IntegralValueOutOfRange: an INTEGER that the requested Rust type cannot hold
  out_of_range : SqlError

module _ {ℓ} {R : Type ℓ} where
  -- SELECT ... WHERE p
  unfoldable pub select : (R → Bool) → List R → List R
  select p [] = []
  select p (r ∷ rs) = if p r then r ∷ select p rs else select p rs

  -- The first row of SELECT ... WHERE p, `query_row(...).optional()`.
  unfoldable pub find_row : (R → Bool) → List R → Option R
  find_row p [] = none
  find_row p (r ∷ rs) = if p r then some r else find_row p rs

  -- EXISTS(SELECT 1 ... WHERE p)
  unfoldable pub exists_row : (R → Bool) → List R → Bool
  exists_row p [] = false
  exists_row p (r ∷ rs) = p r || exists_row p rs

  -- SELECT COUNT(*) ... WHERE p
  unfoldable pub count_rows : (R → Bool) → List R → ℕ
  count_rows p [] = zero
  count_rows p (r ∷ rs) = let n = count_rows p rs in if p r then suc n else n

  -- SELECT COALESCE(SUM(f), 0)
  unfoldable pub sum_rows : (R → ℤ) → List R → ℤ
  sum_rows f [] = pos 0
  sum_rows f (r ∷ rs) = f r +ℤ sum_rows f rs

  -- UPDATE ... SET f WHERE p
  unfoldable pub update_where : (R → Bool) → (R → R) → List R → List R
  update_where p f [] = []
  update_where p f (r ∷ rs) = (if p r then f r else r) ∷ update_where p f rs

  -- DELETE ... WHERE p
  unfoldable pub delete_where : (R → Bool) → List R → List R
  delete_where p [] = []
  delete_where p (r ∷ rs) = let rest = delete_where p rs in if p r then rest else r ∷ rest

  -- INSERT ... VALUES row ON CONFLICT(key) DO UPDATE SET f, where `conflict` finds the row that has
  -- the new row's key.
  unfoldable pub upsert : (R → Bool) → (R → R) → R → List R → List R
  upsert conflict f row [] = row ∷ []
  upsert conflict f row (r ∷ rs) = if conflict r then f r ∷ rs else r ∷ upsert conflict f row rs

  unfoldable pub append_row : R → List R → List R
  append_row row [] = row ∷ []
  append_row row (r ∷ rs) = r ∷ append_row row rs

  -- INSERT ... VALUES row
  unfoldable pub insert_row : (R → Bool) → R → List R → Result SqlError (List R)
  insert_row conflict row rs =
      if exists_row conflict rs then err constraint else ok (append_row row rs)

-- `row.get::<i32>`
unfoldable pub to_i32 : ℤ → Result SqlError ℤ
to_i32 n = if is_i32 n then ok n else err out_of_range

-- `query_row(...)?`
abbrev pub require_row {ℓ} : {R : Type ℓ} → Option R → Result SqlError R
require_row none = err no_rows
require_row (some r) = ok r
