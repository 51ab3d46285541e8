-- ===== src/Prelude/Lists.antt =====
-- Lists measured by native numbers.
use Prim.Native.Nat.{ℕ, zero, suc, ◌+◌, ◌≤◌}
use native.Mathlib.Omega.{arith}
use mathlib.Core.List.{List, [], ◌∷◌, ◌++◌}
use mathlib.Core.Path.{◌≡◌}

abbrev pub length {ℓ} : {Row : Type ℓ} → List Row → ℕ
length [] = zero
length (_ ∷ rows) = suc (length rows)

-- `LIMIT n`
abbrev pub take {ℓ} : {Row : Type ℓ} → ℕ → List Row → List Row
take _ [] = []
take zero (_ ∷ _) = []
take (suc limit) (row ∷ rows) = row ∷ take limit rows

pub length-append {ℓ} :
    {Row : Type ℓ} (front back : List Row) → length (front ++ back) ≡ length front + length back
length-append [] back = omega arith
length-append (_ ∷ front) back = omega (length-append front back, arith)

-- A limit bounds the length.
pub length-take {ℓ} :
    {Row : Type ℓ} (limit : ℕ) (rows : List Row) → length (take limit rows) ≤ limit
length-take _ [] = omega arith
length-take zero (_ ∷ _) = omega arith
length-take (suc limit) (_ ∷ rows) = omega (length-take limit rows, arith)
