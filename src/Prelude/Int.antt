-- ===== src/Prelude/Int.antt =====
-- Signed integers over the native numbers: Rust's `i64` identifiers, SQLite's INTEGER columns, and
-- `i32` arithmetic as a release build computes it, modulo 2 ^ 32.
use Prim.Native.Nat.{ℕ, suc, ◌+◌, ◌-◌, ◌%◌, ◌≤◌}
use mathlib.Core.Path.{◌≡◌}
use mathlib.Core.Logic.{◌↔◌}
use mathlib.Core.Bool.{Bool, true, false}
use native.Mathlib.Omega.{arith}
use flux_bar.Prelude.Tests.{ltb, leb, nat_eq, if◌then◌else◌}

-- `negsuc n` is -(n + 1).
pub data ℤ : Type 0 where
  pos : ℕ → ℤ
  negsuc : ℕ → ℤ

abbrev pub pos_part : ℤ → ℕ
pos_part (pos n) = n
pos_part (negsuc n) = 0

abbrev pub neg_part : ℤ → ℕ
neg_part (pos n) = 0
neg_part (negsuc n) = suc n

abbrev pub sub_ℕ : ℕ → ℕ → ℤ
sub_ℕ a b = if leb b a then pos (a - b) else negsuc (b - a - 1)

infixl 65 ◌+ℤ◌
infix 50 ◌≤ℤ◌
unfoldable pub ◌+ℤ◌ : ℤ → ℤ → ℤ
a +ℤ b = sub_ℕ (pos_part a + pos_part b) (neg_part a + neg_part b)

abbrev pub ◌≤ℤ◌ : ℤ → ℤ → Type 0
a ≤ℤ b = pos_part a + neg_part b ≤ pos_part b + neg_part a

abbrev pub ltb_ℤ : ℤ → ℤ → Bool
ltb_ℤ a b = ltb (pos_part a + neg_part b) (pos_part b + neg_part a)

abbrev pub leb_ℤ : ℤ → ℤ → Bool
leb_ℤ a b = leb (pos_part a + neg_part b) (pos_part b + neg_part a)

unfoldable pub max_ℤ : ℤ → ℤ → ℤ
max_ℤ a b = if leb_ℤ a b then b else a

-- Equality of identifiers.
unfoldable pub id_eq : ℤ → ℤ → Bool
id_eq (pos a) (pos b) = nat_eq a b
id_eq (negsuc a) (negsuc b) = nat_eq a b
id_eq _ _ = false

pub id_eq_iff : (a b : ℤ) → (id_eq a b ≡ true) ↔ (a ≡ b)
unfolding id_eq
id_eq_iff (pos a) (pos b) = ground arith
id_eq_iff (negsuc a) (negsuc b) = ground arith
id_eq_iff (pos a) (negsuc b) = ground arith
id_eq_iff (negsuc a) (pos b) = ground arith

pub id_eq_refl : (a : ℤ) → id_eq a a ≡ true
unfolding id_eq
id_eq_refl (pos a) = ground arith
id_eq_refl (negsuc a) = ground arith

-- The values of an `i32`.
unfoldable pub is_i32 : ℤ → Bool
is_i32 (pos n) = ltb n 2147483648
is_i32 (negsuc n) = ltb n 2147483648

-- Two's complement: the value modulo 2 ^ 32, between -2 ^ 31 and 2 ^ 31 - 1.
unfoldable pub wrap_i32 : ℤ → ℤ
wrap_i32 (pos n) =
    let m = n % 4294967296 in if ltb m 2147483648 then pos m else negsuc (4294967295 - m)
wrap_i32 (negsuc n) =
    let m = n % 4294967296 in if ltb m 2147483648 then negsuc m else pos (4294967295 - m)

unfoldable pub add_i32 : ℤ → ℤ → ℤ
unfolding wrap_i32 ◌+ℤ◌
add_i32 a b = wrap_i32 (a +ℤ b)

pub wrap_i32-is_i32 : (a : ℤ) → is_i32 a ≡ true → wrap_i32 a ≡ a
unfolding is_i32 wrap_i32
wrap_i32-is_i32 (pos n) h = ground arith
wrap_i32-is_i32 (negsuc n) h = ground arith

pub is_i32-wrap_i32 : (a : ℤ) → is_i32 (wrap_i32 a) ≡ true
unfolding is_i32 wrap_i32
is_i32-wrap_i32 (pos n) = ground arith
is_i32-wrap_i32 (negsuc n) = ground arith

pub +ℤ_parts :
    (a b : ℤ)
    → pos_part (a +ℤ b) + neg_part a + neg_part b ≡ neg_part (a +ℤ b) + pos_part a + pos_part b
unfolding ◌+ℤ◌
+ℤ_parts a b = ground arith

pub eq_of_parts : (a b : ℤ) → pos_part a + neg_part b ≡ pos_part b + neg_part a → a ≡ b
eq_of_parts a b h = ground arith

pub ruleset int_laws = (arith, +ℤ_parts, eq_of_parts)

pub zero_le_max : (a : ℤ) → pos 0 ≤ℤ max_ℤ (pos 0) a
unfolding max_ℤ
zero_le_max a = ground arith
