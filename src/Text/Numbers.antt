-- ===== src/Text/Numbers.antt =====
-- `str::parse::<i32>` and `str::parse::<i64>`.
use Prim.Native.Char.{Char, code}
use Prim.Native.String.{String, [], ◌∷◌}
use flux_bar.Prelude.{
  ℕ, zero, suc, ◌+◌, ◌-◌, ◌*◌, Bool, true, false, ◌&&◌, Option, none, some, ltb, leb, if◌then◌else◌,
  ℤ, pos, negsuc, is_i32,
}
use flux_bar.Text.{is_code}

abbrev is_digit : Char → Bool
is_digit c = leb 48 (code c) && leb (code c) 57

-- The value of a text of decimal digits, read from the left.
unfoldable pub digits : ℕ → String → Option ℕ
digits value [] = some value
digits value (c ∷ s) =
    let rest = digits (10 * value + (code c - 48)) s in if is_digit c then rest else none

-- At least one digit.
unfoldable pub parse_digits : String → Option ℕ
parse_digits [] = none
parse_digits (c ∷ s) = digits 0 (c ∷ s)

abbrev negate : ℕ → ℤ
negate zero = pos 0
negate (suc n) = negsuc n

abbrev signed : Bool → Option ℕ → Option ℤ
signed minus none = none
signed true (some n) = some (negate n)
signed false (some n) = some (pos n)

-- An optional sign and digits.
unfoldable pub parse_integer : String → Option ℤ
unfolding parse_digits digits
parse_integer [] = none
parse_integer (c ∷ s) =
    if is_code b'-' c
    then signed true (parse_digits s)
    else if is_code b'+' c
    then signed false (parse_digits s)
    else signed false (parse_digits (c ∷ s))

abbrev in_range : (ℤ → Bool) → Option ℤ → Option ℤ
in_range fits none = none
in_range fits (some n) = if fits n then some n else none

unfoldable pub parse_i32 : String → Option ℤ
parse_i32 s = in_range is_i32 (parse_integer s)

unfoldable pub is_i64 : ℤ → Bool
is_i64 (pos n) = ltb n 9223372036854775808
is_i64 (negsuc n) = ltb n 9223372036854775808

unfoldable pub parse_i64 : String → Option ℤ
parse_i64 s = in_range is_i64 (parse_integer s)
