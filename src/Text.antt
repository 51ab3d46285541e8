-- ===== src/Text.antt =====
-- The methods of Rust's `str` that rust-core/src uses, on native strings: a text is the list of its
-- characters.
pub mod Words
pub mod Numbers
use Prim.Native.Nat.{compare, Ordering}
use Prim.Native.Char.{Char, char, code, nul}
use Prim.Native.String.{String, [], ◌∷◌}
use Prim.Native.String.{◌++◌ as ◌+++◌}
use mathlib.Core.List.{List, [], ◌∷◌}
use flux_bar.Prelude.{
  ℕ, zero, suc, ◌+◌, ◌≡◌, refl, Bool, true, false, not, ◌&&◌, ◌||◌, ltb, leb, nat_eq, if◌then◌else◌,
}

abbrev pub is_code : ℕ → Char → Bool
is_code n c = nat_eq (code c) n

abbrev between : ℕ → ℕ → ℕ → Bool
between low high n = leb low n && leb n high

-- `char::is_whitespace`: the property White_Space of Unicode.
unfoldable pub is_whitespace : Char → Bool
is_whitespace c =
    let n = code c in
    between 9 13 n
    || nat_eq n 32
    || nat_eq n 0x85
    || nat_eq n 0xA0
    || nat_eq n 0x1680
    || between 0x2000 0x200A n
    || between 0x2028 0x2029 n
    || nat_eq n 0x202F
    || nat_eq n 0x205F
    || nat_eq n 0x3000

unfoldable pub is_empty : String → Bool
is_empty [] = true
is_empty (_ ∷ _) = false

-- A character in front of the first piece.
abbrev pub push_front : Char → List String → List String
push_front c [] = (c ∷ []) ∷ []
push_front c (piece ∷ pieces) = (c ∷ piece) ∷ pieces

-- `split` at each character that passes the test: one piece more than there are such characters.
unfoldable pub split_by : (Char → Bool) → String → List String
split_by cut [] = [] ∷ []
split_by cut (c ∷ s) =
    let pieces = split_by cut s in if cut c then [] ∷ pieces else push_front c pieces

unfoldable pub without_empty : List String → List String
without_empty [] = []
without_empty (piece ∷ pieces) =
    let rest = without_empty pieces in if is_empty piece then rest else piece ∷ rest

unfoldable pub split_whitespace : String → List String
split_whitespace s = without_empty (split_by is_whitespace s)

-- `join`
unfoldable pub join : String → List String → String
join separator [] = []
join separator (piece ∷ []) = piece
join separator (piece ∷ next ∷ pieces) = piece +++ (separator +++ join separator (next ∷ pieces))

unfoldable pub trim_start : String → String
trim_start [] = []
trim_start (c ∷ s) = let rest = trim_start s in if is_whitespace c then rest else c ∷ s

unfoldable pub trim_end : String → String
trim_end [] = []
trim_end (c ∷ s) =
    let rest = trim_end s in if is_empty rest && is_whitespace c then [] else c ∷ rest

unfoldable pub trim : String → String
trim s = trim_start (trim_end s)

-- `chars().take(n)`
unfoldable pub take_chars : ℕ → String → String
take_chars zero s = []
take_chars (suc n) [] = []
take_chars (suc n) (c ∷ s) = c ∷ take_chars n s

-- The character with a number below the surrogates.
low_char : (n : ℕ) (o : Ordering) → compare n 55296 ≡ o → Char
low_char n Ordering.lt h = char n (rw h tt)
low_char n Ordering.eq h = nul
low_char n Ordering.gt h = nul

-- The ASCII letter in lower case.
unfoldable pub lower_ascii : Char → Char
unfolding low_char
lower_ascii c =
    let small = low_char (code c + 32) (compare (code c + 32) 55296) refl in
    if between 65 90 (code c) then small else c

unfoldable pub to_ascii_lowercase : String → String
unfolding lower_ascii
to_ascii_lowercase [] = []
to_ascii_lowercase (c ∷ s) = lower_ascii c ∷ to_ascii_lowercase s

unfoldable pub starts_with : String → String → Bool
starts_with prefix [] = is_empty prefix
starts_with [] (c ∷ s) = true
starts_with (p ∷ prefix) (c ∷ s) = let rest = starts_with prefix s in is_code (code p) c && rest

-- The text is one character.
unfoldable pub is_one : ℕ → String → Bool
is_one n [] = false
is_one n (c ∷ s) = is_code n c && is_empty s

-- `trim_end_matches` of two characters.
unfoldable pub trim_end_pair : ℕ → ℕ → String → String
trim_end_pair first second [] = []
trim_end_pair first second (c ∷ s) =
    let rest = trim_end_pair first second s in
    if is_code first c && is_one second rest then [] else c ∷ rest
