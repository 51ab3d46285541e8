-- ===== src/Remote/QueryLaws.antt =====
-- What is percent-encoded can be decoded.
use flux_bar.Prelude.{
  ℕ, ◌+◌, ◌-◌, ◌*◌, ◌/◌, ◌%◌, ◌<◌, ◌≡◌, ◌≢◌, refl, ap, sym, nat_eq_iff, ◌∙◌, true, false, List, [],
  ◌∷◌, nat_eq, ltb, if◌then◌else◌, Bool-cases, inl, inr, arith,
}
use flux_bar.Remote.Query.{is_plain, hex_digit, urlencode}

-- The value of an upper-case digit.
unfoldable pub digit_value : ℕ → ℕ
digit_value h = if ltb h 65 then h - 48 else h - 55

-- Percent-decoding: each percent sign with the two digits behind it is one byte.
unfoldable pub percent_decode : List ℕ → List ℕ
percent_decode [] = []
percent_decode (a ∷ []) = a ∷ []
percent_decode (a ∷ h ∷ []) = a ∷ h ∷ []
percent_decode (a ∷ h ∷ l ∷ bytes) =
    let skipped = percent_decode bytes in
    let next = percent_decode (h ∷ l ∷ bytes) in
    if nat_eq a b'%' then (16 * digit_value h + digit_value l) ∷ skipped else a ∷ next

abbrev pub AllBytes : List ℕ → Type 0
AllBytes [] = Unit
AllBytes (b ∷ bytes) = (b < 256) × AllBytes bytes

percent_decode-other :
    (a : ℕ) (bytes : List ℕ)
    → nat_eq a b'%' ≡ false
    → percent_decode (a ∷ bytes) ≡ a ∷ percent_decode bytes
unfolding percent_decode
percent_decode-other a [] h = refl
percent_decode-other a (b ∷ []) h = refl
percent_decode-other a (b ∷ c ∷ bytes) h = rw h refl

digit_value-hex_digit : (n : ℕ) → n < 16 → digit_value (hex_digit n) ≡ n
unfolding digit_value hex_digit
digit_value-hex_digit n h = ground (arith, h)

percent_special : is_plain 37 ≢ true
unfolding is_plain
percent_special h = cc h

plain-other : (b : ℕ) → is_plain b ≡ true → nat_eq b b'%' ≡ false
plain-other b h = elim (Bool-cases (nat_eq b b'%')) [
  | inl percent ↦ absurd (percent_special (ap is_plain (sym ((nat_eq_iff b 37).0 percent)) ∙ h))
  | inr other ↦ other
]

halves : (b : ℕ) → 16 * (b / 16) + b % 16 ≡ b
halves b = omega arith

high-low : (b : ℕ) → b < 256 → b / 16 < 16
high-low b h = omega (arith, h)

low-low : (b : ℕ) → b % 16 < 16
low-low b = omega arith

-- Percent-decoding the encoded bytes of a text gives them back.
pub percent_decode-urlencode :
    (bytes : List ℕ) → AllBytes bytes → percent_decode (urlencode bytes) ≡ bytes
unfolding urlencode percent_decode
percent_decode-urlencode [] all = refl
percent_decode-urlencode (b ∷ bytes) (small, all) = elim (Bool-cases (is_plain b)) [
  | inl plain ↦ rw plain (
      percent_decode-other b (urlencode bytes) (plain-other b plain)
      ∙ ap (λ rest. b ∷ rest) (percent_decode-urlencode bytes all))
  | inr special ↦
      rw
        (
          special,
          digit_value-hex_digit (b / 16) (high-low b small),
          digit_value-hex_digit (b % 16) (low-low b),
          halves b,
          percent_decode-urlencode bytes all,
        )
        refl
]
