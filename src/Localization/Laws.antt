-- ===== src/Localization/Laws.antt =====
-- The count template and the language choice of rust-core/src/localization.rs.
use Prim.Native.Char.{Char, char, code}
use Prim.Native.String.{String, [], ◌∷◌, count, ◌++◌ as ◌+++◌}
use mathlib.Core.List.{List, [], ◌∷◌, ◌++◌}
use text.Mathlib.TextLemmas.{nil-append, cons-append, append_assoc, length-cons}
use text.Mathlib.TextEquality.{Char-path}
use flux_bar.Prelude.{
  ℕ, zero, suc, ◌≤◌, ◌≡◌, refl, ap, sym, ◌∙◌, Option, none, some, ◌==◌, ℤ, arith, Bool-cases,
  Option-cases, inl, inr, ◌⊎◌, ◌&&◌, true, false,
}
use flux_bar.Text.{is_code}
use flux_bar.Localization.{
  primary_language, resolve_supported_language, split_pair, inner_text, in_front, on_closed,
  on_opened, apply_from, apply_count_template,
}

-- The rest after a pair of characters is shorter than the text.
split_pair-shorter :
    (n : ℕ) (s before after : String)
    → split_pair n s ≡ some (before, after)
    → suc (suc (count after)) ≤ count s
unfolding split_pair
split_pair-shorter n [] before after h = absurd (cc h)
split_pair-shorter n (c ∷ []) before after h = absurd (cc h)
split_pair-shorter n (c ∷ d ∷ s) before after h = elim (Bool-cases (is_code n c && is_code n d)) [
  | inl here ↦
      let same : s ≡ after = cc (rw here at h) in
      rw (length-cons c (d ∷ s), length-cons d s, same) (omega arith)
  | inr not_here ↦ elim (Option-cases (split_pair n (d ∷ s))) [
    | inl none_later ↦ absurd (cc (rw (not_here, none_later) at h))
    | inr ((b, a), found) ↦
        let same : a ≡ after = cc (rw (not_here, found) at h) in
        rw (length-cons c (d ∷ s), ← same) (omega (arith, split_pair-shorter n (d ∷ s) b a found))
  ]
]

abbrev Ends : Option String → Type 0
Ends o = (result : String) × (o ≡ some result)

in_front-Ends : (start : String) (o : Option String) → Ends o → Ends (in_front start o)
in_front-Ends start none (r, h) = absurd (cc h)
in_front-Ends start (some result) e = (start +++ result, refl)

on_closed-Ends :
    (next : String → Option String) (count_text rest before tail : String)
    (closed : Option (String × String))
    → ((inner after : String) → closed ≡ some (inner, after) → Ends (next after))
    → Ends (on_closed next count_text rest before tail closed)
on_closed-Ends next count_text rest before tail none go =
    (before +++ (("{{" +++ tail) +++ rest), refl)
on_closed-Ends next count_text rest before tail (some (inner, after)) go =
    in_front-Ends (before +++ inner_text count_text inner) (next after) (go inner after refl)

on_opened-Ends :
    (next : String → Option String) (count_text rest : String) (opened : Option (String × String))
    → ((before tail inner after : String)
        → opened ≡ some (before, tail)
        → split_pair b'}' tail ≡ some (inner, after)
        → Ends (next after))
    → Ends (on_opened next count_text rest opened)
on_opened-Ends next count_text rest none go = (rest, refl)
on_opened-Ends next count_text rest (some (before, tail)) go =
    on_closed-Ends next count_text rest before tail (split_pair b'}' tail)
      (λ inner after closed. go before tail inner after refl closed)

apply_from-Ends :
    (fuel : ℕ) (count_text rest : String)
    → suc (count rest) ≤ fuel
    → Ends (apply_from fuel count_text rest)
unfolding apply_from
apply_from-Ends zero count_text rest enough = absurd (omega (arith, enough))
apply_from-Ends (suc fuel) count_text rest enough =
    on_opened-Ends (apply_from fuel count_text) count_text rest (split_pair b'{' rest)
      (λ before tail inner after opened closed. apply_from-Ends fuel count_text after (
        omega (
          arith,
          enough,
          split_pair-shorter b'{' rest before tail opened,
          split_pair-shorter b'}' tail inner after closed,
        )))

-- `apply_count_template` ends on every template.
pub apply_count_template-ends :
    (to_text : ℤ → String) (template : String) (n : ℤ)
    → (result : String) × (apply_count_template to_text template n ≡ some result)
unfolding apply_count_template
apply_count_template-ends to_text template n =
    apply_from-Ends (suc (count template)) (to_text n) template (omega arith)

split_pair-whole :
    (n : ℕ) (s before after pair : String)
    → ((c d : Char) → is_code n c ≡ true → is_code n d ≡ true → ◌≡◌ {A = String} (c ∷ d ∷ "") pair)
    → split_pair n s ≡ some (before, after)
    → before +++ (pair +++ after) ≡ s
unfolding split_pair
split_pair-whole n [] before after pair known h = absurd (cc h)
split_pair-whole n (c ∷ []) before after pair known h = absurd (cc h)
split_pair-whole n (c ∷ d ∷ s) before after pair known h =
    elim (Bool-cases (is_code n c && is_code n d)) [
      | inl here ↦
          let both : (is_code n c ≡ true) × (is_code n d ≡ true) = ground (arith, here) in
          let start : "" ≡ before = cc (rw here at h) in
          let same : s ≡ after = cc (rw here at h) in
          rw (← start, nil-append, ← known c d both.0 both.1, cons-append, cons-append, nil-append)
            (ap (λ (t : String). c ∷ d ∷ t) (sym same))
      | inr not_here ↦ elim (Option-cases (split_pair n (d ∷ s))) [
        | inl none_later ↦ absurd (cc (rw (not_here, none_later) at h))
        | inr ((b, a), found) ↦
            let same : a ≡ after = cc (rw (not_here, found) at h) in
            let start : (c ∷ b) ≡ before = cc (rw (not_here, found) at h) in
            rw (← start, ← same, cons-append)
              (ap (λ (t : String). c ∷ t) (split_pair-whole n (d ∷ s) b a pair known found))
      ]
    ]

is_code-literal : (c d : Char) → is_code (code c) d ≡ true → d ≡ c
is_code-literal c d h = Char-path d c (ground (arith, h))

opening :
    (c d : Char)
    → is_code b'{' c ≡ true
    → is_code b'{' d ≡ true
    → ◌≡◌ {A = String} (c ∷ d ∷ "") "{{"
opening c d h k = rw (is_code-literal (char b'{' tt) c h, is_code-literal (char b'{' tt) d k) refl

-- A template whose first opening braces have no closing ones after them is written twice.
pub apply_count_template-unclosed :
    (to_text : ℤ → String) (template : String) (n : ℤ) (before tail : String)
    → split_pair b'{' template ≡ some (before, tail)
    → split_pair b'}' tail ≡ none
    → apply_count_template to_text template n ≡ some (template +++ template)
unfolding apply_count_template apply_from
apply_count_template-unclosed to_text template n before tail opened unclosed =
    rw (opened, unclosed)
      (ap some (
        sym (append_assoc before ("{{" +++ tail) template)
        ∙ ap (λ (t : String). t +++ template)
            (split_pair-whole b'{' template before tail "{{" opening opened)))

-- No locale of the list has a supported language.
abbrev AllUnsupported : List String → Type 0
AllUnsupported [] = Unit
AllUnsupported (locale ∷ locales) =
    (primary_language locale == "de" ≡ false)
    × (primary_language locale == "en" ≡ false)
    × AllUnsupported locales

-- The language is the one of the first preferred locale whose language is supported.
resolve_supported_language-first :
    (skipped : List String) (locale : String) (preferred : List String)
    → AllUnsupported skipped
    → (primary_language locale ≡ "de") ⊎ (primary_language locale ≡ "en")
    → resolve_supported_language (skipped ++ locale ∷ preferred) ≡ primary_language locale
unfolding resolve_supported_language
resolve_supported_language-first [] locale preferred none_yet (inl german) = rw german refl
resolve_supported_language-first [] locale preferred none_yet (inr english) = rw english refl
resolve_supported_language-first (skip ∷ skipped) locale preferred (not_de, not_en, rest) known =
    rw (not_de, not_en) (resolve_supported_language-first skipped locale preferred rest known)

-- Without a supported one, it is English.
resolve_supported_language-default :
    (locales : List String) → AllUnsupported locales → resolve_supported_language locales ≡ "en"
unfolding resolve_supported_language
resolve_supported_language-default [] none_of = refl
resolve_supported_language-default (locale ∷ locales) (not_de, not_en, rest) =
    rw (not_de, not_en) (resolve_supported_language-default locales rest)
