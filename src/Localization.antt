-- ===== src/Localization.antt =====
-- rust-core/src/localization.rs: language choice, message lookup and the count template.
--
-- The embedded catalogs are JSON, which another package reads: `catalog` gives the messages of a
-- language. `to_text` is `to_string` of an `i64`.
pub mod Laws
mod Tests
use Prim.Native.String.{String, [], ◌∷◌, count, ◌++◌ as ◌+++◌}
use mathlib.Core.List.{List, [], ◌∷◌}
use flux_bar.Prelude.{
  ℕ, zero, suc, Bool, Option, none, some, ◌==◌, ℤ, pos, negsuc, id_eq, ◌||◌, ◌&&◌, if◌then◌else◌,
}
use flux_bar.Text.{is_code, split_by, trim, to_ascii_lowercase}

-- `serde_json::Value`, as far as it is read: a text, an object, or another value.
pub data Message : Type 0 where
  plain : String → Message
  forms : (String → Option String) → Message
  other : Message

-- `locale.split('-').next()` in lower case
unfoldable pub primary_language : String → String
primary_language locale = elim (split_by (is_code b'-') locale) [
  | [] ↦ ""
  | first ∷ _ ↦ to_ascii_lowercase first
]

unfoldable pub resolve_supported_language : List String → String
resolve_supported_language [] = "en"
resolve_supported_language (locale ∷ preferred) =
    let later = resolve_supported_language preferred in
    if primary_language locale == "de"
    then "de"
    else if primary_language locale == "en"
    then "en"
    else later

-- The text before the first two characters of this number, and the text after them.
unfoldable pub split_pair : ℕ → String → Option (String × String)
split_pair n [] = none
split_pair n (c ∷ []) = none
split_pair n (c ∷ d ∷ s) =
    let later = split_pair n (d ∷ s) in
    if is_code n c && is_code n d
    then some ("", s)
    else elim later [ none ↦ none | some (before, after) ↦ some (c ∷ before, after) ]

-- What the loop pushes for the text between the braces.
abbrev pub inner_text : String → String → String
inner_text count_text inner =
    if trim inner == ".Count" then count_text else "{{" +++ (inner +++ "}}")

-- A text in front of what the rest of the loop makes.
abbrev pub in_front : String → Option String → Option String
in_front start none = none
in_front start (some result) = some (start +++ result)

-- Without closing braces, what starts at the opening ones is pushed, and after the loop the whole
-- rest.
abbrev pub on_closed :
    (String → Option String)
    → String
    → String
    → String
    → String
    → Option (String × String)
    → Option String
on_closed next count_text rest before tail none = some (before +++ (("{{" +++ tail) +++ rest))
on_closed next count_text rest before tail (some (inner, after)) =
    in_front (before +++ inner_text count_text inner) (next after)

abbrev pub on_opened :
    (String → Option String) → String → String → Option (String × String) → Option String
on_opened next count_text rest none = some rest
on_opened next count_text rest (some (before, tail)) =
    on_closed next count_text rest before tail (split_pair b'}' tail)

-- The loop, on the rest of the template; `none` is fuel used up.
unfoldable pub apply_from : ℕ → String → String → Option String
apply_from zero count_text rest = none
apply_from (suc fuel) count_text rest =
    on_opened (apply_from fuel count_text) count_text rest (split_pair b'{' rest)

-- Fuel for each character.
unfoldable pub apply_count_template : (ℤ → String) → String → ℤ → Option String
unfolding apply_from
apply_count_template to_text template n = apply_from (suc (count template)) (to_text n) template

-- `count.unsigned_abs() == 1`
unfoldable pub is_singular : ℤ → Bool
is_singular n = id_eq n (pos 1) || id_eq n (negsuc 0)

module _ (catalog : String → String → Option Message) where
  -- `Localizer::new(locales).text(key, fallback)`
  unfoldable pub text : List String → String → String → String
  text locales key fallback = elim (catalog (resolve_supported_language locales) key) [
    | some (plain message) ↦ message
    | _ ↦ fallback
  ]

  unfoldable pub plural_template : List String → String → String → String → Bool → String
  plural_template locales key one_fallback other_fallback singular =
      let fallback = if singular then one_fallback else other_fallback in
      elim (catalog (resolve_supported_language locales) key) [
        | some (forms form) ↦ elim (form (if singular then "one" else "other")) [
          | none ↦ fallback
          | some template ↦ template
        ]
        | _ ↦ fallback
      ]

  unfoldable pub plural : (ℤ → String) → List String → String → String → String → ℤ → Option String
  unfolding apply_count_template plural_template
  plural to_text locales key one_fallback other_fallback n =
      apply_count_template to_text
        (plural_template locales key one_fallback other_fallback (is_singular n)) n
