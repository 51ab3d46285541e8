-- ===== src/Localization/Tests.antt =====
-- Templates with and without closing braces.
use flux_bar.Text.{trim, trim_start, trim_end, is_empty, is_whitespace}
use Prim.Native.String.{◌++◌ as ◌+++◌}
use flux_bar.Prelude.{◌≡◌, refl, some, none, String, ℤ, pos}
use flux_bar.Localization.{apply_count_template, split_pair}
use flux_bar.Localization.Laws.{apply_count_template-ends, apply_count_template-unclosed}

abbrev seven : ℤ → String
seven _ = "7"

filled : apply_count_template seven "{{ .Count }} new {{.Other}}" (pos 7) ≡ some "7 new {{.Other}}"
unfolding apply_count_template split_pair trim trim_start trim_end is_empty is_whitespace
filled = refl

apply_count_template-ends_example :
    (result : String) × (apply_count_template seven "{{.Count}} new" (pos 7) ≡ some result)
apply_count_template-ends_example = apply_count_template-ends seven "{{.Count}} new" (pos 7)

opened : split_pair b'{' "a {{b" ≡ some ("a ", "b")
unfolding split_pair
opened = refl

unclosed : split_pair b'}' "b" ≡ none
unfolding split_pair
unclosed = refl

apply_count_template-unclosed_example :
    apply_count_template seven "a {{b" (pos 7) ≡ some ("a {{b" +++ "a {{b")
apply_count_template-unclosed_example =
    apply_count_template-unclosed seven "a {{b" (pos 7) "a " "b" opened unclosed
