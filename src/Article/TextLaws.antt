-- ===== src/Article/TextLaws.antt =====
-- The texts of rust-core/src/article.rs: their length and their words.
use Prim.Native.String.{count}
use text.Mathlib.TextLemmas.{length-nil}
use flux_bar.Prelude.{
  ℕ, ◌-◌, ◌≤◌, ◌<◌, ◌≡◌, ◌||◌, arith, String, Bool-cases, inl, inr, nat_eq, leb, ap, refl, Option,
  none, some,
}
use flux_bar.Text.{is_empty, trim, trim_end, take_chars, join, split_whitespace}
use flux_bar.Text.Words.{
  count-append, count-trim_end, count-take_chars, AllWords-split_whitespace, split_whitespace-join,
}
use flux_bar.Article.Dom.{Node, UrlPackage}
use flux_bar.Article.Extract.{truncate, collapse_whitespace, normalize_lines, extract, extract_dom}

count-ellipsis : count "…" ≡ 1
count-ellipsis = refl

-- A truncated text has at most as many characters as the limit, unless the limit is 0.
pub count-truncate : (value : String) (limit : ℕ) → 0 < limit → count (truncate value limit) ≤ limit
unfolding truncate
count-truncate value limit positive =
    elim (Bool-cases (nat_eq limit 0 || leb (count value) limit)) [
      | inl short ↦ rw short (ground arith)
      | inr long ↦
          let cut = take_chars (limit - 1) value in
          rw (long, count-append (trim_end cut) "…", count-ellipsis)
            (omega (arith, count-trim_end cut, count-take_chars (limit - 1) value))
    ]

-- The words of a text are the words of the text with its white space collapsed.
split_whitespace-collapse_whitespace :
    (value : String) → split_whitespace (collapse_whitespace value) ≡ split_whitespace value
unfolding collapse_whitespace
split_whitespace-collapse_whitespace value =
    split_whitespace-join (split_whitespace value) (AllWords-split_whitespace value)

-- Collapsing twice is collapsing once.
pub collapse_whitespace_idem :
    (value : String) → collapse_whitespace (collapse_whitespace value) ≡ collapse_whitespace value
unfolding collapse_whitespace
collapse_whitespace_idem value =
    ap (join " ") (split_whitespace-join (split_whitespace value) (AllWords-split_whitespace value))

module _ (urls : UrlPackage) (parse_html : String → Option Node) where
  count-extract_dom :
      (value : String) (base : Option urls.Url) (limit : ℕ) (dom : Option Node)
      → 0 < limit
      → count (extract_dom urls parse_html value base limit dom).text ≤ limit
  unfolding extract_dom normalize_lines
  count-extract_dom value base limit none positive =
      count-truncate (collapse_whitespace value) limit positive
  count-extract_dom value base limit (some dom) positive = count-truncate _ limit positive

  -- The preview text has at most as many characters as the limit, whatever the HTML parser makes of
  -- the content, also when it panics.
  pub count-extract :
      (value base_url : String) (limit : ℕ)
      → 0 < limit
      → count (extract urls parse_html value base_url limit).text ≤ limit
  unfolding extract
  count-extract value base_url limit positive = elim (Bool-cases (is_empty (trim value))) [
    | inl blank ↦ rw (blank, length-nil) (omega (arith, positive))
    | inr content ↦
        rw content (count-extract_dom value (urls.parse base_url) limit (parse_html value) positive)
  ]
