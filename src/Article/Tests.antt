-- ===== src/Article/Tests.antt =====
-- An article with one image.
use flux_bar.Text.Numbers.{digits, parse_digits, parse_i32, parse_integer}
use flux_bar.Prelude.{is_i32}
use flux_bar.Article.Dom.{attribute}
use flux_bar.Article.Extract.{
  normalize_lines, first_image_url, own_url, node_text, contains, inline_text, tiny_image,
  attribute_url, candidate_of, dimension, extract_dom, last_field, parse_or_join,
  positive_dimension, resolve_image_url_with_base, srcset_url, truncate, web_url,
}
use flux_bar.Text.{
  is_empty, trim, trim_start, trim_end, is_whitespace, join, without_empty, split_by, is_one,
  lower_ascii, take_chars, to_ascii_lowercase, trim_end_pair,
}
use Prim.Native.String.{count, ◌++◌ as ◌+++◌}
use flux_bar.Prelude.{
  ◌≤◌, false, pos, ◌≡◌, refl, Option, none, some, [], ◌∷◌, String, if◌then◌else◌,
}
use flux_bar.Text.{starts_with, split_whitespace}
use flux_bar.Article.Dom.{Node, UrlPackage, element, text, other, no_nodes, node_and, no_template}
use flux_bar.Article.Extract.{extract, collapse_whitespace, preview_limit}
use flux_bar.Remote.Dto.{EntryDto}
use flux_bar.Remote.Mapping.{entry_to_domain}
use flux_bar.Remote.MappingLaws.{count-entry_to_domain, entry_to_domain-IsWebImage}
use flux_bar.Article.ImageLaws.{IsWebImage}

-- Absolute URLs of one scheme, and paths below a base.
abbrev https_urls : UrlPackage
https_urls = record {
  Url = String;
  parse = λ s. if starts_with "https://" s then some s else none;
  join = λ base s. some (base +++ s);
  scheme = λ _. "https";
  to_text = λ url. url;
}

abbrev page : Node
page = other (
    node_and (element "p" [] (node_and (text "one  two") no_nodes) no_template) (
      node_and
        (element "img" (record { name = "src"; value = " cat.png " } ∷ []) no_nodes no_template)
        no_nodes))

abbrev parse_page : String → Option Node
parse_page _ = some page

page_preview :
    extract https_urls parse_page "<p>one  two</p><img src=' cat.png '>" "https://example.org/"
      preview_limit
    ≡ record { text = "one two"; image_url = "https://example.org/cat.png" }
unfolding extract is_empty trim trim_start trim_end is_whitespace normalize_lines first_image_url
    join own_url without_empty split_by node_text contains inline_text attribute collapse_whitespace
    split_whitespace tiny_image attribute_url candidate_of dimension extract_dom last_field
    parse_or_join positive_dimension resolve_image_url_with_base srcset_url truncate web_url is_i32
    digits parse_digits parse_i32 parse_integer is_one lower_ascii starts_with take_chars
    to_ascii_lowercase trim_end_pair
page_preview = refl

-- An entry with that page and an enclosure.
abbrev remote_entry : EntryDto
remote_entry = record {
  id = pos 7;
  feed_id = pos 1;
  title = "Title";
  url = "https://example.org/";
  comments_url = "";
  status = "unread";
  starred = false;
  published_at = "2026-01-01T00:00:00Z";
  content = "<p>one  two</p>";
  enclosures =
      record { id = pos 1; url = "https://example.org/a.png"; mime_type = "image/png" } ∷ [];
  feed = none;
}

count-entry_to_domain_example :
    count (entry_to_domain https_urls parse_page remote_entry).preview ≤ preview_limit
count-entry_to_domain_example = count-entry_to_domain https_urls parse_page remote_entry

entry_to_domain-IsWebImage_example :
    IsWebImage https_urls (entry_to_domain https_urls parse_page remote_entry).image_url
entry_to_domain-IsWebImage_example = entry_to_domain-IsWebImage https_urls parse_page remote_entry
