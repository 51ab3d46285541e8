-- ===== src/Remote/MappingLaws.antt =====
-- The preview and the image of an entry that rust-core/src/remote/mod.rs takes over.
use Prim.Native.String.{count}
use flux_bar.Prelude.{◌≤◌, arith, Option, map, String, Bool-cases, inl, inr}
use flux_bar.Text.{is_empty}
use flux_bar.Article.Dom.{Node, UrlPackage}
use flux_bar.Article.Extract.{Preview, preview_limit, extract, first_image_enclosure_url}
use flux_bar.Article.TextLaws.{count-extract}
use flux_bar.Article.ImageLaws.{IsWebImage, extract-IsWebImage, first_enclosure-IsWebImage}
use flux_bar.Remote.Dto.{EntryDto}
use flux_bar.Remote.Mapping.{entry_to_domain, image_of, enclosure_input}

module _ (urls : UrlPackage) (parse_html : String → Option Node) (entry : EntryDto) where
  -- The preview of an entry has at most 600 characters, whatever its content is and whatever the HTML
  -- parser makes of it.
  pub count-entry_to_domain : count (entry_to_domain urls parse_html entry).preview ≤ preview_limit
  unfolding entry_to_domain
  count-entry_to_domain =
      count-extract urls parse_html entry.content entry.url preview_limit (omega arith)

  image_of-IsWebImage :
      (preview : Preview)
      → IsWebImage urls preview.image_url
      → IsWebImage urls (image_of urls parse_html entry preview)
  unfolding image_of first_image_enclosure_url
  image_of-IsWebImage preview h = elim (Bool-cases (is_empty preview.image_url)) [
    | inl missing ↦ rw missing (
        first_enclosure-IsWebImage urls (urls.parse entry.url)
          (map enclosure_input entry.enclosures))
    | inr found ↦ rw found h
  ]

  -- The image of an entry, from its content or its enclosures, is missing or is the text of a URL
  -- whose scheme is http or https.
  pub entry_to_domain-IsWebImage : IsWebImage urls (entry_to_domain urls parse_html entry).image_url
  unfolding entry_to_domain
  entry_to_domain-IsWebImage =
      image_of-IsWebImage (extract urls parse_html entry.content entry.url preview_limit)
        (extract-IsWebImage urls parse_html entry.content entry.url preview_limit)
