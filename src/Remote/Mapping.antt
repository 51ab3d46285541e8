-- ===== src/Remote/Mapping.antt =====
-- `entry_to_domain` of rust-core/src/remote/mod.rs: a wire entry as an entry of the domain.

use flux_bar.Prelude.{Option, none, some, map, String, ℤ, pos, id_eq, if◌then◌else◌}
use flux_bar.Text.{is_empty}
use flux_bar.Article.Dom.{Node, UrlPackage}
use flux_bar.Article.Extract.{
  Preview, EnclosureInput, preview_limit, extract, first_image_enclosure_url,
}
use flux_bar.Domain.Entry.{Entry, parse}
use flux_bar.Remote.Dto.{EntryDto, FeedDto, EnclosureDto, feed_category_id}

-- The feed's id, its name and its category.
unfoldable pub feed_columns : ℤ → Option FeedDto → ℤ × String × ℤ
feed_columns feed_id none = (feed_id, "", pos 0)
feed_columns feed_id (some feed) =
    (if id_eq feed_id (pos 0) then feed.id else feed_id, feed.title, feed_category_id feed)

abbrev pub enclosure_input : EnclosureDto → EnclosureInput
enclosure_input e = record { url = e.url; mime_type = e.mime_type }

module _ (urls : UrlPackage) (parse_html : String → Option Node) where
  -- The first image of the content, or of the enclosures.
  unfoldable pub image_of : EntryDto → Preview → String
  image_of entry preview =
      if is_empty preview.image_url
      then first_image_enclosure_url urls (map enclosure_input entry.enclosures) entry.url
      else preview.image_url

  unfoldable pub entry_to_domain : EntryDto → Entry
  unfolding feed_columns image_of
  entry_to_domain entry =
      let (feed_id, feed_name, category_id) = feed_columns entry.feed_id entry.feed in
      let preview = extract urls parse_html entry.content entry.url preview_limit in
      record {
        id = entry.id;
        title = entry.title;
        url = entry.url;
        comments_url = entry.comments_url;
        feed_id = feed_id;
        feed_name = feed_name;
        category_id = category_id;
        published_at_rfc3339 = entry.published_at;
        preview = preview.text;
        image_url = image_of entry preview;
        status = parse entry.status;
        starred = entry.starred;
      }
