-- ===== src/Remote/Dto.antt =====
-- rust-core/src/remote/dto.rs: the wire types, and the mapping of rust-core/src/remote/mod.rs to the
-- inputs of the navigation.

use flux_bar.Prelude.{
  Bool, Option, none, some, List, [], ◌∷◌, map, String, ℤ, pos, ltb_ℤ, if◌then◌else◌,
}
use flux_bar.Domain.Navigation.{CategoryInput, FeedInput}

pub record EntriesFilter : Type 0 where
  pub status : Option String
  pub statuses : List String
  pub order : Option String
  pub direction : Option String
  pub limit : ℤ
  pub offset : ℤ
  pub after_entry_id : ℤ
  pub starred : Option String
  pub category_id : ℤ
  pub feed_id : ℤ

-- `EntriesFilter::default()`
abbrev pub default_filter : EntriesFilter
default_filter = record {
  status = none;
  statuses = [];
  order = none;
  direction = none;
  limit = pos 0;
  offset = pos 0;
  after_entry_id = pos 0;
  starred = none;
  category_id = pos 0;
  feed_id = pos 0;
}

pub record CategoryDto : Type 0 where
  pub id : ℤ
  pub title : String

pub record FeedDto : Type 0 where
  pub id : ℤ
  pub title : String
  pub category : Option CategoryDto

-- `FeedDto::category_id`
unfoldable pub feed_category_id : FeedDto → ℤ
feed_category_id f = elim f.category [ none ↦ pos 0 | some c ↦ c.id ]

pub record EnclosureDto : Type 0 where
  pub id : ℤ
  pub url : String
  pub mime_type : String

pub record EntryDto : Type 0 where
  pub id : ℤ
  pub feed_id : ℤ
  pub title : String
  pub url : String
  pub comments_url : String
  pub status : String
  pub starred : Bool
  pub published_at : String
  pub content : String
  pub enclosures : List EnclosureDto
  pub feed : Option FeedDto

pub record EntryResultSetDto : Type 0 where
  pub total : ℤ
  pub entries : List EntryDto

-- A map from strings to `i32`.
pub record FeedCountersDto : Type 0 where
  pub unreads : List (String × ℤ)

unfoldable pub dto_mapping_inputs :
    List CategoryDto → List FeedDto → List CategoryInput × List FeedInput
unfolding feed_category_id
dto_mapping_inputs categories feeds = (
  map (λ (c : CategoryDto). record { id = c.id; title = c.title }) categories,
  map (λ (f : FeedDto). record { id = f.id; title = f.title; category_id = feed_category_id f })
      feeds,
)

abbrev pub browse_page_size : ℤ
browse_page_size = pos 200

-- `MinifluxClient::browse_filter`, one field for each of its assignments.
unfoldable pub browse_filter : Bool → Bool → ℤ × ℤ → EntriesFilter
browse_filter status_unread_only starred (category_id, feed_id) = record default_filter {
  limit = browse_page_size;
  order = some "id";
  direction = some "asc";
  statuses = if status_unread_only then [] else "read" ∷ "unread" ∷ [];
  status = if status_unread_only then some "unread" else none;
  starred = if starred then some "1" else none;
  category_id = if ltb_ℤ (pos 0) category_id then category_id else pos 0;
  feed_id = if ltb_ℤ (pos 0) feed_id then feed_id else pos 0;
}

-- The filter of `MinifluxClient::starred_total`.
unfoldable pub starred_total_filter : EntriesFilter
starred_total_filter = record default_filter {
  starred = some "1";
  statuses = "read" ∷ "unread" ∷ [];
  limit = pos 1;
}
