-- ===== src/Transport/Response.antt =====
-- rust-core/src/transport/response.rs: the response envelope; rust-core/src/snapshot.rs: the assembly
-- of a local snapshot for the wire. The probe data of the response is left out.
use Prim.Native.String.{◌++◌}
use flux_bar.Prelude.{ℕ, Bool, true, false, Option, none, some, List, [], ◌∷◌, map, String, ℤ, pos}
use flux_bar.Domain.Selection as Domain
use flux_bar.Domain.Entry.{Entry, as_str}
use flux_bar.Domain.Navigation.{Feed, Category}
use flux_bar.Store.Apply.{SnapshotData}
use flux_bar.Transport.Request.{unsupported}

pub record SelectionDto : Type 0 where
  pub kind : String
  pub id : ℤ
  pub unread_only : Bool

pub record EntryDto : Type 0 where
  pub id : ℤ
  pub title : String
  pub url : String
  pub comments_url : String
  pub feed_id : ℤ
  pub feed_name : String
  pub category_id : ℤ
  pub published_at : String
  pub preview : String
  pub image_url : String
  pub status : String
  pub starred : Bool

pub record FeedDto : Type 0 where
  pub id : ℤ
  pub title : String
  pub category_id : ℤ
  pub unread_count : ℤ

pub record CategoryDto : Type 0 where
  pub id : ℤ
  pub title : String
  pub unread_count : ℤ
  pub feeds : List FeedDto

pub record BrowseSnapshot : Type 0 where
  pub version : ℤ
  pub selection : SelectionDto
  pub entries : List EntryDto
  pub categories : Option (List CategoryDto)
  pub total : ℤ
  pub unread_total : ℤ
  pub starred_total : ℤ

pub record Icon : Type 0 where
  pub regular : List ℕ
  pub dark : List ℕ

pub record Receipt : Type 0 where
  pub id : String
  pub count : ℤ

pub record Response : Type 0 where
  pub ok : Bool
  pub error : String
  pub text : String
  pub snapshot : Option BrowseSnapshot
  pub icon : Option Icon
  pub receipt : Option Receipt

-- `Response::default()`
abbrev pub default_response : Response
default_response = record {
  ok = false;
  error = "";
  text = "";
  snapshot = none;
  icon = none;
  receipt = none;
}

-- `Response::ok()` and `Response::error(message)`
unfoldable pub ok_response : Response
ok_response = record default_response { ok = true }

unfoldable pub error_response : String → Response
error_response message = record default_response { error = message }

unfoldable pub not_configured : Response
unfolding error_response
not_configured = error_response "Miniflux is not configured"

unfoldable pub not_implemented : String → Response
not_implemented operation = record default_response { error = "not implemented: " ++ operation }

unfoldable pub invalid_request : String → Response
invalid_request reason = record default_response { error = "invalid request: " ++ reason }

unfoldable pub null_request : Response
null_request = record default_response { error = "null request" }

unfoldable pub unsupported_operation : String → Response
unfolding unsupported
unsupported_operation operation = record default_response { error = unsupported operation }

unfoldable pub selection_dto : Domain.Selection → SelectionDto
selection_dto (Domain.all id unread_only) = record {
  kind = "all";
  id = id;
  unread_only = unread_only;
}
selection_dto (Domain.unread unread_only) = record {
  kind = "unread";
  id = pos 0;
  unread_only = unread_only;
}
selection_dto (Domain.starred unread_only) = record {
  kind = "starred";
  id = pos 0;
  unread_only = unread_only;
}
selection_dto (Domain.category id unread_only) = record {
  kind = "category";
  id = id;
  unread_only = unread_only;
}
selection_dto (Domain.feed id unread_only) = record {
  kind = "feed";
  id = id;
  unread_only = unread_only;
}

unfoldable pub entry_dto : Entry → EntryDto
entry_dto e = record {
  id = e.id;
  title = e.title;
  url = e.url;
  comments_url = e.comments_url;
  feed_id = e.feed_id;
  feed_name = e.feed_name;
  category_id = e.category_id;
  published_at = e.published_at_rfc3339;
  preview = e.preview;
  image_url = e.image_url;
  status = as_str e.status;
  starred = e.starred;
}

unfoldable pub feed_dto : Feed → FeedDto
feed_dto f = record {
  id = f.id;
  title = f.title;
  category_id = f.category_id;
  unread_count = f.unread_count;
}

unfoldable pub category_dto : Category → CategoryDto
unfolding feed_dto
category_dto c = record {
  id = c.id;
  title = c.title;
  unread_count = c.unread_count;
  feeds = map feed_dto c.feeds;
}

-- An empty list of categories is no list on the wire.
unfoldable pub categories_dto : List Category → Option (List CategoryDto)
unfolding category_dto
categories_dto [] = none
categories_dto (c ∷ cs) = some (map category_dto (c ∷ cs))

unfoldable pub assemble : SnapshotData → BrowseSnapshot
unfolding selection_dto entry_dto categories_dto
assemble data_ = record {
  version = data_.version;
  selection = selection_dto data_.selection;
  entries = map entry_dto data_.entries;
  categories = categories_dto data_.categories;
  total = data_.total;
  unread_total = data_.unread_total;
  starred_total = data_.starred_total;
}
