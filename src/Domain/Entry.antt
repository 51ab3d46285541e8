-- ===== src/Domain/Entry.antt =====
-- rust-core/src/domain/entry.rs: an article, its read state, and the tests of a selection.
use flux_bar.Prelude.{
  ◌≡◌, Bool, true, false, not, String, ◌==◌, eq_iff, ℤ, id_eq, arith, if◌then◌else◌,
}
use flux_bar.Domain.Selection.{Selection, category, feed, is_unread_only}

pub data EntryStatus : Type 0 where
  read : EntryStatus
  unread : EntryStatus
  other : String → EntryStatus

unfoldable pub as_str : EntryStatus → String
as_str read = "read"
as_str unread = "unread"
as_str (other value) = value

unfoldable pub parse : String → EntryStatus
parse value = if value == "read" then read else if value == "unread" then unread else other value

-- `self.status == EntryStatus::Unread`
unfoldable pub is_unread : EntryStatus → Bool
is_unread unread = true
is_unread _ = false

pub record Entry : Type 0 where
  pub id : ℤ
  pub title : String
  pub url : String
  pub comments_url : String
  pub feed_id : ℤ
  pub feed_name : String
  pub category_id : ℤ
  pub published_at_rfc3339 : String
  pub preview : String
  pub image_url : String
  pub status : EntryStatus
  pub starred : Bool

unfoldable pub matches_scope : Entry → Selection → Bool
matches_scope e (category id _) = id_eq e.category_id id
matches_scope e (feed id _) = id_eq e.feed_id id
matches_scope e _ = true

unfoldable pub matches_read_state : Entry → Selection → Bool
unfolding is_unread_only is_unread
matches_read_state e selection = if not (is_unread_only selection) then true else is_unread e.status

-- A status string survives parsing, whatever it is.
pub as_str-parse : (value : String) → as_str (parse value) ≡ value
unfolding as_str parse
as_str-parse value = ground (arith, eq_iff value "read", eq_iff value "unread")
