-- ===== src/Domain/Selection.antt =====
-- rust-core/src/domain/selection.rs: which articles are shown, and its normalization.
use flux_bar.Prelude.{Bool, true, ◌&&◌, String, ◌==◌, ℤ, pos, ltb_ℤ, if◌then◌else◌}

pub data Selection : Type 0 where
  all : ℤ → Bool → Selection
  unread : Bool → Selection
  starred : Bool → Selection
  category : ℤ → Bool → Selection
  feed : ℤ → Bool → Selection

unfoldable pub normalize : String → ℤ → Bool → Selection
normalize kind id unread_only =
    if kind == "all"
    then all id unread_only
    else if kind == "unread"
    then unread unread_only
    else if kind == "starred"
    then starred unread_only
    else if kind == "category" && ltb_ℤ (pos 0) id
    then category id unread_only
    else if kind == "feed" && ltb_ℤ (pos 0) id
    then feed id unread_only
    else all (pos 0) true

unfoldable pub is_unread_only : Selection → Bool
is_unread_only (unread _) = true
is_unread_only (all _ unread_only) = unread_only
is_unread_only (starred unread_only) = unread_only
is_unread_only (category _ unread_only) = unread_only
is_unread_only (feed _ unread_only) = unread_only

unfoldable pub scope_id : Selection → ℤ
scope_id (category id _) = id
scope_id (feed id _) = id
scope_id _ = pos 0
