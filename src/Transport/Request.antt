-- ===== src/Transport/Request.antt =====
-- rust-core/src/transport/request.rs: the flat request envelope and the typed operations. The fields
-- of the feature `mobile-runtime-proof`, which is off by default, are left out.
use Prim.Native.String.{◌++◌}
use flux_bar.Prelude.{Bool, false, List, [], String, ◌==◌, ℤ, pos, Result, ok, err, if◌then◌else◌}
use flux_bar.Domain.Selection.{normalize}
use flux_bar.Domain.Selection as Domain

-- The wire form of a selection.
pub record Selection : Type 0 where
  pub kind : String
  pub id : ℤ
  pub unread_only : Bool

unfoldable pub to_domain : Selection → Domain.Selection
to_domain s = normalize s.kind s.id s.unread_only

pub record Request : Type 0 where
  pub operation : String
  pub server : String
  pub api_key : String
  pub newest_first : Bool
  pub configuration_generation : ℤ
  pub locales : List String
  pub key : String
  pub fallback : String
  pub one_fallback : String
  pub other_fallback : String
  pub count : ℤ
  pub selection : Selection
  pub entry_id : ℤ
  pub entry_ids : List ℤ
  pub retain_entry_ids : List ℤ
  pub read : Bool
  pub mutation_source : String
  pub mutation_id : String
  pub current_starred : Bool
  pub desired_starred : Bool
  pub feed_id : ℤ
  pub feed_name : String

-- `Request::default()`
abbrev pub default_request : Request
default_request = record {
  operation = "";
  server = "";
  api_key = "";
  newest_first = false;
  configuration_generation = pos 0;
  locales = [];
  key = "";
  fallback = "";
  one_fallback = "";
  other_fallback = "";
  count = pos 0;
  selection = record { kind = ""; id = pos 0; unread_only = false };
  entry_id = pos 0;
  entry_ids = [];
  retain_entry_ids = [];
  read = false;
  mutation_source = "";
  mutation_id = "";
  current_starred = false;
  desired_starred = false;
  feed_id = pos 0;
  feed_name = "";
}

pub data Operation : Type 0 where
  -- server, api_key, newest_first, configuration_generation, locales
  configure : String → String → Bool → ℤ → List String → Operation
  -- selection, retain_entry_ids
  local_snapshot : Selection → List ℤ → Operation
  refresh : Selection → List ℤ → Operation
  -- selection, entry_id, entry_ids, retain_entry_ids, read, mutation_source
  set_read : Selection → ℤ → List ℤ → List ℤ → Bool → String → Operation
  -- selection, entry_id, retain_entry_ids, desired_starred
  set_starred : Selection → ℤ → List ℤ → Bool → Operation
  -- selection, mutation_id, retain_entry_ids
  undo_read : Selection → String → List ℤ → Operation
  -- mutation_id
  discard_undo : String → Operation
  -- selection, retain_entry_ids
  flush_pending : Selection → List ℤ → Operation
  -- feed_id, feed_name
  feed_icon : ℤ → String → Operation
  -- locales, key, fallback
  localize : List String → String → String → Operation
  -- locales, key, one_fallback, other_fallback, count
  localize_plural : List String → String → String → String → ℤ → Operation

unfoldable pub unsupported : String → String
unsupported other = "unsupported operation \"" ++ (other ++ "\"")

unfoldable pub into_operation : Request → Result String Operation
into_operation r =
    if r.operation == "configure"
    then ok (configure r.server r.api_key r.newest_first r.configuration_generation r.locales)
    else if r.operation == "local_snapshot"
    then ok (local_snapshot r.selection r.retain_entry_ids)
    else if r.operation == "refresh"
    then ok (refresh r.selection r.retain_entry_ids)
    else if r.operation == "set_read"
    then ok
        (set_read r.selection r.entry_id r.entry_ids r.retain_entry_ids r.read r.mutation_source)
    else if r.operation == "set_starred"
    then ok (set_starred r.selection r.entry_id r.retain_entry_ids r.desired_starred)
    else if r.operation == "undo_read"
    then ok (undo_read r.selection r.mutation_id r.retain_entry_ids)
    else if r.operation == "discard_undo"
    then ok (discard_undo r.mutation_id)
    else if r.operation == "flush_pending"
    then ok (flush_pending r.selection r.retain_entry_ids)
    else if r.operation == "feed_icon"
    then ok (feed_icon r.feed_id r.feed_name)
    else if r.operation == "localize"
    then ok (localize r.locales r.key r.fallback)
    else if r.operation == "localize_plural"
    then ok (localize_plural r.locales r.key r.one_fallback r.other_fallback r.count)
    else if r.operation == ""
    then err "unsupported operation \"\""
    else err (unsupported r.operation)

unfoldable pub operation_name : Operation → String
operation_name (configure _ _ _ _ _) = "configure"
operation_name (local_snapshot _ _) = "local_snapshot"
operation_name (refresh _ _) = "refresh"
operation_name (set_read _ _ _ _ _ _) = "set_read"
operation_name (set_starred _ _ _ _) = "set_starred"
operation_name (undo_read _ _ _) = "undo_read"
operation_name (discard_undo _) = "discard_undo"
operation_name (flush_pending _ _) = "flush_pending"
operation_name (feed_icon _ _) = "feed_icon"
operation_name (localize _ _ _) = "localize"
operation_name (localize_plural _ _ _ _ _) = "localize_plural"
