-- ===== src/Transport/Fields.antt =====
-- The field tables of rust-core/src/transport/request.rs: `RequestMapVisitor` and `SelectionVisitor`,
-- which read the keys of an object in their order. serde_json is an argument, with the values it reads.
use flux_bar.Prelude.{
  Bool, false, Option, none, some, List, [], ◌∷◌, String, ◌==◌, ℤ, pos, Result, ok, err,
  if◌then◌else◌,
}
use flux_bar.Text.{to_ascii_lowercase}
use flux_bar.Transport.Request.{Selection, default_request}

-- `read_…` is `next_value` at an optional type, where null gives none; `read_object` gives the keys of an
-- object with their values, as they stand in the text.
pub record JsonPackage : Type 1 where
  pub Value : Type 0
  pub null : Value
  pub of_text : String → Value
  pub of_int : ℤ → Value
  pub of_bool : Bool → Value
  pub of_object : List (String × Value) → Value
  pub read_text : Value → Result String (Option String)
  pub read_int : Value → Result String (Option ℤ)
  pub read_bool : Value → Result String (Option Bool)
  pub read_object : Value → Result String (Option (List (String × Value)))

abbrev pub request_fields : List String
request_fields =
    "operation" ∷ "server" ∷ "apiKey" ∷ "newestFirst" ∷ "configurationGeneration" ∷ "locales"
    ∷ "key" ∷ "fallback" ∷ "oneFallback" ∷ "otherFallback" ∷ "count" ∷ "selection" ∷ "entryID"
    ∷ "entryIDs" ∷ "retainEntryIDs" ∷ "read" ∷ "mutationSource" ∷ "mutationID" ∷ "currentStarred"
    ∷ "desiredStarred" ∷ "feedID" ∷ "feedName" ∷ "probeAction" ∷ "probePayload" ∷ "probeSize"
    ∷ "probeAllowedRoot" ∷ "probeDbFilename" ∷ "probeKey" ∷ "probeValue" ∷ "probeUrl"
    ∷ "probeTimeoutMs" ∷ "probeIterations" ∷ "probeConfirmPanic" ∷ []

-- `eq_ignore_ascii_case`
unfoldable pub same_letters : String → String → Bool
same_letters a b = to_ascii_lowercase a == to_ascii_lowercase b

-- The first field with the letters of the key, or the key.
unfoldable pub canonical_in : List String → String → String
canonical_in [] key = key
canonical_in (field ∷ fields) key =
    let rest = canonical_in fields key in if same_letters field key then field else rest

unfoldable pub canonical : String → String
canonical key = canonical_in request_fields key

-- `insert` of a map.
unfoldable pub insert_value : {V : Type 0} → String → V → List (String × V) → List (String × V)
insert_value key v [] = (key, v) ∷ []
insert_value key v ((k, old) ∷ object) =
    let rest = insert_value key v object in if k == key then (k, v) ∷ object else (k, old) ∷ rest

abbrev pub or_default : {A : Type 0} → A → Option A → A
or_default start none = start
or_default _ (some a) = a

unfoldable pub after : {A B : Type 0} → Result String A → (A → Result String B) → Result String B
after (ok a) next = next a
after (err e) next = err e

module _ (json : JsonPackage) where
  -- One key of a selection.
  unfoldable pub read_field : String → json.Value → Selection → Result String Selection
  read_field key v s =
      if same_letters key "kind"
      then after (json.read_text v) (λ kind. ok (record s { kind = or_default "" kind }))
      else if same_letters key "id"
      then after (json.read_int v) (λ id. ok (record s { id = or_default (pos 0) id }))
      else if same_letters key "unreadOnly"
      then after (json.read_bool v) (λ only. ok (record s { unread_only = or_default false only }))
      else ok s

  unfoldable pub visit_selection : List (String × json.Value) → Selection → Result String Selection
  visit_selection [] s = ok s
  visit_selection ((key, v) ∷ entries) s =
      after (read_field key v s) (λ next. visit_selection entries next)

  unfoldable pub selection_value : Option (List (String × json.Value)) → Result String json.Value
  selection_value none = ok json.null
  selection_value (some entries) = after (visit_selection entries default_request.selection) (λ s.
      ok (
        json.of_object (
          ("kind", json.of_text s.kind)
          ∷ ("id", json.of_int s.id)
          ∷ ("unreadOnly", json.of_bool s.unread_only)
          ∷ [])))

  unfoldable pub value_of : String → json.Value → Result String json.Value
  value_of field v =
      if field == "selection" then after (json.read_object v) selection_value else ok v

  -- The keys of the request, from the first to the last.
  unfoldable pub visit_map :
      List (String × json.Value)
      → List (String × json.Value)
      → Result String (List (String × json.Value))
  visit_map [] object = ok object
  visit_map ((key, v) ∷ entries) object =
      let field = canonical key in
      after (value_of field v) (λ value. visit_map entries (insert_value field value object))
