-- ===== src/Transport/FieldsTests.antt =====
-- A request with one key in two spellings.
use flux_bar.Text.{to_ascii_lowercase}
use flux_bar.Transport.Fields.{after}
use flux_bar.Prelude.{◌≡◌, refl, false, none, some, [], ◌∷◌, ◌++◌, String, ◌==◌, pos, ok, err}
use flux_bar.Transport.Request.{default_request}
use flux_bar.Transport.Fields.{
  JsonPackage, same_letters, canonical_in, canonical, insert_value, read_field, visit_selection,
  value_of, visit_map,
}
use flux_bar.Transport.FieldsLaws.{find_value, visit_map-last}

-- All values are texts.
abbrev texts : JsonPackage
texts = record {
  Value = String;
  null = "null";
  of_text = λ s. s;
  of_int = λ _. "1";
  of_bool = λ _. "true";
  of_object = λ _. "{}";
  read_text = λ s. ok (some s);
  read_int = λ _. ok (some (pos 1));
  read_bool = λ _. err "not a boolean";
  read_object = λ _. ok none;
}

a_selection :
    visit_selection texts
      (("KIND", "feed") ∷ ("other", "x") ∷ ("ID", "1") ∷ [])
      default_request.selection
    ≡ ok (record { kind = "feed"; id = pos 1; unread_only = false })
unfolding visit_selection after read_field same_letters to_ascii_lowercase
a_selection = refl

three_keys :
    visit_map texts ((("KEY", "a") ∷ []) ++ (("Key", "b") ∷ (("entryid", "7") ∷ []))) []
    ≡ ok (("key", "b") ∷ ("entryID", "7") ∷ [])
unfolding visit_map after value_of canonical canonical_in same_letters to_ascii_lowercase
    insert_value
three_keys = refl

key_field : canonical "Key" ≡ "key"
unfolding canonical canonical_in same_letters to_ascii_lowercase
key_field = refl

plain : canonical "Key" == "selection" ≡ false
unfolding canonical canonical_in same_letters to_ascii_lowercase
plain = refl

apart : canonical "entryid" == canonical "Key" ≡ false
unfolding canonical canonical_in same_letters to_ascii_lowercase
apart = refl

visit_map-last_example :
    find_value {V = String} (canonical "Key") (("key", "b") ∷ ("entryID", "7") ∷ []) ≡ some "b"
visit_map-last_example =
    visit_map-last texts (("KEY", "a") ∷ []) (("entryid", "7") ∷ [])
      (("key", "b") ∷ ("entryID", "7") ∷ []) "Key" "b" plain (apart, tt) three_keys
