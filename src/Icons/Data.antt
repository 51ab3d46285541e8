-- ===== src/Icons/Data.antt =====
-- The data URLs and the background modes of rust-core/src/icons.rs. `lower` is `to_lowercase`, `base64`
-- is the decoder of the base64 package with the text of its error.
use Prim.Native.Char.{Char, code}
use Prim.Native.String.{[], ◌∷◌, ◌++◌}
use flux_bar.Prelude.{
  ℕ, Bool, false, not, ◌||◌, Option, none, some, String, ◌==◌, ℤ, id_eq, Result, ok, err,
  if◌then◌else◌, pos, negsuc, zero, suc,
}
use mathlib.Core.List.{List, [], ◌∷◌}
use flux_bar.Text.{is_code, is_empty, split_by, starts_with, trim, to_ascii_lowercase}
use flux_bar.Text.Numbers.{parse_i64}

pub data BackgroundMode : Type 0 where
  auto : BackgroundMode
  always : BackgroundMode
  never : BackgroundMode

unfoldable pub contains_id : ℤ → List ℤ → Bool
contains_id x [] = false
contains_id x (y ∷ ys) = id_eq y x || contains_id x ys

unfoldable pub from_env_lists : List ℤ → List ℤ → ℤ → BackgroundMode
from_env_lists on off feed_id =
    if contains_id feed_id on
    then BackgroundMode.always
    else if contains_id feed_id off
    then BackgroundMode.never
    else BackgroundMode.auto

pub data IconError : Type 0 where
  invalid_data_url : IconError
  not_an_image : IconError
  not_base64 : IconError
  decode_failed : String → IconError
  empty_icon : IconError
  invalid_size : IconError
  unknown_background_mode : String → IconError

-- `Display`; `quoted` is the debug form of a string.
unfoldable pub error_text : (String → String) → IconError → String
error_text quoted IconError.invalid_data_url = "ungueltige Icon-Daten-URL"
error_text quoted IconError.not_an_image = "Icon ist kein Bild"
error_text quoted IconError.not_base64 = "Icon ist nicht base64-kodiert"
error_text quoted (IconError.decode_failed reason) = "Icon kann nicht dekodiert werden: " ++ reason
error_text quoted IconError.empty_icon = "Icon ist leer"
error_text quoted IconError.invalid_size = "Icon hat keine gueltige Groesse"
error_text quoted (IconError.unknown_background_mode mode) =
    "unbekannter Hintergrundmodus " ++ quoted mode

abbrev before_cut : Char → Option (String × String) → Option (String × String)
before_cut c none = none
before_cut c (some (before, after)) = some (c ∷ before, after)

-- `split_once` at a character.
unfoldable pub split_once : ℕ → String → Option (String × String)
split_once n [] = none
split_once n (c ∷ s) =
    let rest = split_once n s in if is_code n c then some ([], s) else before_cut c rest

-- `strip_prefix`
unfoldable pub strip_prefix : String → String → Option String
strip_prefix [] s = some s
strip_prefix (p ∷ prefix) [] = none
strip_prefix (p ∷ prefix) (c ∷ s) =
    let rest = strip_prefix prefix s in if is_code (code p) c then rest else none

abbrev pub or_whole : String → Option String → String
or_whole s none = s
or_whole s (some rest) = rest

-- Whether a part is `base64`.
unfoldable pub has_base64 : List String → Bool
has_base64 [] = false
has_base64 (part ∷ parts) = to_ascii_lowercase (trim part) == "base64" || has_base64 parts

unfoldable pub decoded_icon : String → Result String (List ℕ) → Result IconError (String × List ℕ)
decoded_icon media_type (ok bytes) = ok (media_type, bytes)
decoded_icon media_type (err reason) = err (IconError.decode_failed reason)

module _ (lower : String → String) (base64 : String → Result String (List ℕ)) where
  unfoldable pub decode_parts : List String → String → Result IconError (String × List ℕ)
  decode_parts [] payload = err IconError.invalid_data_url
  decode_parts (media ∷ parts) payload =
      let media_type = lower (trim media) in
      if not (starts_with "image/" media_type)
      then err IconError.not_an_image
      else if not (has_base64 parts)
      then err IconError.not_base64
      else decoded_icon media_type (base64 (trim payload))

  unfoldable pub decode_split : Option (String × String) → Result IconError (String × List ℕ)
  decode_split none = err IconError.invalid_data_url
  decode_split (some (header, payload)) =
      let trimmed = trim header in
      if is_empty payload
      then err IconError.invalid_data_url
      else decode_parts (split_by (is_code b';') (or_whole trimmed (strip_prefix "data:" trimmed)))
          payload

  unfoldable pub decode_data_url : String → Result IconError (String × List ℕ)
  decode_data_url value = decode_split (split_once b',' (trim value))

abbrev with_id : Option ℤ → List ℤ → List ℤ
with_id (some (pos (suc n))) ids = pos (suc n) ∷ ids
with_id (some (pos zero)) ids = ids
with_id (some (negsuc n)) ids = ids
with_id none ids = ids

unfoldable pub positive_ids : List String → List ℤ
positive_ids [] = []
positive_ids (part ∷ parts) = with_id (parse_i64 (trim part)) (positive_ids parts)

-- The positive identifiers of a text with commas; the set is the list.
unfoldable pub feed_id_set : String → List ℤ
feed_id_set value = positive_ids (split_by (is_code b',') value)
