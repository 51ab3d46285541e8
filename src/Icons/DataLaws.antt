-- ===== src/Icons/DataLaws.antt =====
-- What a decoded data URL is.
use mathlib.Core.Path.{subst}
use flux_bar.Prelude.{
  ℕ, ◌≡◌, refl, true, Option, none, some, String, Result, ok, err, Bool-cases, inl, inr,
}
use mathlib.Core.List.{List, [], ◌∷◌}
use flux_bar.Text.{is_code, is_empty, split_by, starts_with, trim}
use flux_bar.Icons.Data.{
  IconError, decode_data_url, decode_split, decode_parts, decoded_icon, split_once, strip_prefix,
  has_base64, or_whole,
}

module _ (lower : String → String) (base64 : String → Result String (List ℕ)) where
  -- An image type, and the bytes that the package makes of what is behind the comma.
  IsImage : Option (String × String) → Result IconError (String × List ℕ) → Type 0
  IsImage cut (err e) = Unit
  IsImage cut (ok (media_type, bytes)) =
      (starts_with "image/" media_type ≡ true)
      × ((header : String) × ((payload : String) × ((cut ≡ some (header, payload))
              × (base64 (trim payload) ≡ ok bytes))))

  module _ (header payload : String) where
    IsImage-decoded_icon :
        (media_type : String) (decoded : Result String (List ℕ))
        → starts_with "image/" media_type ≡ true
        → base64 (trim payload) ≡ decoded
        → IsImage (some (header, payload)) (decoded_icon media_type decoded)
    unfolding IsImage decoded_icon
    IsImage-decoded_icon media_type (ok bytes) image h = (image, (header, (payload, (refl, h))))
    IsImage-decoded_icon media_type (err reason) image h = tt

    IsImage-decode_parts :
        (parts : List String)
        → IsImage (some (header, payload)) (decode_parts lower base64 parts payload)
    unfolding IsImage decode_parts
    IsImage-decode_parts [] = tt
    IsImage-decode_parts (media ∷ parts) =
        let media_type = lower (trim media) in
        elim (Bool-cases (starts_with "image/" media_type)) [
          | inl image ↦ elim (Bool-cases (has_base64 parts)) [
            | inl encoded ↦
                rw (image, encoded)
                  (IsImage-decoded_icon media_type (base64 (trim payload)) image refl)
            | inr plain ↦ rw (image, plain) tt
          ]
          | inr other ↦ rw other tt
        ]

  IsImage-decode_split :
      (cut : Option (String × String)) → IsImage cut (decode_split lower base64 cut)
  unfolding IsImage decode_split
  IsImage-decode_split none = tt
  IsImage-decode_split (some (header, payload)) = elim (Bool-cases (is_empty payload)) [
    | inl nothing ↦ rw nothing tt
    | inr there ↦
        let trimmed = trim header in
        rw there (
          IsImage-decode_parts header payload
            (split_by (is_code b';') (or_whole trimmed (strip_prefix "data:" trimmed))))
  ]

  -- A data URL that is decoded has an image type, and its bytes are those that the decoder of the base64
  -- package makes of the trimmed text behind the first comma.
  pub decode_data_url-IsImage :
      (value media_type : String) (bytes : List ℕ)
      → decode_data_url lower base64 value ≡ ok (media_type, bytes)
      → (starts_with "image/" media_type ≡ true)
        × ((header : String) × ((payload : String) × ((split_once b',' (trim value)
                  ≡ some (header, payload))
                × (base64 (trim payload) ≡ ok bytes))))
  unfolding decode_data_url IsImage
  decode_data_url-IsImage value media_type bytes h =
      let cut = split_once b',' (trim value) in subst (IsImage cut) h (IsImage-decode_split cut)
