-- ===== src/Icons/Tests.antt =====
-- A data URL, and two threads that want one icon.
use flux_bar.Prelude.{
  ℕ, ◌≡◌, ◌⊎◌, refl, true, false, some, List, String, Result, [], ◌∷◌, ℤ, pos, ok, err, id_eq,
}
use flux_bar.Icons.Data.{
  BackgroundMode, IconError, from_env_lists, contains_id, decode_data_url, decode_split,
  decode_parts, decoded_icon, split_once, strip_prefix, has_base64, feed_id_set, positive_ids,
}
use flux_bar.Icons.Flight.{
  IconService, loading, leaving, waiting, unload, unloaded, begun, claim, with_phase, missed,
  unclaimed, Steps, still, stepped, called, missed_cache, found_load, found_no_load, claimed,
  new_service,
}
use flux_bar.Icons.DataLaws.{decode_data_url-IsImage}
use flux_bar.Icons.FlightLaws.{single_flight, waits_on_load}
use flux_bar.Text.{
  is_empty, is_whitespace, split_by, starts_with, to_ascii_lowercase, trim, trim_start, trim_end,
}
use flux_bar.Text.Numbers.{parse_i64, parse_integer, is_i64}

abbrev zero_byte : String → Result String (List ℕ)
zero_byte _ = ok (0 ∷ [])

small_image :
    decode_data_url to_ascii_lowercase zero_byte " data:image/PNG;Base64,AA== "
    ≡ ok ("image/png", 0 ∷ [])
unfolding decode_data_url decode_split split_once trim trim_start trim_end is_empty is_whitespace
    decode_parts split_by strip_prefix starts_with to_ascii_lowercase has_base64 decoded_icon
small_image = refl

no_image :
    decode_data_url to_ascii_lowercase zero_byte "text/html;base64,AA=="
    ≡ err IconError.not_an_image
unfolding decode_data_url decode_split split_once trim trim_start trim_end is_empty is_whitespace
    decode_parts split_by strip_prefix starts_with to_ascii_lowercase
no_image = refl

always_wins : from_env_lists (feed_id_set "7, x, -2") (pos 7 ∷ []) (pos 7) ≡ BackgroundMode.always
unfolding from_env_lists contains_id feed_id_set positive_ids split_by parse_i64 parse_integer trim
    trim_start trim_end is_empty is_whitespace is_i64 id_eq
always_wins = refl

-- Thread 0 has the slot, thread 1 is about to look for one.
abbrev feed : ℤ
feed = pos 7

abbrev one_load : IconService
one_load =
    claim 0 feed
      (with_phase 0 (unclaimed feed) (with_phase 0 (missed feed) (begun 0 feed false new_service)))

abbrev one_waits : IconService
one_waits = with_phase 1 (waiting feed 0) (with_phase 1 (missed feed) (begun 1 feed true one_load))

one_load-Steps : Steps new_service one_load
one_load-Steps =
    stepped
      (stepped
        (stepped (stepped still (called _ 0 feed false refl)) (missed_cache _ 0 feed refl refl))
        (found_no_load _ 0 feed refl refl))
      (claimed _ 0 feed refl refl)

one_waits-Steps : Steps new_service one_waits
unfolding id_eq
one_waits-Steps =
    stepped
      (stepped (stepped one_load-Steps (called _ 1 feed true refl))
        (missed_cache _ 1 feed refl refl))
      (found_load _ 1 feed 0 refl refl)

single_flight_example : ◌≡◌ {A = ℕ} 0 0
single_flight_example = single_flight 0 0 feed 0 0 one_waits-Steps refl refl

-- The load of thread 0 is out of the map, and its slot is not ready yet.
abbrev one_leaves : IconService
one_leaves = unload 0 feed 0 one_waits

waits_on_load_example :
    (one_leaves.ready 0 ≡ true)
    ⊎ ((one_leaves.phase (one_leaves.owner 0) ≡ loading feed 0)
        ⊎ (one_leaves.phase (one_leaves.owner 0) ≡ leaving feed 0))
waits_on_load_example =
    waits_on_load 1 feed 0 (stepped one_waits-Steps (unloaded _ 0 feed 0 refl)) refl

decode_data_url-IsImage_example :
    (starts_with "image/" "image/png" ≡ true)
    × ((header : String) × ((payload : String) × ((split_once b','
                (trim " data:image/PNG;Base64,AA== ")
              ≡ some (header, payload))
            × (zero_byte (trim payload) ≡ ok (0 ∷ [])))))
decode_data_url-IsImage_example =
    decode_data_url-IsImage to_ascii_lowercase zero_byte " data:image/PNG;Base64,AA== " "image/png"
      (0 ∷ []) small_image
