-- ===== src/Remote/Query.antt =====
-- `EntriesFilter::to_query` and `urlencode` of rust-core/src/remote/dto.rs, on the bytes of a text: `utf8`
-- is `String::bytes`, `to_text` is `to_string` of an integer.
use flux_bar.Prelude.{
  ℕ, ◌+◌, ◌/◌, ◌%◌, Bool, true, false, ◌&&◌, ◌||◌, Option, none, some, List, [], ◌∷◌, ◌++◌, map,
  String, ℤ, pos, ltb, leb, nat_eq, ltb_ℤ, not, if◌then◌else◌,
}
use flux_bar.Remote.Dto.{EntriesFilter}

abbrev pub within : ℕ → ℕ → ℕ → Bool
within low high n = leb low n && leb n high

-- The bytes that `urlencode` leaves.
unfoldable pub is_plain : ℕ → Bool
is_plain b =
    within 65 90 b
    || within 97 122 b
    || within 48 57 b
    || nat_eq b b'-'
    || nat_eq b b'_'
    || nat_eq b b'.'
    || nat_eq b b'~'
    || nat_eq b b'$'
    || nat_eq b b'&'
    || nat_eq b b'+'
    || nat_eq b b','
    || nat_eq b b'/'
    || nat_eq b b':'
    || nat_eq b b';'
    || nat_eq b b'='
    || nat_eq b b'?'
    || nat_eq b b'@'

-- A digit of `{byte:02X}`.
unfoldable pub hex_digit : ℕ → ℕ
hex_digit n = if ltb n 10 then 48 + n else 55 + n

unfoldable pub urlencode : List ℕ → List ℕ
urlencode [] = []
urlencode (b ∷ bytes) =
    let rest = urlencode bytes in
    if is_plain b then b ∷ rest else b'%' ∷ hex_digit (b / 16) ∷ hex_digit (b % 16) ∷ rest

-- The order of strings.
unfoldable pub bytes_lt : List ℕ → List ℕ → Bool
bytes_lt a [] = false
bytes_lt [] (y ∷ ys) = true
bytes_lt (x ∷ xs) (y ∷ ys) = ltb x y || nat_eq x y && bytes_lt xs ys

-- `sort_by`, which keeps the order of equal keys.
unfoldable pub insert_pair : List ℕ × List ℕ → List (List ℕ × List ℕ) → List (List ℕ × List ℕ)
insert_pair p [] = p ∷ []
insert_pair p (q ∷ qs) =
    let rest = insert_pair p qs in if bytes_lt (q.0) (p.0) then q ∷ rest else p ∷ q ∷ qs

unfoldable pub sort_pairs : List (List ℕ × List ℕ) → List (List ℕ × List ℕ)
sort_pairs [] = []
sort_pairs (p ∷ pairs) = insert_pair p (sort_pairs pairs)

-- `join("&")` of the pairs.
unfoldable pub join_pairs : List (List ℕ × List ℕ) → List ℕ
join_pairs [] = []
join_pairs ((key, value) ∷ []) = key ++ (b'=' ∷ urlencode value)
join_pairs ((key, value) ∷ next ∷ pairs) =
    key ++ (b'=' ∷ (urlencode value ++ (b'&' ∷ join_pairs (next ∷ pairs))))

unfoldable pub query_of : List (List ℕ × List ℕ) → List ℕ
query_of [] = []
query_of (p ∷ pairs) = b'?' ∷ join_pairs (p ∷ pairs)

module _ (utf8 : String → List ℕ) (to_text : ℤ → String) where
  abbrev pair : String → String → List ℕ × List ℕ
  pair key value = (utf8 key, utf8 value)

  abbrev pub optional_pair : String → Option String → List (List ℕ × List ℕ)
  optional_pair key none = []
  optional_pair key (some value) = pair key value ∷ []

  abbrev pub number_pair : String → Bool → ℤ → List (List ℕ × List ℕ)
  number_pair key given n = if given then pair key (to_text n) ∷ [] else []

  unfoldable pub query_pairs : EntriesFilter → List (List ℕ × List ℕ)
  query_pairs f =
      optional_pair "status" f.status
      ++ (optional_pair "direction" f.direction
          ++ (optional_pair "order" f.order
              ++ (number_pair "limit" (not (ltb_ℤ f.limit (pos 0))) f.limit
                  ++ (number_pair "offset" (not (ltb_ℤ f.offset (pos 0))) f.offset
                      ++ (number_pair "after_entry_id" (ltb_ℤ (pos 0) f.after_entry_id)
                            f.after_entry_id
                          ++ (optional_pair "starred" f.starred
                              ++ (number_pair "category_id" (ltb_ℤ (pos 0) f.category_id)
                                    f.category_id
                                  ++ (number_pair "feed_id" (ltb_ℤ (pos 0) f.feed_id) f.feed_id
                                      ++ map (pair "status") f.statuses))))))))

  unfoldable pub to_query : EntriesFilter → List ℕ
  to_query f = query_of (sort_pairs (query_pairs f))
