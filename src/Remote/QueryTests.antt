-- ===== src/Remote/QueryTests.antt =====
-- The query of a filter with a search that has characters to escape.
use Prim.Native.Char.{code}
use Prim.Native.String.{[], ◌∷◌}
use flux_bar.Prelude.{ℕ, ◌≡◌, refl, some, List, [], ◌∷◌, String, pos, arith}
use flux_bar.Remote.Dto.{EntriesFilter, default_filter}
use flux_bar.Remote.Query.{
  is_plain, hex_digit, urlencode, bytes_lt, insert_pair, sort_pairs, join_pairs, query_of,
  query_pairs, to_query,
}
use flux_bar.Remote.QueryLaws.{percent_decode, percent_decode-urlencode}

-- The bytes of an ASCII text.
unfoldable ascii : String → List ℕ
ascii [] = []
ascii (c ∷ s) = code c ∷ ascii s

abbrev one_page : EntriesFilter
one_page = record default_filter { status = some "un#"; direction = some "asc"; limit = pos 1 }

page_query :
    to_query ascii (λ _. "0") one_page ≡ ascii "?direction=asc&limit=0&offset=0&status=un%23"
unfolding ascii to_query query_of sort_pairs query_pairs insert_pair bytes_lt join_pairs urlencode
    is_plain hex_digit
page_query = refl

percent_decode-urlencode_example :
    percent_decode (urlencode (37 ∷ 195 ∷ 38 ∷ [])) ≡ 37 ∷ 195 ∷ 38 ∷ []
percent_decode-urlencode_example =
    percent_decode-urlencode (37 ∷ 195 ∷ 38 ∷ []) (omega arith, (omega arith, (omega arith, tt)))
