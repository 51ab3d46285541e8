-- ===== src/Remote/Tests.antt =====
-- A fetch of one page from a small server.
use flux_bar.Prelude.{
  ◌≡◌, ◌<◌, refl, true, false, none, some, List, [], ◌∷◌, String, ℤ, pos, ok, Result, arith, ℕ,
  id_eq, length, id_eq,
}
use flux_bar.Sql.{exists_row}
use flux_bar.Remote.Error.{RemoteError}
use flux_bar.Remote.Dto.{EntriesFilter, EntryDto, EntryResultSetDto, default_filter}
use flux_bar.Remote.Paging.{
  fetch_complete_selection, on_response, on_collected, or_next, after_page, collect_page,
  expect_total,
}
use flux_bar.Remote.PagingLaws.{is_ascending, fetch_complete}
use flux_bar.Remote.PagingEnd.{Ends, first_total, fetch-Ends}

abbrev text : ℤ → String
text _ = "1"

abbrev article : ℤ → EntryDto
article id = record {
  id = id;
  feed_id = pos 1;
  title = "Title";
  url = "https://example.org";
  comments_url = "";
  status = "unread";
  starred = false;
  published_at = "2026-01-01T00:00:00Z";
  content = "";
  enclosures = [];
  feed = none;
}

abbrev two_articles : List EntryDto
two_articles = article (pos 3) ∷ article (pos 5) ∷ []

abbrev server : ℕ → EntriesFilter → Result RemoteError EntryResultSetDto
server _ _ = ok (record { total = pos 2; entries = two_articles })

fetch_run : fetch_complete_selection text server default_filter 1 ≡ some (ok (two_articles, pos 2))
unfolding fetch_complete_selection on_response on_collected collect_page exists_row id_eq or_next
    after_page expect_total
fetch_run = refl

fetch_complete_example :
    (is_ascending (pos 0) two_articles ≡ true) × (pos (length two_articles) ≡ pos 2)
fetch_complete_example = fetch_complete text server default_filter 1 two_articles (pos 2) fetch_run

first_total_server : first_total (server 0 default_filter) < 200
unfolding first_total
first_total_server = omega arith

fetch-Ends_example : Ends (fetch_complete_selection text server default_filter 1)
unfolding first_total
fetch-Ends_example = fetch-Ends text server default_filter 0 (omega arith)
