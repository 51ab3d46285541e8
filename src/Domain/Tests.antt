-- ===== src/Domain/Tests.antt =====
-- A navigation of one category, with a feed that has no parent.
use flux_bar.Prelude.{◌≡◌, true, ◌&&◌, List, [], ◌∷◌, ℤ, pos}
use flux_bar.Sql.{count_rows}
use flux_bar.Domain.Navigation.{CategoryInput, FeedInput, build_navigation}
use flux_bar.Domain.NavigationLaws.{feeds_in, is_known, feeds_in-build_navigation}

abbrev categories : List CategoryInput
categories = record { id = pos 2; title = "News" } ∷ []

abbrev feeds : List FeedInput
feeds =
    record { id = pos 1; title = "Feed"; category_id = pos 2 }
    ∷ record { id = pos 3; title = "Orphan"; category_id = pos 9 }
    ∷ []

abbrev counters : List (ℤ × ℤ)
counters = (pos 1, pos 5) ∷ []

feeds_in-build_navigation_example :
    feeds_in (λ _. true) (build_navigation (λ t. t) categories feeds counters).0
    ≡ count_rows (λ f. is_known categories f && true) feeds
feeds_in-build_navigation_example =
    feeds_in-build_navigation (λ t. t) (λ _. true) categories feeds counters
