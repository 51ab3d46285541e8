-- ===== src/Domain/Navigation.antt =====
-- rust-core/src/domain/navigation.rs: categories with their feeds and unread counts.
--
-- `to_lowercase` is the standard library's, an argument here. Counters are `i32` sums.
use Prim.Native.Nat.{Ordering}
use Prim.Native.String.{compare}
use flux_bar.Prelude.{
  Bool, true, false, Option, none, some, List, [], ◌∷◌, map, String, ℤ, pos, id_eq, add_i32, ℕ,
  zero, suc, if◌then◌else◌,
}

pub record Feed : Type 0 where
  pub id : ℤ
  pub title : String
  pub category_id : ℤ
  pub unread_count : ℤ

pub record Category : Type 0 where
  pub id : ℤ
  pub title : String
  pub unread_count : ℤ
  pub feeds : List Feed

pub record CategoryInput : Type 0 where
  pub id : ℤ
  pub title : String

pub record FeedInput : Type 0 where
  pub id : ℤ
  pub title : String
  pub category_id : ℤ

-- `unread_counters.get(&feed.id).copied().unwrap_or(0)`, on an association list.
unfoldable pub counter : List (ℤ × ℤ) → ℤ → ℤ
counter [] id = pos 0
counter ((k, n) ∷ counters) id = if id_eq k id then n else counter counters id

-- `indexes.get(&feed.category_id)`: a later category with the same identifier replaces an earlier
-- one in the index, so the last one is found.
unfoldable pub last_index : ℤ → List Category → Option ℕ
last_index id [] = none
last_index id (c ∷ cs) = elim (last_index id cs) [
  | some i ↦ some (suc i)
  | none ↦ if id_eq c.id id then some zero else none
]

unfoldable pub push : Feed → List Feed → List Feed
push f [] = f ∷ []
push f (x ∷ xs) = x ∷ push f xs

-- `result[index].unread_count += unread_count; result[index].feeds.push(...)`
unfoldable pub push_feed : ℕ → Feed → List Category → List Category
unfolding push
push_feed i f [] = []
push_feed zero f (c ∷ cs) =
    record c { unread_count = add_i32 c.unread_count f.unread_count; feeds = push f c.feeds } ∷ cs
push_feed (suc i) f (c ∷ cs) = c ∷ push_feed i f cs

unfoldable pub initial : List CategoryInput → List Category
initial = map λ c. record { id = c.id; title = c.title; unread_count = pos 0; feeds = [] }

-- The body of the loop over the feeds, when the index found a category or none.
unfoldable pub add_found : Option ℕ → Feed → List Category × ℤ → List Category × ℤ
add_found none f (result, total) = (result, total)
add_found (some i) f (result, total) = (push_feed i f result, add_i32 total f.unread_count)

unfoldable pub feed_of : List (ℤ × ℤ) → FeedInput → Feed
feed_of counters f = record {
  id = f.id;
  title = f.title;
  category_id = f.category_id;
  unread_count = counter counters f.id;
}

unfoldable pub add_feeds :
    List Category → List (ℤ × ℤ) → List FeedInput → List Category × ℤ → List Category × ℤ
add_feeds index counters [] acc = acc
add_feeds index counters (f ∷ fs) acc =
    add_feeds index counters fs
      (add_found (last_index f.category_id index) (feed_of counters f) acc)

module _ {ℓ} {A : Type ℓ} (to_lowercase : String → String) (domain_title : A → String) where
  -- `title_key(a) <= title_key(b)`
  unfoldable pub title_le : A → A → Bool
  title_le a b = elim (compare (to_lowercase (domain_title a)) (to_lowercase (domain_title b))) [
    | Ordering.gt ↦ false
    | _ ↦ true
  ]

  unfoldable pub insert_by_title : A → List A → List A
  insert_by_title a [] = a ∷ []
  insert_by_title a (b ∷ bs) = if title_le a b then a ∷ b ∷ bs else b ∷ insert_by_title a bs

  -- `items.sort_by(...)`, a stable sort.
  unfoldable pub sort_by_title : List A → List A
  sort_by_title [] = []
  sort_by_title (a ∷ rest) = insert_by_title a (sort_by_title rest)

unfoldable pub sort_navigation : (String → String) → List Category → List Category
sort_navigation lower result =
    map (λ (c : Category). record c { feeds = sort_by_title lower (λ (f : Feed). f.title) c.feeds })
      (sort_by_title lower (λ (c : Category). c.title) result)

unfoldable pub build_navigation :
    (String → String) → List CategoryInput → List FeedInput → List (ℤ × ℤ) → List Category × ℤ
build_navigation lower categories feeds counters =
    let (result, unread_total) =
      add_feeds (initial categories) counters feeds (initial categories, pos 0) in
    (sort_navigation lower result, unread_total)
