-- ===== src/Domain/NavigationLaws.antt =====
-- `build_navigation` of rust-core/src/domain/navigation.rs: no feed is lost, and none added.
use flux_bar.Prelude.{
  ℕ, zero, suc, ◌+◌, ◌<◌, ◌≡◌, refl, ap, sym, ◌∙◌, Bool, true, false, ◌&&◌, ◌||◌, Option, none,
  some, List, [], ◌∷◌, map, String, ℤ, pos, id_eq, arith, if◌then◌else◌, length, Option-cases,
  Bool-cases, inl, inr,
}
use flux_bar.Sql.{exists_row, count_rows}
use flux_bar.Domain.Navigation.{
  Feed, Category, CategoryInput, FeedInput, last_index, push, push_feed, initial, add_found,
  feed_of, add_feeds, insert_by_title, sort_by_title, sort_navigation, build_navigation,
}

-- The number of feeds of all categories that satisfy a test.
unfoldable pub feeds_in : (Feed → Bool) → List Category → ℕ
feeds_in p [] = 0
feeds_in p (c ∷ cs) = count_rows p c.feeds + feeds_in p cs

-- Some category has the feed's.
unfoldable pub is_known : List CategoryInput → FeedInput → Bool
is_known categories f = exists_row (λ c. id_eq c.id f.category_id) categories

count-push :
    (p : Feed → Bool) (f : Feed) (fs : List Feed)
    → count_rows p (push f fs) ≡ (if p f then suc (count_rows p fs) else count_rows p fs)
unfolding push count_rows
count-push p f [] = ground arith
count-push p f (x ∷ fs) = ground (arith, count-push p f fs)

feeds_in-push_feed :
    (p : Feed → Bool) (i : ℕ) (f : Feed) (cs : List Category)
    → i < length cs
    → feeds_in p (push_feed i f cs) ≡ (if p f then suc (feeds_in p cs) else feeds_in p cs)
unfolding feeds_in push_feed
feeds_in-push_feed p i f [] h = absurd (omega (arith, h))
feeds_in-push_feed p zero f (c ∷ cs) h = ground (arith, count-push p f c.feeds)
feeds_in-push_feed p (suc i) f (c ∷ cs) h =
    ground (arith, feeds_in-push_feed p i f cs (omega (arith, h)))

length-push_feed : (i : ℕ) (f : Feed) (cs : List Category) → length (push_feed i f cs) ≡ length cs
unfolding push_feed
length-push_feed i f [] = refl
length-push_feed zero f (c ∷ cs) = refl
length-push_feed (suc i) f (c ∷ cs) = ap suc (length-push_feed i f cs)

last_index-bound : (id : ℤ) (cs : List Category) (i : ℕ) → last_index id cs ≡ some i → i < length cs
unfolding last_index
last_index-bound id [] i h = absurd (cc h)
last_index-bound id (c ∷ cs) i h = elim (Option-cases (last_index id cs)) [
  | inl missing ↦ elim (Bool-cases (id_eq c.id id)) [
    | inl own ↦ let first : zero ≡ i = cc (rw (missing, own) at h) in omega (arith, first)
    | inr other ↦ absurd (cc (rw (missing, other) at h))
  ]
  | inr (k, found) ↦
      let next : suc k ≡ i = cc (rw found at h) in
      omega (arith, next, last_index-bound id cs k found)
]

last_index-exists :
    (id : ℤ) (cs : List Category)
    → ◌≡◌ {A = Bool}
        (elim (last_index id cs) [ none ↦ false | some _ ↦ true ])
        (exists_row (λ c. id_eq c.id id) cs)
unfolding last_index exists_row
last_index-exists id [] = refl
last_index-exists id (c ∷ cs) = ground (arith, last_index-exists id cs)

module _ {ℓ} {A : Type ℓ} (lower : String → String) (title : A → String) (p : A → ℕ) where
  sum_of : List A → ℕ
  sum_of [] = 0
  sum_of (a ∷ rest) = p a + sum_of rest

  sum_of-insert :
      (a : A) (rest : List A) → sum_of (insert_by_title lower title a rest) ≡ p a + sum_of rest
  unfolding insert_by_title sum_of
  sum_of-insert a [] = refl
  sum_of-insert a (b ∷ rest) = ground (arith, sum_of-insert a rest)

  sum_of-sort : (rest : List A) → sum_of (sort_by_title lower title rest) ≡ sum_of rest
  unfolding sort_by_title sum_of
  sum_of-sort [] = refl
  sum_of-sort (a ∷ rest) =
      sum_of-insert a (sort_by_title lower title rest) ∙ ap (λ n. p a + n) (sum_of-sort rest)

count-sum :
    (lower : String → String) (p : Feed → Bool) (fs : List Feed)
    → count_rows p fs ≡ sum_of lower (λ (f : Feed). f.title) (λ f. if p f then 1 else 0) fs
unfolding count_rows sum_of
count-sum lower p [] = refl
count-sum lower p (f ∷ fs) = ground (arith, count-sum lower p fs)

feeds_in-sum :
    (lower : String → String) (p : Feed → Bool) (cs : List Category)
    → feeds_in p cs ≡ sum_of lower (λ (c : Category). c.title) (λ c. count_rows p c.feeds) cs
unfolding feeds_in sum_of
feeds_in-sum lower p [] = refl
feeds_in-sum lower p (c ∷ cs) = ap (λ n. count_rows p c.feeds + n) (feeds_in-sum lower p cs)

count-sort :
    (lower : String → String) (p : Feed → Bool) (fs : List Feed)
    → count_rows p (sort_by_title lower (λ (f : Feed). f.title) fs) ≡ count_rows p fs
count-sort lower p fs =
    count-sum lower p (sort_by_title lower (λ (f : Feed). f.title) fs)
    ∙ sum_of-sort lower (λ (f : Feed). f.title) (λ f. if p f then 1 else 0) fs
    ∙ sym (count-sum lower p fs)

feeds_in-sorted :
    (lower : String → String) (p : Feed → Bool) (cs : List Category)
    → feeds_in p (
        map
          (λ (c : Category). record c {
            feeds = sort_by_title lower (λ (f : Feed). f.title) c.feeds;
          })
          cs)
      ≡ feeds_in p cs
unfolding feeds_in
feeds_in-sorted lower p [] = refl
feeds_in-sorted lower p (c ∷ cs) =
    omega (arith, count-sort lower p c.feeds, feeds_in-sorted lower p cs)

feeds_in-sort_navigation :
    (lower : String → String) (p : Feed → Bool) (cs : List Category)
    → feeds_in p (sort_navigation lower cs) ≡ feeds_in p cs
unfolding sort_navigation
feeds_in-sort_navigation lower p cs =
    feeds_in-sorted lower p (sort_by_title lower (λ (c : Category). c.title) cs)
    ∙ feeds_in-sum lower p (sort_by_title lower (λ (c : Category). c.title) cs)
    ∙ sum_of-sort lower (λ (c : Category). c.title) (λ c. count_rows p c.feeds) cs
    ∙ sym (feeds_in-sum lower p cs)

module _ (p : Feed → Bool) (counters : List (ℤ × ℤ)) where
  -- One feed of the loop.
  feeds_in-add_found :
      (found : Option ℕ) (f : Feed) (acc : List Category × ℤ)
      → ((i : ℕ) → found ≡ some i → i < length acc.0)
      → feeds_in p (add_found found f acc).0 ≡ (
          if elim found [ none ↦ false | some _ ↦ true ] && p f
          then suc (feeds_in p acc.0)
          else feeds_in p acc.0)
  unfolding add_found
  feeds_in-add_found none f acc bound = refl
  feeds_in-add_found (some i) f acc bound = feeds_in-push_feed p i f acc.0 (bound i refl)

  length-add_found :
      (found : Option ℕ) (f : Feed) (acc : List Category × ℤ)
      → length (add_found found f acc).0 ≡ length acc.0
  unfolding add_found
  length-add_found none f acc = refl
  length-add_found (some i) f acc = length-push_feed i f acc.0

  abbrev kept : List Category → FeedInput → Bool
  kept index f = exists_row (λ c. id_eq c.id f.category_id) index && p (feed_of counters f)

  feeds_in-add_feeds :
      (index : List Category) (fs : List FeedInput) (acc : List Category × ℤ)
      → length acc.0 ≡ length index
      → feeds_in p (add_feeds index counters fs acc).0
        ≡ feeds_in p acc.0 + count_rows (kept index) fs
  unfolding add_feeds count_rows
  feeds_in-add_feeds index [] acc same = omega arith
  feeds_in-add_feeds index (f ∷ fs) acc same =
      let found = last_index f.category_id index in
      let next = add_found found (feed_of counters f) acc in
      ground (
        arith,
        feeds_in-add_feeds index fs next (length-add_found found (feed_of counters f) acc ∙ same),
        feeds_in-add_found found (feed_of counters f) acc
            (λ i e. rw same (last_index-bound f.category_id index i e)),
        last_index-exists f.category_id index,
      )

exists-initial :
    (j : ℤ) (categories : List CategoryInput)
    → exists_row (λ (c : Category). id_eq c.id j) (initial categories)
      ≡ exists_row (λ (c : CategoryInput). id_eq c.id j) categories
unfolding exists_row initial
exists-initial j [] = refl
exists-initial j (c ∷ cs) = ap (λ t. id_eq c.id j || t) (exists-initial j cs)

feeds_in-initial :
    (p : Feed → Bool) (categories : List CategoryInput) → feeds_in p (initial categories) ≡ 0
unfolding feeds_in initial count_rows
feeds_in-initial p [] = refl
feeds_in-initial p (c ∷ cs) = omega (arith, feeds_in-initial p cs)

count-kept :
    (p : Feed → Bool) (counters : List (ℤ × ℤ)) (categories : List CategoryInput)
    (feeds : List FeedInput)
    → count_rows (kept p counters (initial categories)) feeds
      ≡ count_rows (λ f. is_known categories f && p (feed_of counters f)) feeds
unfolding count_rows is_known
count-kept p counters categories [] = refl
count-kept p counters categories (f ∷ fs) =
    rw (exists-initial f.category_id categories, count-kept p counters categories fs)

-- Whatever is asked of a feed, the navigation has as many feeds with it, over all its categories, as
-- there are input feeds with it whose category is among the categories, each with its own counter.
pub feeds_in-build_navigation :
    (lower : String → String) (p : Feed → Bool) (categories : List CategoryInput)
    (feeds : List FeedInput) (counters : List (ℤ × ℤ))
    → feeds_in p (build_navigation lower categories feeds counters).0
      ≡ count_rows (λ f. is_known categories f && p (feed_of counters f)) feeds
unfolding build_navigation is_known
feeds_in-build_navigation lower p categories feeds counters =
    let index = initial categories in
    feeds_in-sort_navigation lower p (add_feeds index counters feeds (index, pos 0)).0
    ∙ feeds_in-add_feeds p counters index feeds (index, pos 0) refl
    ∙ omega (arith, feeds_in-initial p categories, count-kept p counters categories feeds)
