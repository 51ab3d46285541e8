-- ===== src/Store/Snapshot.antt =====
-- rust-core/src/persistence/store.rs: the local snapshot of a selection.
--
-- The order that SQLite gives the rows is an argument: `by_title` of ORDER BY title COLLATE NOCASE,
-- `by_published newest_first` of ORDER BY published_at. A release build's `i32` sums wrap around.
use flux_bar.Prelude.{
  ℕ, Bool, true, not, ◌&&◌, ◌||◌, Option, none, some, List, [], ◌∷◌, map, String, ◌==◌, ℤ, pos,
  negsuc, ◌+ℤ◌, max_ℤ, id_eq, wrap_i32, add_i32, Result, ok, err, ◌>>=◌, take, if◌then◌else◌,
}
use flux_bar.Sql.{SqlError, select, find_row, exists_row, count_rows, sum_rows, to_i32, require_row}
use flux_bar.Domain.Selection.{Selection, starred, category, feed, is_unread_only, scope_id}
use flux_bar.Domain.Entry.{Entry}
use flux_bar.Domain.Navigation.{Feed, Category, push}
use flux_bar.Store.Schema.{
  Db, CategoryRow, FeedRow, EntryRow, PendingRow, SelectionTotalRow, account_key, pending_key,
}
use flux_bar.Store.Apply.{
  SnapshotData, normalize_selection, selection_kind, is_starred, row_in_scope, total_key,
}
use flux_bar.Store.Records.{map_entry_row}

abbrev pub snapshot_limit : ℕ
snapshot_limit = 200

-- The columns that the selection adds to the WHERE.
unfoldable pub is_selected : Selection → EntryRow → Bool
is_selected (starred _) r = r.starred
is_selected (category id _) r = id_eq r.category_id id
is_selected (feed id _) r = id_eq r.feed_id id
is_selected _ r = true

unfoldable pub selection_clause : String → Selection → EntryRow → Bool
selection_clause account selection r =
    r.account_id == account
    && (if is_unread_only selection then r.status == "unread" else true)
    && is_selected selection r

-- CASE WHEN e.status='unread' AND e.remote_status='read' THEN 1 ...
unfoldable pub read_shift : EntryRow → ℤ
read_shift e =
    if e.status == "unread" && e.remote_status == "read"
    then pos 1
    else if e.status == "read" && e.remote_status == "unread"
    then negsuc 0
    else pos 0

unfoldable pub starred_shift : EntryRow → ℤ
starred_shift e =
    if e.starred && not e.remote_starred
    then pos 1
    else if not e.starred && e.remote_starred
    then negsuc 0
    else pos 0

-- SUM(shift) FROM entries e JOIN pending_mutations p ON ... WHERE p
unfoldable pub sum_pending : (EntryRow → ℤ) → String → (EntryRow → Bool) → Db → ℤ
sum_pending shift field p db =
    sum_rows
      (λ (e : EntryRow).
        sum_rows (λ (_ : PendingRow). shift e)
          (select (pending_key e.account_id e.id field) db.pending_mutations))
      (select p db.entries)

unfoldable pub pending_read_delta_for_feed : String → ℤ → Db → Result SqlError ℤ
pending_read_delta_for_feed account feed_id db =
    to_i32
      (sum_pending read_shift "read" (λ e. e.account_id == account && id_eq e.feed_id feed_id) db)

-- `.unwrap_or(0)`
unfoldable pub or_zero : Result SqlError ℤ → ℤ
or_zero (ok n) = n
or_zero (err _) = pos 0

-- The columns of the feed query, with `remote_unread_count` as `i32`.
unfoldable pub feed_columns : List FeedRow → Result SqlError (List (ℤ × String × ℤ))
feed_columns [] = ok []
feed_columns (f ∷ fs) = do
  count ← to_i32 f.remote_unread_count
  rest ← feed_columns fs
  ok ((f.id, f.title, count) ∷ rest)

-- The loop over the feeds of one category, with the running total.
unfoldable pub count_feeds : String → Db → List (ℤ × String × ℤ) → Category → ℤ → Category × ℤ
count_feeds account db [] c total = (c, total)
count_feeds account db ((id, title, remote_count) ∷ rest) c total =
    let delta = or_zero (pending_read_delta_for_feed account id db) in
    let unread_count = max_ℤ (pos 0) (add_i32 remote_count delta) in
    let f : Feed = record {
      id = id;
      title = title;
      category_id = c.id;
      unread_count = unread_count;
    } in
    count_feeds account db rest
      (record c { unread_count = add_i32 c.unread_count unread_count; feeds = push f c.feeds })
      (add_i32 total unread_count)

unfoldable pub empty_category : CategoryRow → Category
empty_category r = record { id = r.id; title = r.title; unread_count = pos 0; feeds = [] }

module _ (by_title : List FeedRow → List FeedRow) where
  unfoldable pub count_categories :
      String → Db → List Category → ℤ → Result SqlError (List Category × ℤ)
  count_categories account db [] total = ok ([], total)
  count_categories account db (c ∷ cs) total = do
    feeds ←
        feed_columns
          (by_title (select (λ f. f.account_id == account && id_eq f.category_id c.id) db.feeds))
    let counted = count_feeds account db feeds c total
    rest ← count_categories account db cs counted.1
    ok (counted.0 ∷ rest.0, rest.1)

  unfoldable pub navigation :
      (List CategoryRow → List CategoryRow) → String → Db → Result SqlError (List Category × ℤ)
  navigation by_category_title account db =
      count_categories account db
        (map empty_category
          (by_category_title (select (λ c. c.account_id == account) db.categories)))
        (pos 0)

-- `std::cmp::max(0, remote_total + delta) as i32`
unfoldable pub starred_total : String → Db → Result SqlError ℤ
starred_total account db = do
  row ← require_row (find_row (account_key account) db.accounts)
  let delta = sum_pending starred_shift "starred" (λ e. e.account_id == account) db
  ok (wrap_i32 (max_ℤ (pos 0) (row.remote_starred_total +ℤ delta)))

unfoldable pub optional_i32 : Option SelectionTotalRow → Result SqlError (Option ℤ)
optional_i32 none = ok none
optional_i32 (some t) = do n ← to_i32 t.total; ok (some n)

unfoldable pub selection_total : String → String → ℤ → Bool → Db → Result SqlError (Option ℤ)
selection_total account kind id unread_only db =
    optional_i32 (find_row (total_key account kind id unread_only) db.selection_totals)

unfoldable pub selection_pending_delta : String → Selection → Db → Result SqlError ℤ
selection_pending_delta account selection db =
    let mine = λ (e : EntryRow). e.account_id == account && row_in_scope selection e in
    if is_unread_only selection && not (is_starred selection)
    then to_i32 (sum_pending read_shift "read" mine db)
    else if is_starred selection
    then to_i32 (sum_pending starred_shift "starred" mine db)
    else ok (pos 0)

-- ({where_clause}) OR (account_id=? AND id IN (...))
unfoldable pub is_shown : String → Selection → List ℤ → EntryRow → Bool
is_shown account selection retain_ids r =
    selection_clause account selection r
    || (r.account_id == account && exists_row (λ id. id_eq id r.id) retain_ids)

-- `if seen.insert(entry.id) { entries.push(entry) }`
unfoldable pub first_seen : List ℤ → List Entry → List Entry
first_seen seen [] = []
first_seen seen (e ∷ es) =
    let kept = e ∷ first_seen (e.id ∷ seen) es in
    if exists_row (λ id. id_eq id e.id) seen then first_seen seen es else kept

unfoldable pub snapshot_entries :
    (Bool → List EntryRow → List EntryRow) → String → Selection → Bool → List ℤ → Db → List Entry
snapshot_entries by_published account selection newest_first retain_ids db = first_seen [] (
    map map_entry_row (
      take snapshot_limit
        (by_published newest_first (select (is_shown account selection retain_ids) db.entries))))

-- The total of the snapshot from the local count and the remote total, if there is one.
unfoldable pub adjusted_total : ℤ → Option ℤ → ℤ → ℤ
adjusted_total counted none delta = counted
adjusted_total counted (some remote) delta = max_ℤ counted (max_ℤ (pos 0) (add_i32 remote delta))

-- The delta is only read when there is a remote total.
unfoldable pub delta_if : Option ℤ → String → Selection → Db → Result SqlError ℤ
delta_if none account selection db = ok (pos 0)
delta_if (some _) account selection db = selection_pending_delta account selection db

-- How SQLite orders the rows of the three queries.
pub record Order : Type 0 where
  pub categories : List CategoryRow → List CategoryRow
  pub feeds : List FeedRow → List FeedRow
  pub entries : Bool → List EntryRow → List EntryRow

unfoldable pub local_snapshot :
    Order → String → Selection → Bool → List ℤ → Db → Result SqlError SnapshotData
local_snapshot order account selection newest_first retain_ids db = do
  let normalized = normalize_selection selection
  (categories, unread_total) ← navigation order.feeds order.categories account db
  starred_count ← starred_total account db
  counted ← to_i32 (pos (count_rows (selection_clause account normalized) db.entries))
  remote ←
      selection_total account (selection_kind normalized) (scope_id normalized)
        (is_unread_only normalized) db
  delta ← delta_if remote account normalized db
  ok (record {
    version = pos 1;
    selection = normalized;
    entries = snapshot_entries order.entries account normalized newest_first retain_ids db;
    categories = categories;
    total = adjusted_total counted remote delta;
    unread_total = unread_total;
    starred_total = starred_count;
  })
