-- ===== src/Sync/ServiceTests.antt =====
-- A refresh without the server, on the store with one change queued.
use flux_bar.Sql.{sum_rows}
use flux_bar.Store.Snapshot.{sum_pending}
use flux_bar.Prelude.{max_ℤ, ◌+ℤ◌}
use flux_bar.Sync.Browse.{browse}
use flux_bar.Store.Snapshot.{
  navigation, count_categories, starred_total, selection_total, optional_i32, delta_if,
  snapshot_entries, adjusted_total, first_seen,
}
use flux_bar.Sql.{select, find_row, to_i32, count_rows}
use flux_bar.Store.Acknowledge.{pending}
use flux_bar.Store.Schema.{account_key}
use flux_bar.Store.Apply.{normalize_selection}
use flux_bar.Prelude.{is_i32, wrap_i32}
use flux_bar.Prelude.{
  none, ℕ, ◌≡◌, refl, true, false, List, [], ◌∷◌, String, pos, ok, err, Bool, inr,
}
use flux_bar.Domain.Selection.{unread}
use flux_bar.Domain.Entry.{Entry, parse}
use flux_bar.Store.Schema.{Db, PendingRow, empty_db}
use flux_bar.Store.Apply.{SnapshotData}
use flux_bar.Store.Snapshot.{Order, local_snapshot}
use flux_bar.Store.Fixtures.{clock, one_article, marked}
use flux_bar.Remote.Error.{forbidden}
use flux_bar.Remote.Dto.{EntryDto}
use flux_bar.Sync.Flush.{RemoteInbox, flush_pending}
use flux_bar.Sync.Service.{sync, partial, mark_read, star, undo_read}
use flux_bar.Sync.ServiceLaws.{IsScheduled, mutations-IsScheduled, sync-shows}
use flux_bar.Sync.FlushEffect.{Delivered}
use flux_bar.Sync.RefreshEffect.{IsRefreshed, sync-refreshes}
use flux_bar.Store.Acknowledge.{PendingMutation}

-- A server that refuses everything.
abbrev closed_server : RemoteInbox (Unit {0})
closed_server = record {
  fetch_complete_selection = λ _ s. (err forbidden, s);
  categories = λ s. (err forbidden, s);
  feeds = λ s. (err forbidden, s);
  unread_counters = λ s. (err forbidden, s);
  starred_total = λ s. (err forbidden, s);
  icon_data_url = λ _ s. (err forbidden, s);
  set_read_batch = λ _ _ s. (err forbidden, s);
  entry_starred = λ _ s. (err forbidden, s);
  toggle_starred = λ _ s. (err forbidden, s);
}

abbrev row_order : Order
row_order = record { categories = λ rows. rows; feeds = λ rows. rows; entries = λ _ rows. rows }

abbrev as_queued : List PendingRow → List PendingRow
as_queued rows = rows

abbrev to_entry : EntryDto → Entry
to_entry e = record {
  id = e.id;
  title = e.title;
  url = e.url;
  comments_url = e.comments_url;
  feed_id = e.feed_id;
  feed_name = "";
  category_id = pos 0;
  published_at_rfc3339 = e.published_at;
  preview = "";
  image_url = "";
  status = parse e.status;
  starred = e.starred;
}

abbrev never : ℕ → Bool
never _ = false

abbrev always : ℕ → Bool
always _ = true

abbrev same_text : String → String
same_text t = t

sync-refreshes_example :
    let mid =
      flush_pending closed_server
        (λ _. "error")
        (λ _. "error")
        same_text
        "acct"
        always
        never
        as_queued
        marked
        tt in
    let after =
      sync
        (λ _. "error")
        "acct"
        row_order
        (unread true)
        []
        true
        always
        never
        closed_server
        (λ _. "error")
        same_text
        same_text
        to_entry
        always
        never
        as_queued
        true
        "now"
        marked
        tt in
    ((rest : List PendingMutation) × Delivered closed_server
        (λ _. "error")
        (λ _. "error")
        same_text
        "acct"
        (pending as_queued "acct" marked)
        marked
        tt
        rest
        mid.0)
    × IsRefreshed "now" "acct" mid.0
        (browse closed_server
          (λ _. "error")
          (λ _. "error")
          same_text
          same_text
          to_entry
          (unread true)
          mid.1).0
        after.0
        after.2
sync-refreshes_example =
    sync-refreshes (λ _. "error") "acct" row_order (unread true) [] true always never closed_server
      (λ _. "error") same_text same_text to_entry always never as_queued "now" marked tt

abbrev account_db : Db
account_db = record empty_db {
  accounts =
      record {
        id = "acct";
        server = "https://example.org";
        remote_starred_total = pos 0;
        last_sync_at = none;
      }
      ∷ [];
}

abbrev nothing_stored : SnapshotData
nothing_stored = record {
  version = pos 1;
  selection = unread true;
  entries = [];
  categories = [];
  total = pos 0;
  unread_total = pos 0;
  starred_total = pos 0;
}

offline :
    (sync
      (λ _. "error")
      "acct"
      row_order
      (unread true)
      []
      true
      always
      never
      closed_server
      (λ _. "error")
      same_text
      same_text
      to_entry
      always
      never
      as_queued
      true
      "now"
      account_db
      tt).2
    ≡ ok (partial nothing_stored "Miniflux-Zähler laden: error")
unfolding sync browse local_snapshot navigation count_categories select pending starred_total
    find_row account_key to_i32 is_i32 count_rows selection_total optional_i32 delta_if
    normalize_selection snapshot_entries adjusted_total wrap_i32 first_seen max_ℤ ◌+ℤ◌ sum_pending
    sum_rows
offline = refl

sync-shows_example :
    local_snapshot row_order "acct"
      (unread true)
      true
      []
      (sync
        (λ _. "error")
        "acct"
        row_order
        (unread true)
        []
        true
        always
        never
        closed_server
        (λ _. "error")
        same_text
        same_text
        to_entry
        always
        never
        as_queued
        true
        "now"
        account_db
        tt).0
    ≡ ok nothing_stored
sync-shows_example =
    sync-shows (λ _. "error") "acct" row_order (unread true) [] true always never closed_server
      (λ _. "error") same_text same_text to_entry always never as_queued true "now" account_db tt
      nothing_stored "Miniflux-Zähler laden: error" (inr offline)

mutations-IsScheduled_example :
    IsScheduled
      (λ _. "error")
      "acct"
      row_order
      (unread true)
      []
      true
      always
      never
      one_article
      (mark_read
        (λ _. "error")
        "acct"
        row_order
        (unread true)
        []
        true
        always
        never
        "now"
        clock
        "b1"
        (pos 7 ∷ [])
        true
        true
        one_article)
    × IsScheduled
        (λ _. "error")
        "acct"
        row_order
        (unread true)
        []
        true
        always
        never
        one_article
        (star
          (λ _. "error")
          "acct"
          row_order
          (unread true)
          []
          true
          always
          never
          "now"
          (pos 7)
          true
          one_article)
    × IsScheduled
        (λ _. "error")
        "acct"
        row_order
        (unread true)
        []
        true
        always
        never
        one_article
        (undo_read
          (λ _. "error")
          "acct"
          row_order
          (unread true)
          []
          true
          always
          never
          clock
          "b1"
          one_article)
mutations-IsScheduled_example =
    mutations-IsScheduled (λ _. "error") "acct" row_order (unread true) [] true always never "now"
      clock "b1" (pos 7 ∷ []) true true (pos 7) true "b1" one_article
