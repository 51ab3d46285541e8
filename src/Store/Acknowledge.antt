-- ===== src/Store/Acknowledge.antt =====
-- rust-core/src/persistence/store.rs: the pending mutations, and their acknowledgement after the
-- server took them.
use flux_bar.Prelude.{
  ℕ, Bool, true, false, not, ◌&&◌, ◌||◌, List, map, String, ◌==◌, ℤ, pos, negsuc, ◌+ℤ◌, max_ℤ,
  id_eq, nat_eq, Result, ok, ◌>>=◌, if◌then◌else◌,
}
use flux_bar.Sql.{SqlError, select, find_row, count_rows, update_where, delete_where, require_row}
use flux_bar.Store.Schema.{
  Db, EntryRow, PendingRow, SelectionTotalRow, account_key, entry_key, feed_key, pending_key,
}
use flux_bar.Store.Mutations.{read_text}

pub record PendingMutation : Type 0 where
  pub entry_id : ℤ
  pub field : String
  pub desired : Bool
  pub revision : ℕ

unfoldable pub to_mutation : PendingRow → PendingMutation
to_mutation p = record {
  entry_id = p.entry_id;
  field = p.field;
  desired = p.desired;
  revision = p.revision;
}

-- SELECT ... WHERE account_id=?1 ORDER BY updated_at. The order is the argument `by_time`, SQLite's.
unfoldable pub pending : (List PendingRow → List PendingRow) → String → Db → List PendingMutation
pending by_time account db =
    map to_mutation (by_time (select (λ p. p.account_id == account) db.pending_mutations))

unfoldable pub pending_count : String → Db → ℕ
pending_count account db = count_rows (λ p. p.account_id == account) db.pending_mutations

unfoldable pub undo_count : String → Db → ℕ
undo_count account db = count_rows (λ b. b.account_id == account) db.undo_batches

unfoldable pub read_delta : String → Bool → ℤ
read_delta previous desired =
    if previous == "unread" && desired
    then negsuc 0
    else if previous == "read" && not desired
    then pos 1
    else pos 0

unfoldable pub starred_delta : Bool → Bool → ℤ
starred_delta false true = pos 1
starred_delta true false = negsuc 0
starred_delta _ _ = pos 0

-- MAX(0, total + delta)
unfoldable pub adjust : ℤ → ℤ → ℤ
adjust delta total = max_ℤ (pos 0) (total +ℤ delta)

-- WHERE of the totals that count unread entries of the feed or the category.
unfoldable pub counts_unread : String → ℤ → ℤ → SelectionTotalRow → Bool
counts_unread account feed category t =
    t.account_id == account
    && (t.kind == "unread"
        || (t.unread_only
            && (t.kind == "all"
                || (t.kind == "feed" && id_eq t.selection_id feed)
                || (t.kind == "category" && id_eq t.selection_id category))))

unfoldable pub counts_starred : String → SelectionTotalRow → Bool
counts_starred account t = t.account_id == account && t.kind == "starred"

unfoldable pub adjust_unread : String → ℤ → EntryRow → Db → Db
adjust_unread account delta e db = record db {
  feeds =
      if id_eq delta (pos 0)
      then db.feeds
      else update_where (feed_key account e.feed_id)
          (λ f. record f { remote_unread_count = adjust delta f.remote_unread_count }) db.feeds;
  selection_totals =
      if id_eq delta (pos 0)
      then db.selection_totals
      else update_where (counts_unread account e.feed_id e.category_id)
          (λ t. record t { total = adjust delta t.total }) db.selection_totals;
}

unfoldable pub adjust_starred : String → ℤ → Db → Db
adjust_starred account delta db = record db {
  accounts =
      if id_eq delta (pos 0)
      then db.accounts
      else update_where (account_key account)
          (λ a. record a { remote_starred_total = adjust delta a.remote_starred_total })
          db.accounts;
  selection_totals =
      if id_eq delta (pos 0)
      then db.selection_totals
      else update_where (counts_starred account) (λ t. record t { total = adjust delta t.total })
          db.selection_totals;
}

abbrev pub with_remote_status : String → EntryRow → EntryRow
with_remote_status status e = record e { remote_status = status }

abbrev pub with_remote_starred : Bool → EntryRow → EntryRow
with_remote_starred starred e = record e { remote_starred = starred }

unfoldable pub acknowledge_read : String → ℤ → Bool → EntryRow → Db → Db
unfolding adjust_unread
acknowledge_read account id desired e db =
    let counted = adjust_unread account (read_delta e.remote_status desired) e db in
    record counted {
      entries =
          update_where (entry_key account id) (with_remote_status (read_text desired))
            counted.entries;
    }

unfoldable pub acknowledge_starred : String → ℤ → Bool → EntryRow → Db → Db
unfolding adjust_starred
acknowledge_starred account id desired e db =
    let counted = adjust_starred account (starred_delta e.remote_starred desired) db in
    record counted {
      entries = update_where (entry_key account id) (with_remote_starred desired) counted.entries;
    }

-- DELETE FROM pending_mutations: only the revision that was sent.
unfoldable pub is_sent : String → PendingMutation → PendingRow → Bool
is_sent account m p = pending_key account m.entry_id m.field p && nat_eq p.revision m.revision

-- The two arms of the match on the field.
unfoldable pub acknowledge_field : String → PendingMutation → EntryRow → Db → Db
unfolding acknowledge_read acknowledge_starred
acknowledge_field account m e db =
    if m.field == "read"
    then acknowledge_read account m.entry_id m.desired e db
    else acknowledge_starred account m.entry_id m.desired e db

unfoldable pub forget_sent : String → PendingMutation → Db → Db
forget_sent account m db = record db {
  pending_mutations = delete_where (is_sent account m) db.pending_mutations;
}

unfoldable pub acknowledge : String → PendingMutation → Db → Result SqlError Db
acknowledge account m db = do
  e ← require_row (find_row (entry_key account m.entry_id) db.entries)
  ok (forget_sent account m (acknowledge_field account m e db))
