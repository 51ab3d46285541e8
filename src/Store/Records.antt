-- ===== src/Store/Records.antt =====
-- rust-core/src/persistence/store.rs: single records written and read as they are.
use mathlib.Core.Option
use flux_bar.Prelude.{Bool, Option, none, String, ℤ, pos}
use flux_bar.Sql.{find_row, upsert}
use flux_bar.Domain.Entry.{Entry, EntryStatus, as_str, parse}
use flux_bar.Domain.Navigation.{Feed, Category}
use flux_bar.Store.Schema.{Db, AccountRow, EntryRow, account_key, category_key, feed_key, entry_key}
use flux_bar.Store.Apply.{upsert_total}

pub record PersistedEntry : Type 0 where
  pub entry : Entry
  pub remote_status : EntryStatus
  pub remote_starred : Bool

-- INSERT with the defaults of the other columns ON CONFLICT UPDATE of the server only.
unfoldable pub ensure_account : String → String → Db → Db
ensure_account account server db = record db {
  accounts =
      upsert (account_key account) (λ (a : AccountRow). record a { server = server })
        (record {
          id = account;
          server = server;
          remote_starred_total = pos 0;
          last_sync_at = none;
        })
        db.accounts;
}

unfoldable pub upsert_category : String → Category → Db → Db
upsert_category account c db = record db {
  categories =
      upsert (category_key account c.id) (λ r. record r { title = c.title })
        (record { account_id = account; id = c.id; title = c.title }) db.categories;
}

unfoldable pub upsert_feed : String → Feed → Db → Db
upsert_feed account f db = record db {
  feeds =
      upsert (feed_key account f.id)
        (λ r. record r {
          category_id = f.category_id;
          title = f.title;
          remote_unread_count = f.unread_count;
        })
        (record {
          account_id = account;
          id = f.id;
          category_id = f.category_id;
          title = f.title;
          remote_unread_count = f.unread_count;
        })
        db.feeds;
}

unfoldable pub upsert_selection_total : String → String → ℤ → Bool → ℤ → Db → Db
upsert_selection_total account kind selection_id unread_only total db = record db {
  selection_totals = upsert_total account kind selection_id unread_only total db.selection_totals;
}

-- The row of the INSERT.
unfoldable pub persisted_row : String → PersistedEntry → EntryRow
persisted_row account p = record {
  account_id = account;
  id = p.entry.id;
  title = p.entry.title;
  url = p.entry.url;
  comments_url = p.entry.comments_url;
  feed_id = p.entry.feed_id;
  feed_name = p.entry.feed_name;
  category_id = p.entry.category_id;
  published_at = p.entry.published_at_rfc3339;
  preview = p.entry.preview;
  image_url = p.entry.image_url;
  remote_status = as_str p.remote_status;
  remote_starred = p.remote_starred;
  status = as_str p.entry.status;
  starred = p.entry.starred;
}

-- ON CONFLICT: every column but the key.
unfoldable pub overwrite_row : String → PersistedEntry → EntryRow → EntryRow
unfolding persisted_row
overwrite_row account p r = record (persisted_row account p) {
  account_id = r.account_id;
  id = r.id;
}

unfoldable pub upsert_entry : String → PersistedEntry → Db → Db
upsert_entry account p db = record db {
  entries =
      upsert (entry_key account p.entry.id) (overwrite_row account p) (persisted_row account p)
        db.entries;
}

-- The columns that `map_entry_row` reads.
unfoldable pub map_entry_row : EntryRow → Entry
map_entry_row r = record {
  id = r.id;
  title = r.title;
  url = r.url;
  comments_url = r.comments_url;
  feed_id = r.feed_id;
  feed_name = r.feed_name;
  category_id = r.category_id;
  published_at_rfc3339 = r.published_at;
  preview = r.preview;
  image_url = r.image_url;
  status = parse r.status;
  starred = r.starred;
}

unfoldable pub persisted_entry : EntryRow → PersistedEntry
persisted_entry r = record {
  entry = map_entry_row r;
  remote_status = parse r.remote_status;
  remote_starred = r.remote_starred;
}

unfoldable pub entry : String → ℤ → Db → Option PersistedEntry
entry account id db = Option.map persisted_entry (find_row (entry_key account id) db.entries)
