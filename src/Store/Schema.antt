-- ===== src/Store/Schema.antt =====
-- rust-core/src/persistence/schema.rs: the tables, one record for each, and the database. The
-- primary keys are the tests `..._key`; what a statement must respect of them is in the statements.
use flux_bar.Prelude.{ℕ, Bool, ◌&&◌, Option, List, [], String, ◌==◌, ℤ, id_eq}

pub record AccountRow : Type 0 where
  pub id : String
  pub server : String
  pub remote_starred_total : ℤ
  pub last_sync_at : Option String

pub record CategoryRow : Type 0 where
  pub account_id : String
  pub id : ℤ
  pub title : String

pub record FeedRow : Type 0 where
  pub account_id : String
  pub id : ℤ
  pub category_id : ℤ
  pub title : String
  pub remote_unread_count : ℤ

pub record SelectionTotalRow : Type 0 where
  pub account_id : String
  pub kind : String
  pub selection_id : ℤ
  pub unread_only : Bool
  pub total : ℤ

pub record EntryRow : Type 0 where
  pub account_id : String
  pub id : ℤ
  pub title : String
  pub url : String
  pub comments_url : String
  pub feed_id : ℤ
  pub feed_name : String
  pub category_id : ℤ
  pub published_at : String
  pub preview : String
  pub image_url : String
  pub remote_status : String
  pub remote_starred : Bool
  pub status : String
  pub starred : Bool

pub record PendingRow : Type 0 where
  pub account_id : String
  pub entry_id : ℤ
  pub field : String
  pub desired : Bool
  pub revision : ℕ
  pub updated_at : String

pub record UndoBatchRow : Type 0 where
  pub account_id : String
  pub id : String
  pub created_at : String

pub record UndoItemRow : Type 0 where
  pub account_id : String
  pub batch_id : String
  pub entry_id : ℤ
  pub prior_read : Bool

pub record Db : Type 0 where
  pub accounts : List AccountRow
  pub categories : List CategoryRow
  pub feeds : List FeedRow
  pub selection_totals : List SelectionTotalRow
  pub entries : List EntryRow
  pub pending_mutations : List PendingRow
  pub undo_batches : List UndoBatchRow
  pub undo_items : List UndoItemRow

-- A database after `CREATE TABLE IF NOT EXISTS`, with no row.
abbrev pub empty_db : Db
empty_db = record {
  accounts = [];
  categories = [];
  feeds = [];
  selection_totals = [];
  entries = [];
  pending_mutations = [];
  undo_batches = [];
  undo_items = [];
}

-- PRIMARY KEY (id)
unfoldable pub account_key : String → AccountRow → Bool
account_key account r = r.id == account

-- PRIMARY KEY (account_id, id)
unfoldable pub category_key : String → ℤ → CategoryRow → Bool
category_key account id r = r.account_id == account && id_eq r.id id

-- PRIMARY KEY (account_id, id)
unfoldable pub feed_key : String → ℤ → FeedRow → Bool
feed_key account id r = r.account_id == account && id_eq r.id id

-- PRIMARY KEY (account_id, id)
unfoldable pub entry_key : String → ℤ → EntryRow → Bool
entry_key account id r = r.account_id == account && id_eq r.id id

-- PRIMARY KEY (account_id, entry_id, field)
unfoldable pub pending_key : String → ℤ → String → PendingRow → Bool
pending_key account id field r = r.account_id == account && id_eq r.entry_id id && r.field == field

-- PRIMARY KEY (account_id, id)
unfoldable pub batch_key : String → String → UndoBatchRow → Bool
batch_key account id r = r.account_id == account && r.id == id

-- WHERE account_id=? AND batch_id=?
unfoldable pub item_of_batch : String → String → UndoItemRow → Bool
item_of_batch account batch r = r.account_id == account && r.batch_id == batch

-- WHERE account_id=? AND entry_id=?
unfoldable pub item_of_entry : String → ℤ → UndoItemRow → Bool
item_of_entry account id r = r.account_id == account && id_eq r.entry_id id

-- PRIMARY KEY (account_id, batch_id, entry_id)
unfoldable pub item_key : String → String → ℤ → UndoItemRow → Bool
item_key account batch id r = r.account_id == account && r.batch_id == batch && id_eq r.entry_id id
