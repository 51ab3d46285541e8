-- ===== src/Store/Fixtures.antt =====
-- A small database, and the same one with a change of the user queued, for the tests.

use flux_bar.Prelude.{
  ◌≡◌, refl, true, false, Option, none, some, [], ◌∷◌, ℤ, pos, String, inl, inr, ◌≢◌, id_eq,
  Bool-cases, arith,
}
use flux_bar.Sql.{exists_row, find_row, count_rows, upsert, update_where}
use flux_bar.Store.Schema.{Db, EntryRow, empty_db, entry_key, pending_key}
use flux_bar.Store.Mutations.{write_read, upsert_pending, new_pending, read_text, with_status}
use flux_bar.Store.Acknowledge.{PendingMutation}
use flux_bar.Store.Views.{entry_at}
use flux_bar.Store.Keyed.{IsKeyed, write_read-IsKeyed}
use flux_bar.Store.SetRead.{IsFresh}
use flux_bar.Store.UndoRoundTrip.{IsKnown}
use flux_bar.Store.AckConsistency.{WasSent}
use flux_bar.Store.Consistency.{IsConsistent, write_read-IsConsistent}

abbrev pub clock : ℤ → String
clock _ = "2026-01-01T00:00:00Z"

abbrev pub article : EntryRow
article = record {
  account_id = "acct";
  id = pos 7;
  title = "Title";
  url = "https://example.org/7";
  comments_url = "";
  feed_id = pos 1;
  feed_name = "Feed";
  category_id = pos 2;
  published_at = "2026-01-01T00:00:00Z";
  preview = "";
  image_url = "";
  remote_status = "unread";
  remote_starred = false;
  status = "unread";
  starred = false;
}

abbrev pub one_article : Db
one_article = record empty_db { entries = article ∷ [] }

pub IsFresh-one_article : IsFresh "acct" "b1" one_article
unfolding exists_row
IsFresh-one_article = record { no_batch = refl; no_items = refl }

pub IsKeyed-one_article : IsKeyed one_article
unfolding count_rows
IsKeyed-one_article = record {
  entries = λ a j. elim (Bool-cases (entry_key a j article)) [
    | inl own ↦ rw own (omega arith)
    | inr apart ↦ rw apart (omega arith)
  ];
  pending = λ a j g. omega arith;
}

pub IsConsistent-one_article : IsConsistent one_article
unfolding find_row
IsConsistent-one_article = record {
  agrees = λ a j. elim (Bool-cases (entry_key a j article)) [
    | inl own ↦ rw own (refl, refl)
    | inr apart ↦ rw apart (refl, refl)
  ];
}

pub IsKnown-one_article : (j : ℤ) → IsKnown (entry_at "acct" j one_article)
unfolding find_row
IsKnown-one_article j = elim (Bool-cases (entry_key "acct" j article)) [
  | inl own ↦ rw own (inr refl)
  | inr apart ↦ rw apart tt
]

-- The article marked as read, with its change queued, and the change as it is sent.
abbrev pub marked : Db
marked = write_read "2026-01-01T00:00:00Z" "acct" (pos 7) true one_article

abbrev pub sent : PendingMutation
sent = record { entry_id = pos 7; field = "read"; desired = true; revision = 1 }

found_ne : (found : Option EntryRow) (r : EntryRow) → found ≡ some r → found ≢ none
found_ne found r h = λ e. cc (h, e)

pub stored : entry_at "acct" (pos 7) one_article ≢ none
unfolding find_row entry_key id_eq
stored = found_ne (entry_at "acct" (pos 7) one_article) article refl

pub IsConsistent-marked : IsConsistent marked
IsConsistent-marked =
    write_read-IsConsistent "2026-01-01T00:00:00Z" "acct" (pos 7) one_article stored
      IsConsistent-one_article true

pub IsKeyed-marked : IsKeyed marked
IsKeyed-marked =
    write_read-IsKeyed "2026-01-01T00:00:00Z" "acct" (pos 7) true one_article IsKeyed-one_article

pub WasSent-marked : WasSent "acct" sent marked
unfolding write_read find_row upsert_pending upsert pending_key id_eq
WasSent-marked = record {
  row = new_pending "2026-01-01T00:00:00Z" "acct" (pos 7) "read" true;
  queued = refl;
  unchanged = λ _. refl;
  known = inl refl;
}

pub stored_marked : entry_at "acct" (pos 7) marked ≢ none
unfolding find_row entry_key id_eq write_read update_where read_text
stored_marked = found_ne (entry_at "acct" (pos 7) marked) (with_status "read" article) refl
