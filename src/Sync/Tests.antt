-- ===== src/Sync/Tests.antt =====
-- A flush of one queued change, with a server that takes it.
use flux_bar.Prelude.{ok, none, pos, true, false, List, [], String}
use flux_bar.Store.Acknowledge.{PendingMutation, pending}
use flux_bar.Store.Fixtures.{marked}
use flux_bar.Sync.Flush.{RemoteInbox, flush_pending}
use flux_bar.Sync.FlushEffect.{Delivered, EndsWith, flush_pending-delivers}
use flux_bar.Sync.RunTests.{as_stored}

-- A server that takes every change.
abbrev server : RemoteInbox (Unit {0})
server = record {
  fetch_complete_selection = λ _ s. (ok ([], pos 0), s);
  categories = λ s. (ok [], s);
  feeds = λ s. (ok [], s);
  unread_counters = λ s. (ok (record { unreads = [] }), s);
  starred_total = λ s. (ok (pos 0), s);
  icon_data_url = λ _ s. (ok none, s);
  set_read_batch = λ _ _ s. (ok tt, s);
  entry_starred = λ _ s. (ok false, s);
  toggle_starred = λ _ s. (ok tt, s);
}

abbrev error : {A : Type 0} → A → String
error _ = "error"

flush_pending-delivers_example :
    let after =
      flush_pending server error error
        (λ t. t)
        "acct"
        (λ _. true)
        (λ _. false)
        as_stored
        marked
        tt in
    (rest : List PendingMutation) × Delivered server error error
      (λ t. t)
      "acct"
      (pending as_stored "acct" marked)
      marked
      tt
      rest
      after.0
    × EndsWith rest after.2
flush_pending-delivers_example =
    flush_pending-delivers server error error (λ t. t) "acct" (λ _. true) (λ _. false) as_stored
      marked tt
