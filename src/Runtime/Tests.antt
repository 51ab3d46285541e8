-- ===== src/Runtime/Tests.antt =====
-- Two accounts that are configured in turn, and requests before any is.
use flux_bar.Runtime.Session.{put_service, retain_services}
use flux_bar.Runtime.Session.{chosen_engine, find_service}
use flux_bar.Prelude.{ℕ, ◌≡◌, refl, false, some, [], String, pos, ok, err, ◌≤ℤ◌, Result}
use flux_bar.Transport.Request.{Request, Operation as Op}
use flux_bar.Transport.Response.{not_configured}
use flux_bar.Runtime.Session.{Session, new_runtime, install}
use flux_bar.Runtime.SessionLaws.{
  Process, Turn, Turns, begun, turned, configured, new_process, with_service, one_service,
  generation-Turns,
}
use flux_bar.Runtime.Handlers.{Engine}
use flux_bar.Runtime.Configure.{Setup}
use flux_bar.Runtime.Dispatch.{Texts, dispatch, process, utf8}
use flux_bar.Runtime.DispatchLaws.{IsKept, dispatch-unconfigured, process-IsKept}

abbrev first : Process
first =
    with_service 0 "a"
      (record new_process { runtime = install (λ _. false) "a" 0 (pos 1) new_runtime })

first_turn : Turn new_process first
unfolding chosen_engine find_service
first_turn = configured new_process "a" 0 (pos 1) refl refl

abbrev second : Process
second =
    with_service 1 "b" (record first { runtime = install first.alive "b" 1 (pos 2) first.runtime })

second_turn : Turn first second
unfolding install find_service put_service retain_services
second_turn = configured first "b" 1 (pos 2) refl refl

-- The first account again: its service is still alive, and a new one is not made.
abbrev third : Process
third =
    with_service 0 "a"
      (record second { runtime = install second.alive "a" 2 (pos 2) second.runtime })

third_turn : Turn second third
unfolding install find_service put_service retain_services
third_turn = configured second "a" 2 (pos 2) refl refl

three-Turns : Turns new_process third
three-Turns = turned (turned (turned begun first_turn) second_turn) third_turn

abbrev first_session : Session
first_session = record { account_id = "a"; generation = pos 1; engine = 0 }

first_found : first.runtime.session ≡ some first_session
unfolding install find_service
first_found = refl

one_service_example : ◌≡◌ {A = ℕ} 0 0
one_service_example = one_service 0 0 three-Turns refl refl refl

generation-Turns_example :
    (s' : Session) × (third.runtime.session ≡ some s') × (first_session.generation ≤ℤ s'.generation)
generation-Turns_example =
    generation-Turns first_session (turned (turned begun second_turn) third_turn) first_found

-- Services that fail, a setup that refuses.
abbrev no_engine : Engine (Unit {0})
no_engine = record {
  local_snapshot = λ _ _ _ w. (err "no", w);
  sync = λ _ _ _ w. (err "no", w);
  mark_read = λ _ _ _ _ _ _ w. (err "no", w);
  set_starred = λ _ _ _ _ _ w. (err "no", w);
  undo = λ _ _ _ _ w. (err "no", w);
  discard_undo = λ _ _ w. (err "no", w);
  flush_and_snapshot = λ _ _ _ w. (err "no", w);
  feed_icon = λ _ _ w. (record { regular = []; dark = [] }, w);
  set_newest_first = λ _ _ w. w;
}

abbrev no_setup : Setup (Unit {0})
no_setup = record {
  validate = λ _ _ _. err "no";
  account_id = λ server key. server;
  trim_key = λ key. key;
  open_store = λ w. (ok tt, w);
  ensure_account = λ _ _ w. (ok tt, w);
  new_client = λ _ _. ok tt;
  alive = λ _ _. false;
  candidate = λ _. 0;
}

abbrev no_texts : Texts
no_texts = record { text = λ _ _ t. t; plural = λ _ _ _ t _. t }

abbrev no_request : String → Result String Request
no_request _ = err "no"

dispatch-unconfigured_example :
    dispatch no_engine no_setup no_texts (Op.discard_undo "b1") new_runtime tt
    ≡ (not_configured, new_runtime, tt)
dispatch-unconfigured_example =
    dispatch-unconfigured no_engine no_setup no_texts (Op.discard_undo "b1") new_runtime tt tt refl

process-IsKept_example :
    IsKept no_engine no_setup no_texts new_runtime
      (process no_engine no_setup no_texts no_request (utf8 "null") new_runtime tt)
process-IsKept_example =
    process-IsKept no_engine no_setup no_texts no_request (utf8 "null") new_runtime tt
