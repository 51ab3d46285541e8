-- ===== src/Runtime/Session.antt =====
-- `AppRuntime` of rust-core/src/runtime.rs: the configured session, and the services of the accounts.
--
-- A service is a number. `alive` tells which services something else than this list still owns: a
-- session, a running operation or a worker thread. The URL package is an argument, and so are
-- `account_id` (SHA-256), the opening of the store and the creation of the remote client, as
-- results.
use Prim.Native.String.{String, [], ◌∷◌}
use mathlib.Core.List.{List, [], ◌∷◌}
use flux_bar.Prelude.{
  ℕ, Bool, true, not, ◌&&◌, ◌||◌, Option, none, some, ◌==◌, ℤ, leb_ℤ, Result, ok, err,
  if◌then◌else◌,
}
use flux_bar.Text.{is_code, is_empty, trim}

pub record Session : Type 0 where
  pub account_id : String
  pub generation : ℤ
  pub engine : ℕ

pub record AppRuntime : Type 0 where
  pub session : Option Session
  pub services : List (String × ℕ)

abbrev pub new_runtime : AppRuntime
new_runtime = record { session = none; services = [] }

-- `services.iter().find(...)`: the service of the first entry of the account.
unfoldable pub find_service : String → List (String × ℕ) → Option ℕ
find_service account [] = none
find_service account ((a, service) ∷ services) =
    let later = find_service account services in if a == account then some service else later

-- `services.retain(...)`
unfoldable pub retain_services : (ℕ → Bool) → String → List (String × ℕ) → List (String × ℕ)
retain_services alive account [] = []
retain_services alive account ((a, service) ∷ services) =
    let rest = retain_services alive account services in
    if a == account || alive service then (a, service) ∷ rest else rest

-- The first entry of the account overwritten, or a new entry at the end.
unfoldable pub put_service : String → ℕ → List (String × ℕ) → List (String × ℕ)
put_service account engine [] = (account, engine) ∷ []
put_service account engine ((a, service) ∷ services) =
    let rest = put_service account engine services in
    if a == account then (a, engine) ∷ services else (a, service) ∷ rest

-- `service.upgrade()`, or the candidate.
abbrev pub live_or : (ℕ → Bool) → ℕ → Option ℕ → ℕ
live_or alive candidate none = candidate
live_or alive candidate (some service) = if alive service then service else candidate

-- The live service of the account, or the candidate.
unfoldable pub chosen_engine : (ℕ → Bool) → String → ℕ → List (String × ℕ) → ℕ
chosen_engine alive account candidate services =
    live_or alive candidate (find_service account services)

-- `guard.as_ref().is_none_or(|existing| generation >= existing.config.generation)`
abbrev pub is_current : ℤ → Option Session → Bool
is_current generation none = true
is_current generation (some existing) = leb_ℤ existing.generation generation

-- The end of `configure`, under the lock of the session.
unfoldable pub install : (ℕ → Bool) → String → ℕ → ℤ → AppRuntime → AppRuntime
unfolding chosen_engine
install alive account candidate generation runtime =
    let engine = chosen_engine alive account candidate runtime.services in
    if is_current generation runtime.session
    then record {
      session = some (record { account_id = account; generation = generation; engine = engine });
      services = put_service account engine (retain_services alive account runtime.services);
    }
    else runtime

-- `trim_end_matches('/')`
unfoldable pub trim_end_slash : String → String
trim_end_slash [] = []
trim_end_slash (c ∷ s) =
    let rest = trim_end_slash s in if is_empty rest && is_code b'/' c then [] else c ∷ rest

-- `has_http_host` is an argument, since it reads a URL; `message` is `Localizer::text`.
unfoldable pub validate_configuration :
    (String → Bool) → (String → String → String) → String → String → Result String String
unfolding trim_end_slash
validate_configuration has_http_host message server api_key =
    let trimmed = trim_end_slash (trim server) in
    if not (has_http_host trimmed)
    then err
        (message "validation.server_invalid" "The server URL must be a complete HTTP or HTTPS URL.")
    else if is_empty (trim api_key)
    then err (message "validation.api_key_required" "Please enter a Miniflux API key.")
    else ok trimmed

abbrev pub current_engine : AppRuntime → Option ℕ
current_engine runtime = elim runtime.session [ none ↦ none | some session ↦ some session.engine ]
