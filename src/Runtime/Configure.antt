-- ===== src/Runtime/Configure.antt =====
-- `AppRuntime::configure` of rust-core/src/runtime.rs, with what it calls outside as an interface.
use flux_bar.Prelude.{ℕ, Bool, List, String, ℤ, Result, ok, err, if◌then◌else◌}
use flux_bar.Transport.Response.{Response, ok_response, error_response}
use flux_bar.Runtime.Session.{AppRuntime, install, is_current, chosen_engine}
use flux_bar.Runtime.Handlers.{Engine}

-- What `configure` calls outside of this file.
pub record Setup (W : Type 0) : Type 0 where
  -- server, api_key, locales: the normalized server
  pub validate : String → String → List String → Result String String
  pub account_id : String → String → String
  pub trim_key : String → String
  pub open_store : W → Result String (Unit {0}) × W
  pub ensure_account : String → String → W → Result String (Unit {0}) × W
  pub new_client : String → String → Result String (Unit {0})
  -- the services that something owns, and the number of the new one
  pub alive : W → ℕ → Bool
  pub candidate : W → ℕ

module _ {W : Type 0} (engine : Engine W) (setup : Setup W) where
  -- The session, if the generation is not older: the engine gets the order of the list.
  unfoldable pub install_engine : String → ℤ → Bool → AppRuntime → W → Response × AppRuntime × W
  install_engine account generation newest_first runtime w =
      let after = install (setup.alive w) account (setup.candidate w) generation runtime in
      (
        ok_response,
        after,
        (if is_current generation runtime.session
            then engine.set_newest_first
                (chosen_engine (setup.alive w) account (setup.candidate w) runtime.services)
                newest_first w
            else w),
      )

  unfoldable pub on_client :
      String → Bool → ℤ → AppRuntime → W → Result String (Unit {0}) → Response × AppRuntime × W
  unfolding install_engine
  on_client account newest_first generation runtime w (err e) = (error_response e, runtime, w)
  on_client account newest_first generation runtime w (ok _) =
      install_engine account generation newest_first runtime w

  -- After the upsert of the account: the remote client.
  unfoldable pub on_ensured :
      String
      → String
      → Bool
      → ℤ
      → AppRuntime
      → Result String (Unit {0}) × W
      → Response × AppRuntime × W
  unfolding on_client
  on_ensured server api_key newest_first generation runtime (err e, w) =
      (error_response e, runtime, w)
  on_ensured server api_key newest_first generation runtime (ok _, w) =
      on_client (setup.account_id server (setup.trim_key api_key)) newest_first generation runtime w
        (setup.new_client server (setup.trim_key api_key))

  unfoldable pub on_opened :
      String
      → String
      → Bool
      → ℤ
      → AppRuntime
      → Result String (Unit {0}) × W
      → Response × AppRuntime × W
  unfolding on_ensured
  on_opened server api_key newest_first generation runtime (err e, w) =
      (error_response e, runtime, w)
  on_opened server api_key newest_first generation runtime (ok _, w) =
      on_ensured server api_key newest_first generation runtime
        (setup.ensure_account (setup.account_id server (setup.trim_key api_key)) server w)

  unfoldable pub on_validated :
      String → Bool → ℤ → AppRuntime → W → Result String String → Response × AppRuntime × W
  unfolding on_opened
  on_validated api_key newest_first generation runtime w (err message) =
      (error_response message, runtime, w)
  on_validated api_key newest_first generation runtime w (ok server) =
      on_opened server api_key newest_first generation runtime (setup.open_store w)

  -- `AppRuntime::configure`
  unfoldable pub configure :
      String → String → Bool → ℤ → List String → AppRuntime → W → Response × AppRuntime × W
  unfolding on_validated
  configure server api_key newest_first generation locales runtime w =
      on_validated api_key newest_first generation runtime w (setup.validate server api_key locales)
