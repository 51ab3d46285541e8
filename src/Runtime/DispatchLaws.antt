-- ===== src/Runtime/DispatchLaws.antt =====
-- What a request returns and leaves behind, over all operations.
use flux_bar.Prelude.{
  ◌≡◌, refl, Bool, true, none, String, ℤ, Result, ok, err, ◌⊎◌, inl, inr, ◌==◌, if◌then◌else◌,
}
use flux_bar.Text.{trim}
use flux_bar.Transport.Request.{Request, Operation as Op, default_request, into_operation}
use flux_bar.Transport.Response.{Response, not_configured, ok_response}
use flux_bar.Runtime.Session.{AppRuntime}
use flux_bar.Runtime.Handlers.{Engine, with_engine}
use flux_bar.Runtime.Configure.{
  Setup, configure, on_validated, on_opened, on_ensured, on_client, install_engine,
}
use flux_bar.Runtime.Dispatch.{
  Texts, dispatch, on_operation, on_request, handle_json, Input, process, null_input, utf8,
  invalid_utf8,
}

-- `configure`, and the operations on messages.
abbrev pub NeedsSession : Op → Type 0
NeedsSession (Op.configure _ _ _ _ _) = ⊥
NeedsSession (Op.localize _ _ _) = ⊥
NeedsSession (Op.localize_plural _ _ _ _ _) = ⊥
NeedsSession _ = Unit

module _ {W : Type 0} (engine : Engine W) (setup : Setup W) (texts : Texts) where
  with_engine-unconfigured :
      (runtime : AppRuntime) (handler : _) (w : W)
      → runtime.session ≡ none
      → with_engine engine runtime handler w ≡ (not_configured, w)
  unfolding with_engine
  with_engine-unconfigured runtime handler w h = rw h refl

  -- Before a session is configured, every operation on entries, feeds and mutations returns the error
  -- that Miniflux is not configured, and nothing is read or changed.
  pub dispatch-unconfigured :
      (operation : Op) (runtime : AppRuntime) (w : W)
      → NeedsSession operation
      → runtime.session ≡ none
      → dispatch engine setup texts operation runtime w ≡ (not_configured, runtime, w)
  unfolding dispatch
  dispatch-unconfigured (Op.configure _ _ _ _ _) runtime w needs h = absurd needs
  dispatch-unconfigured (Op.localize _ _ _) runtime w needs h = absurd needs
  dispatch-unconfigured (Op.localize_plural _ _ _ _ _) runtime w needs h = absurd needs
  dispatch-unconfigured (Op.local_snapshot _ _) runtime w needs h =
      rw (with_engine-unconfigured runtime _ w h) refl
  dispatch-unconfigured (Op.refresh _ _) runtime w needs h =
      rw (with_engine-unconfigured runtime _ w h) refl
  dispatch-unconfigured (Op.set_read _ _ _ _ _ _) runtime w needs h =
      rw (with_engine-unconfigured runtime _ w h) refl
  dispatch-unconfigured (Op.set_starred _ _ _ _) runtime w needs h =
      rw (with_engine-unconfigured runtime _ w h) refl
  dispatch-unconfigured (Op.undo_read _ _ _) runtime w needs h =
      rw (with_engine-unconfigured runtime _ w h) refl
  dispatch-unconfigured (Op.discard_undo _) runtime w needs h =
      rw (with_engine-unconfigured runtime _ w h) refl
  dispatch-unconfigured (Op.flush_pending _ _) runtime w needs h =
      rw (with_engine-unconfigured runtime _ w h) refl
  dispatch-unconfigured (Op.feed_icon _ _) runtime w needs h =
      rw (with_engine-unconfigured runtime _ w h) refl

  -- The response says ok, or the configuration is the one before.
  abbrev pub IsKept : AppRuntime → Response × AppRuntime × W → Type 0
  IsKept runtime result = (result.0.ok ≡ true) ⊎ (result.1 ≡ runtime)

  on_client-IsKept :
      (account : String) (newest_first : Bool) (generation : ℤ) (runtime : AppRuntime) (w : W)
      (r : Result String (Unit {0}))
      → IsKept runtime (on_client engine setup account newest_first generation runtime w r)
  unfolding on_client install_engine ok_response
  on_client-IsKept account newest_first generation runtime w (err e) = inr refl
  on_client-IsKept account newest_first generation runtime w (ok _) = inl refl

  on_ensured-IsKept :
      (server api_key : String) (newest_first : Bool) (generation : ℤ) (runtime : AppRuntime)
      (r : Result String (Unit {0}) × W)
      → IsKept runtime (on_ensured engine setup server api_key newest_first generation runtime r)
  unfolding on_ensured
  on_ensured-IsKept server api_key newest_first generation runtime (err e, w) = inr refl
  on_ensured-IsKept server api_key newest_first generation runtime (ok _, w) =
      on_client-IsKept (setup.account_id server (setup.trim_key api_key)) newest_first generation
        runtime w (setup.new_client server (setup.trim_key api_key))

  on_opened-IsKept :
      (server api_key : String) (newest_first : Bool) (generation : ℤ) (runtime : AppRuntime)
      (r : Result String (Unit {0}) × W)
      → IsKept runtime (on_opened engine setup server api_key newest_first generation runtime r)
  unfolding on_opened
  on_opened-IsKept server api_key newest_first generation runtime (err e, w) = inr refl
  on_opened-IsKept server api_key newest_first generation runtime (ok _, w) =
      on_ensured-IsKept server api_key newest_first generation runtime
        (setup.ensure_account (setup.account_id server (setup.trim_key api_key)) server w)

  on_validated-IsKept :
      (api_key : String) (newest_first : Bool) (generation : ℤ) (runtime : AppRuntime) (w : W)
      (r : Result String String)
      → IsKept runtime (on_validated engine setup api_key newest_first generation runtime w r)
  unfolding on_validated
  on_validated-IsKept api_key newest_first generation runtime w (err e) = inr refl
  on_validated-IsKept api_key newest_first generation runtime w (ok server) =
      on_opened-IsKept server api_key newest_first generation runtime (setup.open_store w)

  dispatch-IsKept :
      (operation : Op) (runtime : AppRuntime) (w : W)
      → IsKept runtime (dispatch engine setup texts operation runtime w)
  unfolding dispatch configure
  dispatch-IsKept (Op.configure server api_key newest_first generation locales) runtime w =
      on_validated-IsKept api_key newest_first generation runtime w
        (setup.validate server api_key locales)
  dispatch-IsKept (Op.localize _ _ _) runtime w = inr refl
  dispatch-IsKept (Op.localize_plural _ _ _ _ _) runtime w = inr refl
  dispatch-IsKept (Op.local_snapshot _ _) runtime w = inr refl
  dispatch-IsKept (Op.refresh _ _) runtime w = inr refl
  dispatch-IsKept (Op.set_read _ _ _ _ _ _) runtime w = inr refl
  dispatch-IsKept (Op.set_starred _ _ _ _) runtime w = inr refl
  dispatch-IsKept (Op.undo_read _ _ _) runtime w = inr refl
  dispatch-IsKept (Op.discard_undo _) runtime w = inr refl
  dispatch-IsKept (Op.flush_pending _ _) runtime w = inr refl
  dispatch-IsKept (Op.feed_icon _ _) runtime w = inr refl

  on_operation-IsKept :
      (r : Result String Op) (runtime : AppRuntime) (w : W)
      → IsKept runtime (on_operation engine setup texts r runtime w)
  on_operation-IsKept (err e) runtime w = inr refl
  on_operation-IsKept (ok operation) runtime w = dispatch-IsKept operation runtime w

  on_request-IsKept :
      (r : Result String Request) (runtime : AppRuntime) (w : W)
      → IsKept runtime (on_request engine setup texts r runtime w)
  on_request-IsKept (err e) runtime w = inr refl
  on_request-IsKept (ok request) runtime w = on_operation-IsKept (into_operation request) runtime w

  -- A request of any kind, well formed or not, either gets the response ok or leaves the configuration as it
  -- was: no failed `configure` replaces or ends a session.
  pub process-IsKept :
      (parse : String → Result String Request) (input : Input) (runtime : AppRuntime) (w : W)
      → IsKept runtime (process engine setup texts parse input runtime w)
  unfolding process handle_json
  process-IsKept parse null_input runtime w = inr refl
  process-IsKept parse (invalid_utf8 reason) runtime w = inr refl
  process-IsKept parse (utf8 json) runtime w =
      on_request-IsKept (if trim json == "null" then ok default_request else parse json) runtime w
