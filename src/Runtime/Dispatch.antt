-- ===== src/Runtime/Dispatch.antt =====
-- `dispatch` of rust-core/src/dispatcher.rs, and `process` and `handle_json` of rust-core/src/ffi.rs.
-- The JSON package reads a request: `parse` is `parse_request`.
use Prim.Native.String.{◌++◌}
use flux_bar.Prelude.{true, List, String, ◌==◌, ℤ, Result, ok, err, if◌then◌else◌}
use flux_bar.Text.{trim}
use flux_bar.Transport.Request.{Request, Operation as Op, default_request, into_operation}
use flux_bar.Transport.Response.{Response, default_response, invalid_request, null_request}
use flux_bar.Runtime.Session.{AppRuntime}
use flux_bar.Runtime.Handlers.{
  Engine, with_engine, handle_local_snapshot, handle_refresh, handle_set_read, handle_set_starred,
  handle_undo_read, handle_discard_undo, handle_flush_pending, handle_feed_icon,
}
use flux_bar.Runtime.Configure.{Setup, configure}

-- `Localizer::new(locales)` with `text` and `plural`.
pub record Texts : Type 0 where
  pub text : List String → String → String → String
  pub plural : List String → String → String → String → ℤ → String

unfoldable pub text_response : String → Response
text_response text = record default_response { ok = true; text = text }

-- The request as the C interface gets it.
pub data Input : Type 0 where
  null_input : Input
  utf8 : String → Input
  invalid_utf8 : String → Input

module _ {W : Type 0} (engine : Engine W) (setup : Setup W) (texts : Texts) where
  -- An operation that leaves the configuration alone.
  abbrev pub keep : AppRuntime → Response × W → Response × AppRuntime × W
  keep runtime (response, w) = (response, runtime, w)

  unfoldable pub dispatch : Op → AppRuntime → W → Response × AppRuntime × W
  unfolding with_engine configure text_response
  dispatch (Op.configure server api_key newest_first generation locales) runtime w =
      configure engine setup server api_key newest_first generation locales runtime w
  dispatch (Op.local_snapshot selection retain_ids) runtime w =
      keep runtime
        (with_engine engine runtime (handle_local_snapshot engine selection retain_ids) w)
  dispatch (Op.refresh selection retain_ids) runtime w =
      keep runtime (with_engine engine runtime (handle_refresh engine selection retain_ids) w)
  dispatch (Op.set_read selection entry_id entry_ids retain_ids read mutation_source) runtime w =
      keep runtime (
        with_engine engine runtime
          (handle_set_read engine selection entry_id entry_ids retain_ids read
            (mutation_source == "automatic"))
          w)
  dispatch (Op.set_starred selection entry_id retain_ids desired_starred) runtime w = keep runtime (
      with_engine engine runtime
        (handle_set_starred engine selection entry_id retain_ids desired_starred) w)
  dispatch (Op.undo_read selection mutation_id retain_ids) runtime w =
      keep runtime
        (with_engine engine runtime (handle_undo_read engine selection mutation_id retain_ids) w)
  dispatch (Op.discard_undo mutation_id) runtime w =
      keep runtime (with_engine engine runtime (handle_discard_undo engine mutation_id) w)
  dispatch (Op.flush_pending selection retain_ids) runtime w =
      keep runtime (with_engine engine runtime (handle_flush_pending engine selection retain_ids) w)
  dispatch (Op.feed_icon feed_id _) runtime w =
      keep runtime (with_engine engine runtime (handle_feed_icon engine feed_id) w)
  dispatch (Op.localize locales key fallback) runtime w =
      (text_response (texts.text locales key fallback), runtime, w)
  dispatch (Op.localize_plural locales key one_fallback other_fallback count) runtime w =
      (text_response (texts.plural locales key one_fallback other_fallback count), runtime, w)

  abbrev pub on_operation : Result String Op → AppRuntime → W → Response × AppRuntime × W
  on_operation (err e) runtime w = (record default_response { error = e }, runtime, w)
  on_operation (ok operation) runtime w = dispatch operation runtime w

  abbrev pub on_request : Result String Request → AppRuntime → W → Response × AppRuntime × W
  on_request (err e) runtime w = (invalid_request e, runtime, w)
  on_request (ok request) runtime w = on_operation (into_operation request) runtime w

  module _ (parse : String → Result String Request) where
    unfoldable pub handle_json : String → AppRuntime → W → Response × AppRuntime × W
    unfolding dispatch
    handle_json json = on_request (if trim json == "null" then ok default_request else parse json)

    unfoldable pub process : Input → AppRuntime → W → Response × AppRuntime × W
    unfolding handle_json
    process null_input runtime w = (null_request, runtime, w)
    process (invalid_utf8 reason) runtime w =
        (invalid_request ("request is not valid UTF-8: " ++ reason), runtime, w)
    process (utf8 json) runtime w = handle_json json runtime w
