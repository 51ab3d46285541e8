-- ===== src/Remote/Error.antt =====
-- rust-core/src/remote/error.rs, and the mapping of error responses in rust-core/src/remote/miniflux.rs.
--
-- `to_text` is `to_string` of a status code; `lower` and `contains` are `to_ascii_lowercase` and
-- `str::contains`.
use Prim.Native.String.{◌++◌}
use flux_bar.Prelude.{ℕ, Bool, ◌||◌, nat_eq, Option, none, some, String, if◌then◌else◌}

pub data RemoteError : Type 0 where
  not_authorized : RemoteError
  forbidden : RemoteError
  not_found : RemoteError
  bad_request : Option String → RemoteError
  server_error : Option String → RemoteError
  status : ℕ → RemoteError
  transport : String → RemoteError
  json : String → RemoteError

-- `Display`
unfoldable pub display : (ℕ → String) → RemoteError → String
display to_text not_authorized = "miniflux: unauthorized (bad credentials)"
display to_text forbidden = "miniflux: access forbidden"
display to_text not_found = "miniflux: resource not found"
display to_text (bad_request (some message)) = "miniflux: bad request (" ++ (message ++ ")")
display to_text (bad_request none) = "miniflux: bad request"
display to_text (server_error (some message)) = "miniflux: internal server error: " ++ message
display to_text (server_error none) = "miniflux: internal server error"
display to_text (status code) = "miniflux: status code=" ++ to_text code
display to_text (transport message) = message
display to_text (json message) = "miniflux: response error (" ++ (message ++ ")")

module _ (lower : String → String) (contains : String → String → Bool) where
  unfoldable pub classify_transport : String → String
  classify_transport message =
      let text = lower message in
      if contains text "timed out" || contains text "timeout" || contains text "time limit"
      then "timeout"
      else if contains text "dns" || contains text "resolve" || contains text "lookup"
      then "dns"
      else if contains text "tls" || contains text "certificate" || contains text "cert"
      then "tls"
      else if contains text "network is unreachable" || contains text "offline"
      then "network_unavailable"
      else if contains text "connection refused"
      then "connection_refused"
      else "other"

  unfoldable pub category : RemoteError → String
  category (transport message) = classify_transport message
  category (json _) = "decode"
  category _ = "http_status"

  unfoldable pub log_safe_summary : (ℕ → String) → RemoteError → String
  log_safe_summary to_text (transport message) = category (transport message)
  log_safe_summary to_text other = display to_text other

-- The error of a response that is no success; `message` is the `error_message` that its body has as
-- JSON, if any.
unfoldable pub map_error_response : ℕ → Option String → RemoteError
map_error_response code message =
    if nat_eq code 401
    then not_authorized
    else if nat_eq code 403
    then forbidden
    else if nat_eq code 404
    then not_found
    else if nat_eq code 400
    then bad_request message
    else if nat_eq code 500
    then server_error message
    else status code
