-- ===== src/Gateway/Serve.antt =====
-- internal/gateway/gateway.go: `ServeHTTP`, in its phases. `encoding/json` and the authenticator
-- are parameters. A response writer that is written to once is the response that is returned.
pub mod Access
pub mod Audited
pub mod Called
pub mod Kept
pub mod Answers
pub mod IdType
pub mod Cases
use Prim.Native.String
use mcpshield.Prelude.{
  String, Bool, true, false, not, ◌||◌, ◌&&◌, Option, none, some, if◌then◌else◌, ◌==◌, ltb, Result,
  ok, err,
}
use mcpshield.Mcp.{
  Json, null, bool, num, str, arr, obj, Fields, Request, code_parse_error, code_invalid_request,
  code_method_not_found, code_unauthorized,
}
use mcpshield.Gateway.Sessions.{SessionError, resolve_session}
use mcpshield.Gateway.{
  not_found_page, metrics_page, Response, Gateway, http_status_for_code, status_only, write_error,
  write_error_status, with_session,
}
use mcpshield.Gateway.Events.{Clock, base_event, audit_failed}
use mcpshield.Gateway.Handlers.{
  Services, logged, log_session_reject, handle_initialize, handle_tools_list, handle_tools_call,
}

-- An inbound request: the bytes of the body, or `none` where reading them fails; `session` is
-- the session header, empty where there is none.
pub record HttpRequest : Type 0 where
  pub method : String
  pub path : String
  pub session : String
  pub authorization : String
  pub payload : Option String

-- What `json.Decoder` finds in the text.
pub data Decoded : Type 0 where
  malformed trailing : Decoded
  value : Json → Decoded

pub record Codec : Type 0 where
  pub trim_space : String → String
  pub decode : String → Decoded
  pub unmarshal_request : Fields → Option Request

-- `/metrics` and `/readyz`: `none` if the request is neither
module _ {P U A : Type 0} (srv : Services P U A) where
  unfoldable pub serve_probe : HttpRequest → Gateway P U A → Option Response
  serve_probe http g =
      if not (http.method == "GET")
      then none
      else if http.path == "/metrics"
      then some (elim g.sessions.metrics [
        | none ↦ record { status = 404; session = none; body = not_found_page }
        | some r ↦ record { status = 200; session = none; body = metrics_page r }
      ])
      else if http.path == "/readyz"
      then some (if srv.upstream.ready g.upstream then status_only 200 else status_only 503)
      else none

  -- `notifications/initialized` from the resolution of its session on
  unfoldable pub session_noted :
      Clock
      → Request
      → String
      → String
      → Result SessionError String
      → Gateway P U A
      → Response × Gateway P U A
  unfolding log_session_reject logged
  session_noted clk req client requested (err e) g =
      log_session_reject srv clk.stamped req client requested e (status_only 500)
        (status_only (http_status_for_code e.code)) g
  session_noted clk req client requested (ok sid) g =
      logged srv (record (base_event clk.stamped req client sid) { request_id = none })
        (status_only 500) (λ g'. (status_only 204, g')) g

  unfoldable pub serve_notification :
      Clock → Request → String → String → Gateway P U A → Response × Gateway P U A
  unfolding session_noted
  serve_notification clk req client requested g =
      if req.method == "notifications/initialized" && not (requested == "")
      then (let (r, s) = resolve_session requested client clk.resolved g.sessions in
          session_noted clk req client requested r (record g { sessions = s }))
      else (status_only 204, g)

  -- `tools/list` and `tools/call` from the resolution of the session on
  unfoldable pub in_session :
      (String → Gateway P U A → Response × Gateway P U A)
      → Clock
      → Request
      → String
      → String
      → Result SessionError String
      → Gateway P U A
      → Response × Gateway P U A
  unfolding log_session_reject
  in_session handle clk req client requested (err e) g =
      log_session_reject srv clk.stamped req client requested e (audit_failed req.id)
        (write_error req.id e.code e.message) g
  in_session handle clk req client requested (ok sid) g =
      let (answer, g') = handle sid g in (with_session sid answer, g')

  unfoldable pub with_resolved :
      (String → Gateway P U A → Response × Gateway P U A)
      → Clock
      → Request
      → String
      → String
      → Gateway P U A
      → Response × Gateway P U A
  unfolding in_session
  with_resolved handle clk req client requested g =
      let (r, s) = resolve_session requested client clk.resolved g.sessions in
      in_session handle clk req client requested r (record g { sessions = s })

  -- `switch req.Method`; `fresh` is the new session id
  unfoldable pub dispatch :
      Clock → String → Request → String → String → Gateway P U A → Response × Gateway P U A
  unfolding with_resolved
  dispatch clk fresh req client requested g =
      if req.method == "initialize"
      then handle_initialize srv clk req client fresh g
      else if req.method == "tools/list"
      then with_resolved (handle_tools_list srv clk req client) clk req client requested g
      else if req.method == "tools/call"
      then with_resolved (handle_tools_call srv clk req client) clk req client requested g
      else (write_error req.id code_method_not_found "method not found", g)

  -- what the authenticator says of the request, and whether the id is absent
  unfoldable pub serve_client :
      Clock
      → String
      → HttpRequest
      → Request
      → Option Json
      → Result String String
      → Gateway P U A
      → Response × Gateway P U A
  unfolding serve_notification dispatch
  serve_client clk fresh http req none (err e) g = (status_only 401, g)
  serve_client clk fresh http req (some id) (err e) g =
      (write_error req.id code_unauthorized "unauthorized", g)
  serve_client clk fresh http req none (ok client) g =
      serve_notification clk req client http.session g
  serve_client clk fresh http req (some id) (ok client) g =
      dispatch clk fresh req client http.session g

  -- the type of an id: a string, a number or null
  abbrev pub is_valid_id : Option Json → Bool
  is_valid_id none = true
  is_valid_id (some null) = true
  is_valid_id (some (bool b)) = false
  is_valid_id (some (num n)) = true
  is_valid_id (some (str s)) = true
  is_valid_id (some (arr a)) = false
  is_valid_id (some (obj f)) = false

  module _ (codec : Codec) (authenticate : HttpRequest → Result String String) where
    unfoldable pub serve_request :
        Clock → String → HttpRequest → Request → Gateway P U A → Response × Gateway P U A
    unfolding serve_client
    serve_request clk fresh http req g =
        if not (req.jsonrpc == "2.0") || req.method == ""
        then (write_error req.id code_invalid_request "invalid request", g)
        else if not (is_valid_id req.id)
        then (write_error (some null) code_invalid_request "invalid id type", g)
        else serve_client clk fresh http req req.id (authenticate http) g

    -- phases 2 and 3: the type of the JSON value, and the request in an object
    unfoldable pub serve_value :
        Clock → String → HttpRequest → Json → Gateway P U A → Response × Gateway P U A
    unfolding serve_request
    serve_value clk fresh http (arr items) g =
        (write_error (some null) code_invalid_request "batch not supported", g)
    serve_value clk fresh http (obj fields) g = elim (codec.unmarshal_request fields) [
      | none ↦ (write_error (some null) code_parse_error "parse error", g)
      | some req ↦ serve_request clk fresh http req g
    ]
    serve_value clk fresh http null g =
        (write_error (some null) code_invalid_request "invalid request", g)
    serve_value clk fresh http (bool b) g =
        (write_error (some null) code_invalid_request "invalid request", g)
    serve_value clk fresh http (num n) g =
        (write_error (some null) code_invalid_request "invalid request", g)
    serve_value clk fresh http (str s) g =
        (write_error (some null) code_invalid_request "invalid request", g)

    -- phase 1
    unfoldable pub serve_decoded :
        Clock → String → HttpRequest → Decoded → Gateway P U A → Response × Gateway P U A
    unfolding serve_value
    serve_decoded clk fresh http malformed g =
        (write_error (some null) code_parse_error "parse error", g)
    serve_decoded clk fresh http trailing g =
        (write_error (some null) code_parse_error "trailing data after JSON object", g)
    serve_decoded clk fresh http (value j) g = serve_value clk fresh http j g

    -- the body, as it is read up to the size limit
    unfoldable pub serve_payload :
        Clock → String → HttpRequest → Option String → Gateway P U A → Response × Gateway P U A
    unfolding serve_decoded
    serve_payload clk fresh http none g = (write_error (some null) code_parse_error "read error", g)
    serve_payload clk fresh http (some text) g =
        if ltb g.max_request_bytes (String.len text)
        then (write_error_status (some null) 413 code_invalid_request "request body too large", g)
        else if codec.trim_space text == ""
        then (write_error (some null) code_parse_error "empty body", g)
        else serve_decoded clk fresh http (codec.decode (codec.trim_space text)) g

    -- `ServeHTTP`
    unfoldable pub serve_http :
        Clock → String → HttpRequest → Gateway P U A → Response × Gateway P U A
    unfolding serve_probe serve_payload
    serve_http clk fresh http g = elim (serve_probe http g) [
      | some r ↦ (r, g)
      | none ↦ serve_payload clk fresh http http.payload g
    ]
