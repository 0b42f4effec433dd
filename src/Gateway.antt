-- ===== src/Gateway.antt =====
-- internal/gateway/gateway.go: the gateway's state, its configuration and the responses it writes.
-- The policy engine, the upstream manager and the audit logger have states `P`, `U` and `A` of
-- their own; the handlers reach them only through the interfaces below.
pub mod Sessions
pub mod Events
pub mod Handlers
pub mod Serve
pub mod Tests
mod AnswerTests
use mcpshield.Prelude.{
  ℕ, String, Bool, false, not, Option, none, some, List, [], length, if◌then◌else◌, ℤ, is_pos,
  pos_part, pos, negsuc, eqb, ◌||◌, Result, ok, err,
}
use mcpshield.Mcp.{
  Json, Object, Tool, ToolsCallResult, ToolsCallRequest, code_parse_error, code_invalid_request,
  code_invalid_params, code_method_not_found, code_unauthorized, code_rate_limited,
  code_server_error,
}
use mcpshield.Metrics.{Registry, update, active_sessions}
use mcpshield.Gateway.Sessions.{Sessions as SessionTable}
use mcpshield.Upstream.{ManagerError, Called}

-- The payload of a JSON-RPC result.
pub data Payload : Type 0 where
  initialized : String → String → String → Payload
  tools : List Tool → Payload
  called : ToolsCallResult → Payload

-- The `data` of an error; a cause is the error value whose text the code takes.
pub data ErrorData : Type 0 where
  denied_by : String → String → ErrorData
  limited_by : String → String → ℕ → ErrorData
  cause : ManagerError → ErrorData
  reason_not_ready : ErrorData
  requested_session : String → ErrorData

-- audit.AuditError, and mcp.Error of a response
pub record Failure : Type 0 where
  pub code : ℤ
  pub message : String
  pub details : Option ErrorData

pub data Body : Type 0 where
  no_body : Body
  not_found_page : Body
  metrics_page : Registry → Body
  result : Option Json → Payload → Body
  error : Option Json → Failure → Body

pub record Response : Type 0 where
  pub status : ℕ
  pub session : Option String
  pub body : Body

-- audit.Event as the gateway fills it; `request_id` is the raw id.
pub record Event : Type 0 where
  pub timestamp : ℕ
  pub action : String
  pub tool : String
  pub decision : String
  pub reason : String
  pub policy_rule : String
  pub client_id : String
  pub request_id : Option Json
  pub session_id : String
  pub upstream_id : String
  pub duration : ℕ
  pub arguments : Object
  pub response : Option Payload
  pub failure : Option Failure

-- upstream.Manager as the gateway uses it; a number is a clock reading.
pub record UpstreamManager (U : Type 0) : Type 0 where
  pub ready : U → Bool
  pub tools_list : ℕ → U → Result ManagerError (List Tool) × U
  pub tools_call : ℕ → ToolsCallRequest → U → Called × U

-- audit.Logger: whether `Log` returned nil.
pub record Logger (A : Type 0) : Type 0 where
  pub log : Event → A → Bool × A

pub record Gateway (P U A : Type 0) : Type 0 where
  pub policy : P
  pub upstream : U
  pub audit : A
  pub request_timeout : ℕ
  pub max_request_bytes : ℕ
  pub sessions : SessionTable

pub record Config : Type 0 where
  pub request_timeout : ℤ
  pub max_request_bytes : ℤ
  pub session_ttl : ℤ
  pub session_max_entries : ℤ

pub data ConfigError : Type 0 where
  bad_request_timeout bad_max_request_bytes bad_session_ttl bad_session_max_entries : ConfigError

unfoldable pub validate_config : Config → Option ConfigError
validate_config cfg =
    if not (is_pos cfg.request_timeout)
    then some bad_request_timeout
    else if not (is_pos cfg.max_request_bytes)
    then some bad_max_request_bytes
    else if not (is_pos cfg.session_ttl)
    then some bad_session_ttl
    else if not (is_pos cfg.session_max_entries)
    then some bad_session_max_entries
    else none

-- the table that `New` makes
abbrev pub no_sessions : Config → SessionTable
no_sessions cfg = record {
  clients = [];
  ttl = pos_part cfg.session_ttl;
  max_entries = pos_part cfg.session_max_entries;
  metrics = none;
}

module _ {P U A : Type 0} where
  -- `New`
  unfoldable pub new_gateway : P → U → A → Config → Result ConfigError (Gateway P U A)
  unfolding validate_config
  new_gateway p u a cfg = elim (validate_config cfg) [
    | some e ↦ err e
    | none ↦ ok (record {
      policy = p;
      upstream = u;
      audit = a;
      request_timeout = pos_part cfg.request_timeout;
      max_request_bytes = pos_part cfg.max_request_bytes;
      sessions = no_sessions cfg;
    })
  ]

  unfoldable pub set_metrics : Option Registry → Gateway P U A → Gateway P U A
  set_metrics r g = record g {
    sessions = record g.sessions {
      metrics = update (active_sessions (length g.sessions.clients)) r;
    };
  }

  unfoldable pub set_max_request_bytes : ℤ → Gateway P U A → Gateway P U A
  set_max_request_bytes n g = if is_pos n then record g { max_request_bytes = pos_part n } else g

  unfoldable pub set_session_config : ℤ → ℤ → Gateway P U A → Gateway P U A
  set_session_config ttl entries g = record g {
    sessions = record g.sessions {
      ttl = if is_pos ttl then pos_part ttl else g.sessions.ttl;
      max_entries = if is_pos entries then pos_part entries else g.sessions.max_entries;
    };
  }

-- `code == c` on Go's integers
abbrev pub same_code : ℤ → ℤ → Bool
same_code (pos m) (pos n) = eqb m n
same_code (negsuc m) (negsuc n) = eqb m n
same_code (pos m) (negsuc n) = false
same_code (negsuc m) (pos n) = false

unfoldable pub http_status_for_code : ℤ → ℕ
http_status_for_code code =
    if same_code code code_parse_error
      || same_code code code_invalid_request
      || same_code code code_invalid_params
    then 400
    else if same_code code code_method_not_found
    then 404
    else if same_code code code_unauthorized
    then 401
    else if same_code code code_rate_limited
    then 429
    else if same_code code code_server_error
    then 500
    else 200

-- `w.WriteHeader` without a body
abbrev pub status_only : ℕ → Response
status_only s = record { status = s; session = none; body = no_body }

abbrev pub write_result : Option Json → Payload → Response
write_result id p = record { status = 200; session = none; body = result id p }

abbrev pub write_error_status : Option Json → ℕ → ℤ → String → Response
write_error_status id status code msg = record {
  status = status;
  session = none;
  body = error id (record { code = code; message = msg; details = none });
}

abbrev pub write_error : Option Json → ℤ → String → Response
write_error id code msg = write_error_status id (http_status_for_code code) code msg

abbrev pub write_error_with_data : Option Json → ℤ → String → ErrorData → Response
write_error_with_data id code msg d = record {
  status = http_status_for_code code;
  session = none;
  body = error id (record { code = code; message = msg; details = some d });
}

-- `w.Header().Set(mcp.SessionHeader, …)` before the response is written
abbrev pub with_session : String → Response → Response
with_session id r = record r { session = some id }
