-- ===== src/Gateway/Events.antt =====
-- internal/gateway/gateway.go: the clock readings of a request, the audit events and the error
-- responses that the handlers share.
use mcpshield.Prelude.{ℕ, ◌-◌, String, Option, none, some, [], if◌then◌else◌, ◌==◌, ℤ}
use mcpshield.Mcp.{Json, Request, ToolsCallRequest, code_server_error}
use mcpshield.Policy.Loader.{Decision}
use mcpshield.Upstream.{ManagerError, not_ready}
use mcpshield.Gateway.{
  Payload, initialized, ErrorData, cause, reason_not_ready, Failure, Response, Event, write_error,
}

-- The clock readings of one request, in the order in which the code takes them.
pub record Clock : Type 0 where
  pub resolved : ℕ
  pub started : ℕ
  pub decided : ℕ
  pub stamped : ℕ
  pub ended : ℕ
  pub evicted : ℕ
  pub bound : ℕ

-- protocolVersion, gatewayName, gatewayVersion
abbrev pub initialize_result : Payload
initialize_result = initialized "2024-11-05" "mcpshield" "0.1.0"

abbrev pub no_call : ToolsCallRequest
no_call = record { name = ""; arguments = [] }

abbrev pub audit_failed : Option Json → Response
audit_failed id = write_error id code_server_error "audit logging failed"

abbrev pub normalized_error : ℤ → String → ErrorData → Failure
normalized_error code msg d = record { code = code; message = msg; details = some d }

-- status, message and data for an error of the upstream manager: `errors.Is(err, ErrNotReady)`
unfoldable pub upstream_failure : ManagerError → ℕ × String × ErrorData
upstream_failure not_ready = (503, "gateway not ready", reason_not_ready)
upstream_failure e = (500, "upstream error", cause e)

-- the event that all handlers start from
abbrev pub base_event : ℕ → Request → String → String → Event
base_event stamped req client sid = record {
  timestamp = stamped;
  action = req.method;
  tool = "";
  decision = "allow";
  reason = "";
  policy_rule = "";
  client_id = client;
  request_id = req.id;
  session_id = sid;
  upstream_id = "gateway";
  duration = 0;
  arguments = [];
  response = none;
  failure = none;
}

-- the event of `handleToolsCall`
abbrev pub call_event : Clock → Request → String → String → ToolsCallRequest → Decision → Event
call_event clk req client sid call d = record (base_event clk.stamped req client sid) {
  action = "tools/call";
  tool = call.name;
  decision = d.action;
  reason = d.reason;
  policy_rule = d.rule;
  arguments = call.arguments;
  duration = clk.ended - clk.started;
}

-- `event.UpstreamID` after a failed call
unfoldable pub failed_upstream : Option String → String
failed_upstream none = "gateway"
failed_upstream (some id) = if id == "" then "gateway" else id
