-- ===== src/Transport.antt =====
-- internal/transport/mcp_http_client.go and http.go: the JSON-RPC calls to one upstream server, and
-- what the two constructors demand.
pub mod Calls
pub mod Reply
pub mod Counted
pub mod Ids
pub mod Tests
use mcpshield.Prelude.{
  ℕ, String, Bool, not, Option, none, some, List, ℤ, is_pos, pos_part, Result, ok, err,
  if◌then◌else◌,
}
use mcpshield.Mcp.{Json}
use mcpshield.Metrics.{Registry}

-- An int64 is its bit pattern.
pub record HttpClient : Type 0 where
  pub upstream_id : String
  pub base_url : String
  pub headers : List (String × String)
  pub request_timeout : ℤ
  pub next_id : ℕ
  pub max_response_bytes : ℕ
  pub metrics : Option Registry

-- `rpcEnvelope`
pub record RpcEnvelope : Type 0 where
  pub jsonrpc : String
  pub id : ℕ
  pub method : String
  pub params : Option Json

-- `rpcReply`; a field that is absent is none.
pub record RpcReply : Type 0 where
  pub jsonrpc : String
  pub id : Option Json
  pub result : Option Json
  pub error : Option (ℤ × String)

-- What the decoder makes of a body: the bytes it read until it was done, the reply, and whether
-- something follows it.
pub record Decoding : Type 0 where
  pub read : ℕ
  pub reply : Option RpcReply
  pub trailing : Bool

pub data TransportError : Type 0 where
  bad_request_timeout bad_max_response_bytes : TransportError
  bad_read_timeout bad_write_timeout bad_idle_timeout : TransportError
  http_failed : String → TransportError
  bad_status : ℕ → TransportError
  too_large not_decoded trailing_data bad_version bad_id : TransportError
  both_fields neither_field : TransportError
  rpc_error : ℤ → String → TransportError
  bad_result : TransportError

-- `validateMCPHTTPClientConfig`
unfoldable pub validate_client : ℤ → ℤ → Option TransportError
validate_client timeout max =
    if not (is_pos timeout)
    then some bad_request_timeout
    else if not (is_pos max)
    then some bad_max_response_bytes
    else none

-- `NewMCPHTTPClient`
unfoldable pub new_http_client :
    String → String → List (String × String) → ℤ → ℤ → Result TransportError HttpClient
unfolding validate_client
new_http_client upstream_id base_url headers timeout max = elim (validate_client timeout max) [
  | some e ↦ err e
  | none ↦ ok (record {
    upstream_id = upstream_id;
    base_url = base_url;
    headers = headers;
    request_timeout = timeout;
    next_id = 0;
    max_response_bytes = pos_part max;
    metrics = none;
  })
]

-- `SetMetrics`
abbrev pub set_metrics : Option Registry → HttpClient → HttpClient
set_metrics r c = record c { metrics = r }

-- `http.Server`, as far as it is configured here
pub record HttpServer : Type 0 where
  pub addr : String
  pub read_timeout : ℤ
  pub write_timeout : ℤ
  pub idle_timeout : ℤ

-- `NewHTTPServer` with `validateHTTPServerConfig`
unfoldable pub new_http_server : String → ℤ → ℤ → ℤ → Result TransportError HttpServer
new_http_server addr reading writing idle =
    if not (is_pos reading)
    then err bad_read_timeout
    else if not (is_pos writing)
    then err bad_write_timeout
    else if not (is_pos idle)
    then err bad_idle_timeout
    else ok (record {
      addr = addr;
      read_timeout = reading;
      write_timeout = writing;
      idle_timeout = idle;
    })
