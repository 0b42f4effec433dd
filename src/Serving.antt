-- ===== src/Serving.antt =====
-- cmd/mcpshield/main.go: the server that `runServe` runs. The gateway of the assembled parts stands
-- over the policy engine, the upstream manager with its clients, and the audit logger.
pub mod Runs
pub mod Entitled
pub mod Guarded
pub mod Ledger
pub mod Settled
mod Tests
mod LedgerTests
use mcpshield.Prelude.{ℕ, String, Option, List, Result}
use mcpshield.Mcp.{Json, Tool, ToolsCallRequest}
use mcpshield.Policy.RateLimit.{Buckets, fixed_window}
use mcpshield.Policy.Engine.{Engine, yaml_engine}
use mcpshield.Auth.{Digest, Authenticator, authenticate}
use mcpshield.Audit.Open.{AuditLog}
use mcpshield.Audit.Stored.{Marshal}
use mcpshield.Audit.Service.{LogCall, audit_service}
use mcpshield.Upstream.{Manager, ManagerError, Called, ready, tools_list, tools_call}
use mcpshield.Gateway.{UpstreamManager, Gateway, Response}
use mcpshield.Gateway.Events.{Clock}
use mcpshield.Gateway.Handlers.{Services}
use mcpshield.Gateway.Serve.{HttpRequest, Codec, serve_http}
use mcpshield.Startup.{World}

module _ {W : Type 0} where
  -- `ToolsList` and `ToolsCall` of the real manager. The background refresh that they may start is
  -- marked in the manager; its end is a step of its own.
  unfoldable pub list_upstream : ℕ → Manager W × W → Result ManagerError (List Tool) × Manager W × W
  unfolding tools_list
  list_upstream now (m, w) = let (r, started, m') = tools_list now m in (r, m', w)

  unfoldable pub call_upstream : ℕ → ToolsCallRequest → Manager W × W → Called × Manager W × W
  unfolding tools_call
  call_upstream now req (m, w) = let (r, started, m', w') = tools_call now m req w in (r, m', w')

  abbrev pub real_upstream : UpstreamManager (Manager W × W)
  real_upstream = record {
    ready = λ u. ready u.0;
    tools_list = λ now u. let (r, m, w) = list_upstream now u in (r, (m, w));
    tools_call = λ now req u. let (r, m, w) = call_upstream now req u in (r, (m, w));
  }

-- encoding/json and SHA-256.
pub record Libraries : Type 0 where
  pub codec : Codec
  pub marshal : Marshal
  pub unmarshal_call : Json → Option ToolsCallRequest
  pub sum256 : String → Digest

-- What one request finds: its clock readings, the session id that `initialize` would give, and what
-- its call of `Log` comes to.
pub record Moment : Type 0 where
  pub clock : Clock
  pub fresh : String
  pub log : LogCall

abbrev pub ServerGateway : Type 0 → Type 0
ServerGateway N = Gateway (Engine Buckets) (Manager (World N) × World N) AuditLog

-- the authenticator, which reads the header Authorization
abbrev pub authenticated : Libraries → Authenticator → HttpRequest → Result String String
authenticated lib a http = authenticate lib.sum256 a http.authorization

module _ {N : Type 0} (lib : Libraries) where
  abbrev pub services : LogCall → Services (Engine Buckets) (Manager (World N) × World N) AuditLog
  services c = record {
    policy = yaml_engine fixed_window;
    upstream = real_upstream;
    audit = audit_service lib.marshal c;
    unmarshal_call = lib.unmarshal_call;
  }

  -- one request to the server
  unfoldable pub serve :
      Authenticator → Moment → HttpRequest → ServerGateway N → Response × ServerGateway N
  unfolding serve_http
  serve a t http g =
      serve_http (services t.log) lib.codec (authenticated lib a) t.clock t.fresh http g
