-- ===== src/Gateway/Handlers.antt =====
-- internal/gateway/gateway.go: the handlers of the MCP methods.
pub mod Calls
pub mod Lists
use mcpshield.Prelude.{
  ℕ, ◌-◌, String, Bool, Option, none, some, List, [], ◌∷◌, if◌then◌else◌, ◌==◌, Result, ok, err,
}
use mcpshield.Mcp.{
  Json, Request, Tool, ToolsCallRequest, code_invalid_params, code_server_error, code_policy_denied,
  code_rate_limited,
}
use mcpshield.Metrics.{Registry, update, requests, policy_denies, inc_rate_limit_hit}
use mcpshield.Policy.Loader.{Decision}
use mcpshield.Policy.Engine.{PolicyEngine}
use mcpshield.Upstream.{ManagerError, Called, done, failed}
use mcpshield.Gateway.Sessions.{SessionError, bind_session}
use mcpshield.Gateway.{
  tools, called, denied_by, limited_by, requested_session, Response, Event, UpstreamManager, Logger,
  Gateway, write_result, write_error, write_error_status, write_error_with_data, with_session,
}
use mcpshield.Gateway.Events.{
  Clock, initialize_result, no_call, audit_failed, normalized_error, upstream_failure, base_event,
  call_event, failed_upstream,
}

-- What the gateway is built from, and `json.Unmarshal` into a `ToolsCallRequest`.
pub record Services (P U A : Type 0) : Type 0 where
  pub policy : PolicyEngine P
  pub upstream : UpstreamManager U
  pub audit : Logger A
  pub unmarshal_call : Json → Option ToolsCallRequest

-- the loop of `handleToolsList`
unfoldable pub allowed_tools : (String → Bool) → List Tool → List Tool
allowed_tools allow [] = []
allowed_tools allow (t ∷ ts) =
    let rest = allowed_tools allow ts in if allow t.name then t ∷ rest else rest

module _ {P U A : Type 0} (srv : Services P U A) where
  -- `if logErr := g.audit.Log(ctx, event); logErr != nil { …; return }` and what follows it
  unfoldable pub logged :
      Event
      → Response
      → (Gateway P U A → Response × Gateway P U A)
      → Gateway P U A
      → Response × Gateway P U A
  logged event refused next g =
      let (stored, a) = srv.audit.log event g.audit in
      if stored then next (record g { audit = a }) else (refused, record g { audit = a })

  -- `if g.metrics != nil { … }`
  abbrev pub count : (Option Registry → Option Registry) → Gateway P U A → Gateway P U A
  count f g = record g { sessions = record g.sessions { metrics = f g.sessions.metrics } }

  unfoldable pub log_session_reject :
      ℕ
      → Request
      → String
      → String
      → SessionError
      → Response
      → Response
      → Gateway P U A
      → Response × Gateway P U A
  unfolding logged
  log_session_reject stamped req client requested e refused answer g =
      logged
        (record (base_event stamped req client requested) {
          decision = "deny";
          failure = some (normalized_error e.code e.message (requested_session requested));
        })
        refused (λ g'. (answer, g')) g

  unfoldable pub handle_initialize :
      Clock → Request → String → String → Gateway P U A → Response × Gateway P U A
  unfolding logged
  handle_initialize clk req client sid g =
      logged
        (record (base_event clk.stamped req client sid) {
          action = "initialize";
          response = some initialize_result;
        })
        (audit_failed req.id)
        (λ g'. (
          with_session sid (write_result req.id initialize_result),
          record g' { sessions = bind_session sid client clk.evicted clk.bound g'.sessions },
        ))
        g

  -- `handleToolsList` from what the manager answers
  unfoldable pub tools_listed :
      Clock
      → Request
      → String
      → String
      → Result ManagerError (List Tool)
      → Gateway P U A
      → Response × Gateway P U A
  unfolding logged allowed_tools upstream_failure
  tools_listed clk req client sid (err e) g =
      let (status, msg, data_) = upstream_failure e in
      logged
        (record (base_event clk.stamped req client sid) {
          action = "tools/list";
          duration = clk.ended - clk.started;
          failure = some (normalized_error code_server_error msg data_);
        })
        (audit_failed req.id) (λ g'. (write_error_status req.id status code_server_error msg, g')) g
  tools_listed clk req client sid (ok list) g =
      let allowed = allowed_tools (srv.policy.is_tool_allowed g.policy) list in
      logged
        (record (base_event clk.stamped req client sid) {
          action = "tools/list";
          duration = clk.ended - clk.started;
          response = some (tools allowed);
        })
        (audit_failed req.id)
        (λ g'.
          (write_result req.id (tools allowed), count (update (requests req.method "" "allow")) g'))
        g

  unfoldable pub handle_tools_list :
      Clock → Request → String → String → Gateway P U A → Response × Gateway P U A
  unfolding tools_listed
  handle_tools_list clk req client sid g =
      let (r, u) = srv.upstream.tools_list clk.started g.upstream in
      tools_listed clk req client sid r (record g { upstream = u })

  -- the branches of `if decision.Action == "deny"`
  unfoldable pub call_denied :
      Clock
      → Request
      → String
      → String
      → ToolsCallRequest
      → Decision
      → Gateway P U A
      → Response × Gateway P U A
  unfolding logged
  call_denied clk req client sid call d g =
      let event = call_event clk req client sid call d in
      if d.rate_limited
      then (let why = limited_by d.rule d.reason d.retry_after_ms in
          logged
            (record event {
              failure = some (normalized_error code_rate_limited "rate limited" why);
            })
            (audit_failed req.id)
            (λ g'. (
              write_error_with_data req.id code_rate_limited "rate limited" why,
              count
                  (λ m.
                    update (requests req.method call.name "deny")
                      (inc_rate_limit_hit call.name client m))
                  g',
            ))
            g)
      else (let why = denied_by d.rule d.reason in
          logged
            (record event {
              failure = some (normalized_error code_policy_denied "policy denied" why);
            })
            (audit_failed req.id)
            (λ g'. (
              write_error_with_data req.id code_policy_denied "policy denied" why,
              count
                  (λ m.
                    update (requests req.method call.name "deny") (update (policy_denies d.rule) m))
                  g',
            ))
            g)

  -- the rest of `handleToolsCall` from what the manager answers
  unfoldable pub call_answered :
      Clock
      → Request
      → String
      → String
      → ToolsCallRequest
      → Decision
      → Called
      → Gateway P U A
      → Response × Gateway P U A
  unfolding logged upstream_failure failed_upstream
  call_answered clk req client sid call d (failed uid e) g =
      let (status, msg, data_) = upstream_failure e in
      logged
        (record (call_event clk req client sid call d) {
          upstream_id = failed_upstream uid;
          failure = some (normalized_error code_server_error msg data_);
        })
        (audit_failed req.id) (λ g'. (write_error_status req.id status code_server_error msg, g')) g
  call_answered clk req client sid call d (done uid r) g =
      logged
        (record (call_event clk req client sid call d) {
          upstream_id = uid;
          response = some (called r);
        })
        (audit_failed req.id)
        (λ g'. (
          write_result req.id (called r),
          count (update (requests req.method call.name "allow")) g',
        ))
        g

  -- `handleToolsCall` from the decision on
  unfoldable pub call_decided :
      Clock
      → Request
      → String
      → String
      → ToolsCallRequest
      → Decision
      → Gateway P U A
      → Response × Gateway P U A
  unfolding call_denied call_answered
  call_decided clk req client sid call d g =
      if d.action == "deny"
      then call_denied clk req client sid call d g
      else (let (answer, u) = srv.upstream.tools_call clk.decided call g.upstream in
          call_answered clk req client sid call d answer (record g { upstream = u }))

  -- the parameters of a request: none decode to an empty call
  unfoldable pub call_params : Request → Option ToolsCallRequest
  call_params req = elim req.params [ none ↦ some no_call | some p ↦ srv.unmarshal_call p ]

  -- `handleToolsCall` once the parameters are decoded
  unfoldable pub call_parsed :
      Clock
      → Request
      → String
      → String
      → Option ToolsCallRequest
      → Gateway P U A
      → Response × Gateway P U A
  unfolding call_decided
  call_parsed clk req client sid none g =
      (write_error req.id code_invalid_params "invalid params", g)
  call_parsed clk req client sid (some call) g =
      if call.name == ""
      then (write_error req.id code_invalid_params "invalid params: name required", g)
      else (let (d, p) = srv.policy.evaluate g.policy client clk.decided call in
          call_decided clk req client sid call d (record g { policy = p }))

  unfoldable pub handle_tools_call :
      Clock → Request → String → String → Gateway P U A → Response × Gateway P U A
  unfolding call_params call_parsed
  handle_tools_call clk req client sid g = call_parsed clk req client sid (call_params req) g
