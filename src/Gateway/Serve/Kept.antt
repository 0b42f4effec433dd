-- ===== src/Gateway/Serve/Kept.antt =====
-- internal/gateway/gateway.go: a rule for what `ServeHTTP` keeps true of the gateway.
use mcpshield.Prelude.{
  ℕ, ◌-◌, if◌then◌else◌, String, Option, none, some, List, if-elim, ◌==◌, Result, ok, err, ◌&&◌,
  not,
}
use mcpshield.Mcp.{
  Request, Tool, ToolsCallRequest, code_server_error, code_policy_denied, code_rate_limited,
}
use mcpshield.Metrics.{Registry}
use mcpshield.Policy.Loader.{Decision}
use mcpshield.Upstream.{ManagerError, Called, done, failed}
use mcpshield.Gateway.Sessions.{SessionError, bind_session, resolve_session}
use mcpshield.Gateway.{
  tools, called, denied_by, limited_by, requested_session, Event, Response, Gateway,
}
use mcpshield.Gateway.Events.{
  Clock, initialize_result, normalized_error, upstream_failure, base_event, call_event,
  failed_upstream,
}
use mcpshield.Gateway.Handlers.{
  Services, logged, allowed_tools, log_session_reject, handle_initialize, tools_listed,
  handle_tools_list, call_denied, call_answered, call_decided, call_params, call_parsed,
  handle_tools_call,
}
use mcpshield.Gateway.Serve.{HttpRequest, Codec, session_noted, serve_notification, serve_http}
use mcpshield.Gateway.Serve.Cases.{serve_http-elim, dispatch-elim}

-- Each change that a handler makes to the gateway keeps the predicate.
pub record Keeps {P U A : Type 0} (srv : Services P U A) (fresh : String)
    (I : Gateway P U A → Type 0) : Type 0 where
  pub logged :
      (e : Event) (g : Gateway P U A) → I g → I (record g { audit = (srv.audit.log e g.audit).1 })
  pub counted :
      (m : Option Registry) (g : Gateway P U A)
      → I g
      → I (record g { sessions = record g.sessions { metrics = m } })
  pub resolved :
      (requested client : String) (now : ℕ) (g : Gateway P U A)
      → I g
      → I (record g { sessions = (resolve_session requested client now g.sessions).1 })
  pub bound :
      (client : String) (now later : ℕ) (g : Gateway P U A)
      → I g
      → I (record g { sessions = bind_session fresh client now later g.sessions })
  pub evaluated :
      (client : String) (now : ℕ) (call : ToolsCallRequest) (g : Gateway P U A)
      → I g
      → I (record g { policy = (srv.policy.evaluate g.policy client now call).1 })
  pub listed :
      (now : ℕ) (g : Gateway P U A)
      → I g
      → I (record g { upstream = (srv.upstream.tools_list now g.upstream).1 })
  pub called :
      (now : ℕ) (call : ToolsCallRequest) (g : Gateway P U A)
      → I g
      → I (record g { upstream = (srv.upstream.tools_call now call g.upstream).1 })

module _ {P U A : Type 0} (srv : Services P U A) (fresh : String) (I : Gateway P U A → Type 0)
    (k : Keeps srv fresh I) where
  logged-Keeps :
      (e : Event) (g : Gateway P U A) (x : Response × Gateway P U A) (refused : Response)
      → I g
      → (I (record g { audit = (srv.audit.log e g.audit).1 }) → I x.1)
      → I
          (if (srv.audit.log e g.audit).0
            then x
            else (refused, record g { audit = (srv.audit.log e g.audit).1 })).1
  logged-Keeps e g x refused h after =
      if-elim (λ (r : Response × Gateway P U A). I r.1) (srv.audit.log e g.audit).0
        (λ _. after (k.logged e g h)) (λ _. k.logged e g h)

  module _ (clk : Clock) (req : Request) (client : String) where
    log_session_reject-Keeps :
        (requested : String) (e : SessionError) (refused answer : Response) (g : Gateway P U A)
        → I g
        → I (log_session_reject srv clk.stamped req client requested e refused answer g).1
    unfolding log_session_reject logged
    log_session_reject-Keeps requested e refused answer g h =
        logged-Keeps
          (record (base_event clk.stamped req client requested) {
            decision = "deny";
            failure = some (normalized_error e.code e.message (requested_session requested));
          })
          g _ _ h (λ h'. h')

    handle_initialize-Keeps :
        (g : Gateway P U A) → I g → I (handle_initialize srv clk req client fresh g).1
    unfolding handle_initialize logged
    handle_initialize-Keeps g h =
        logged-Keeps
          (record (base_event clk.stamped req client fresh) {
            action = "initialize";
            response = some initialize_result;
          })
          g _ _ h (k.bound client clk.evicted clk.bound _)

    tools_listed-Keeps :
        (sid : String) (r : Result ManagerError (List Tool)) (g : Gateway P U A)
        → I g
        → I (tools_listed srv clk req client sid r g).1
    unfolding tools_listed logged upstream_failure
    tools_listed-Keeps sid (err e) g h =
        logged-Keeps
          (record (base_event clk.stamped req client sid) {
            action = "tools/list";
            duration = clk.ended - clk.started;
            failure =
                some (
                  normalized_error code_server_error (upstream_failure e).1 (upstream_failure e).2);
          })
          g _ _ h (λ h'. h')
    tools_listed-Keeps sid (ok list) g h =
        logged-Keeps
          (record (base_event clk.stamped req client sid) {
            action = "tools/list";
            duration = clk.ended - clk.started;
            response = some (tools (allowed_tools (srv.policy.is_tool_allowed g.policy) list));
          })
          g _ _ h (k.counted _ _)

    call_denied-Keeps :
        (sid : String) (call : ToolsCallRequest) (d : Decision) (g : Gateway P U A)
        → I g
        → I (call_denied srv clk req client sid call d g).1
    unfolding call_denied logged
    call_denied-Keeps sid call d g h =
        if-elim (λ (r : Response × Gateway P U A). I r.1) d.rate_limited
          (λ _.
            logged-Keeps
              (record (call_event clk req client sid call d) {
                failure = some (
                    normalized_error code_rate_limited "rate limited"
                      (limited_by d.rule d.reason d.retry_after_ms));
              })
              g _ _ h (k.counted _ _))
          (λ _.
            logged-Keeps
              (record (call_event clk req client sid call d) {
                failure = some (
                    normalized_error code_policy_denied "policy denied"
                      (denied_by d.rule d.reason));
              })
              g _ _ h (k.counted _ _))

    call_answered-Keeps :
        (sid : String) (call : ToolsCallRequest) (d : Decision) (r : Called) (g : Gateway P U A)
        → I g
        → I (call_answered srv clk req client sid call d r g).1
    unfolding call_answered logged upstream_failure failed_upstream
    call_answered-Keeps sid call d (failed uid e) g h =
        logged-Keeps
          (record (call_event clk req client sid call d) {
            upstream_id = failed_upstream uid;
            failure =
                some (
                  normalized_error code_server_error (upstream_failure e).1 (upstream_failure e).2);
          })
          g _ _ h (λ h'. h')
    call_answered-Keeps sid call d (done uid r) g h =
        logged-Keeps
          (record (call_event clk req client sid call d) {
            upstream_id = uid;
            response = some (called r);
          })
          g _ _ h (k.counted _ _)

    call_parsed-Keeps :
        (sid : String) (call : Option ToolsCallRequest) (g : Gateway P U A)
        → I g
        → I (call_parsed srv clk req client sid call g).1
    unfolding call_parsed call_decided
    call_parsed-Keeps sid none g h = h
    call_parsed-Keeps sid (some call) g h =
        let h' = k.evaluated client clk.decided call g h in
        if-elim (λ (r : Response × Gateway P U A). I r.1) (call.name == "") (λ _. h)
          λ _.
            if-elim (λ (r : Response × Gateway P U A). I r.1)
              ((srv.policy.evaluate g.policy client clk.decided call).0.action == "deny")
              (λ _.
                call_denied-Keeps sid call (srv.policy.evaluate g.policy client clk.decided call).0
                  _ h')
              (λ _.
                call_answered-Keeps sid call
                  (srv.policy.evaluate g.policy client clk.decided call).0 _ _
                  (k.called clk.decided call _ h'))

    session_noted-Keeps :
        (requested : String) (r : Result SessionError String) (g : Gateway P U A)
        → I g
        → I (session_noted srv clk req client requested r g).1
    unfolding session_noted logged
    session_noted-Keeps requested (err e) g h = log_session_reject-Keeps requested e _ _ g h
    session_noted-Keeps requested (ok sid) g h =
        logged-Keeps (record (base_event clk.stamped req client sid) { request_id = none }) g _ _ h
          (λ h'. h')

    serve_notification-Keeps :
        (requested : String) (g : Gateway P U A)
        → I g
        → I (serve_notification srv clk req client requested g).1
    unfolding serve_notification
    serve_notification-Keeps requested g h =
        if-elim (λ (r : Response × Gateway P U A). I r.1)
          (req.method == "notifications/initialized" && not (requested == ""))
          (λ _. session_noted-Keeps requested _ _ (k.resolved requested client clk.resolved g h))
          (λ _. h)

  -- What every change of a handler keeps, every request keeps.
  pub serve_http-Keeps :
      (codec : Codec) (authenticate : HttpRequest → Result String String) (clk : Clock)
      (http : HttpRequest) (g : Gateway P U A)
      → I g
      → I (serve_http srv codec authenticate clk fresh http g).1
  unfolding handle_tools_list handle_tools_call
  serve_http-Keeps codec authenticate clk http g h =
      let K = λ (r : Response × Gateway P U A). I r.1 in
      serve_http-elim srv codec authenticate K clk fresh http g (λ r f. h)
        (λ req client a. serve_notification-Keeps clk req client http.session g h)
        λ req client carried a.
          let h' = k.resolved http.session client clk.resolved g h in
          dispatch-elim srv K clk fresh req client http.session g (λ r f. h)
            (handle_initialize-Keeps clk req client g h)
            (λ e. log_session_reject-Keeps clk req client http.session e _ _ _ h')
            (λ sid s. tools_listed-Keeps clk req client sid _ _ (k.listed clk.started _ h'))
            (λ sid s named. call_parsed-Keeps clk req client sid (call_params srv req) _ h')
