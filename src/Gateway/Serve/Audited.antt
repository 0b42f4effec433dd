-- ===== src/Gateway/Serve/Audited.antt =====
-- That `ServeHTTP` of internal/gateway/gateway.go returns no result that the audit log lacks.
use mcpshield.Prelude.{
  ◌-◌, String, true, Option, none, some, List, ◌≡◌, refl, sym, ap, ◌∙◌, if-elim, if◌then◌else◌,
  ◌==◌, ◌&&◌, not, arith, Result, ok, err,
}
use mcpshield.Mcp.{Json, Request, Tool, ToolsCallRequest}
use mcpshield.Policy.Loader.{Decision}
use mcpshield.Upstream.{ManagerError, Called, done, failed}
use mcpshield.Gateway.Sessions.{SessionError}
use mcpshield.Gateway.{Payload, tools, called, result, Event, Response, Gateway, with_session}
use mcpshield.Gateway.Events.{Clock, initialize_result, call_event, base_event}
use mcpshield.Gateway.Handlers.{
  Services, logged, log_session_reject, handle_initialize, allowed_tools, tools_listed,
  handle_tools_list, call_denied, call_answered, call_decided, call_params, call_parsed,
  handle_tools_call,
}
use mcpshield.Gateway.Serve.{HttpRequest, Codec, session_noted, serve_notification, serve_http}
use mcpshield.Gateway.Serve.Cases.{Fails, serve_http-elim, dispatch-elim}

module _ {P U A : Type 0} (srv : Services P U A) where
  -- The audit logger took an event that carries the result, which leaves it as `after`.
  pub record Stored (before after : A) (p : Payload) : Type 0 where
    pub event : Event
    pub carries : event.response ≡ some p
    pub stored : srv.audit.log event before ≡ (true, after)

  -- A result of the response was stored in the audit log, from `before` to what it is then.
  record Audited (before : A) (r : Response × Gateway P U A) : Type 0 where
    pub results :
        (id : Option Json) (p : Payload) → r.0.body ≡ result id p → Stored before r.1.audit p

  Fails-Audited : (before : A) (r : Response) (g : Gateway P U A) → Fails r → Audited before (r, g)
  Fails-Audited before r g f = record { results = λ id p h. absurd (f id p h) }

  -- an event that is logged before the answer `x`, which holds no other result
  logged-Audited :
      (event : Event) (g : Gateway P U A) (x : Response × Gateway P U A) (refused : Response)
      → Fails refused
      → x.1.audit ≡ (srv.audit.log event g.audit).1
      → ((id : Option Json) (p : Payload) → x.0.body ≡ result id p → event.response ≡ some p)
      → Audited g.audit (
          if (srv.audit.log event g.audit).0
          then x
          else (refused, record g { audit = (srv.audit.log event g.audit).1 }))
  logged-Audited event g x refused f kept carries =
      if-elim (Audited g.audit) (srv.audit.log event g.audit).0
        (λ taken. record {
          results = λ id p h. record {
            event = event;
            carries = carries id p h;
            stored =
                ap (λ b. (b, (srv.audit.log event g.audit).1)) taken
                ∙ ap (λ a. (true, a)) (sym kept);
          };
        })
        (λ _. Fails-Audited g.audit refused _ f)

  module _ (clk : Clock) (req : Request) (client : String) where
    handle_initialize-Audited :
        (fresh : String) (g : Gateway P U A)
        → Audited g.audit (handle_initialize srv clk req client fresh g)
    unfolding handle_initialize logged
    handle_initialize-Audited fresh g =
        logged-Audited
          (record (base_event clk.stamped req client fresh) {
            action = "initialize";
            response = some initialize_result;
          })
          g _ _ (λ id p h. ground (arith, h)) refl (λ id p h. ground (arith, h))

    log_session_reject-Audited :
        (requested : String) (e : SessionError) (refused answer : Response) (g : Gateway P U A)
        → Fails refused
        → Fails answer
        → Audited g.audit
            (log_session_reject srv clk.stamped req client requested e refused answer g)
    unfolding log_session_reject logged
    log_session_reject-Audited requested e refused answer g f f' = record {
      results = λ id p h. let r = f id p in let r' = f' id p in absurd (ground (arith, h, r, r'));
    }

    tools_listed-Audited :
        (sid : String) (answer : Result ManagerError (List Tool)) (g : Gateway P U A)
        → Audited g.audit (tools_listed srv clk req client sid answer g)
    unfolding tools_listed logged
    tools_listed-Audited sid (err e) g = record { results = λ id p h. absurd (ground (arith, h)) }
    tools_listed-Audited sid (ok list) g =
        logged-Audited
          (record (base_event clk.stamped req client sid) {
            action = "tools/list";
            duration = clk.ended - clk.started;
            response = some (tools (allowed_tools (srv.policy.is_tool_allowed g.policy) list));
          })
          g _ _ (λ id p h. ground (arith, h)) refl (λ id p h. ground (arith, h))

    call_denied-Audited :
        (sid : String) (call : ToolsCallRequest) (d : Decision) (g : Gateway P U A)
        → Audited g.audit (call_denied srv clk req client sid call d g)
    unfolding call_denied logged
    call_denied-Audited sid call d g = record { results = λ id p h. absurd (ground (arith, h)) }

    call_answered-Audited :
        (sid : String) (call : ToolsCallRequest) (d : Decision) (answer : Called)
        (g : Gateway P U A)
        → Audited g.audit (call_answered srv clk req client sid call d answer g)
    unfolding call_answered logged
    call_answered-Audited sid call d (failed uid e) g = record {
      results = λ id p h. absurd (ground (arith, h));
    }
    call_answered-Audited sid call d (done uid r) g =
        logged-Audited
          (record (call_event clk req client sid call d) {
            upstream_id = uid;
            response = some (called r);
          })
          g _ _ (λ id p h. ground (arith, h)) refl (λ id p h. ground (arith, h))

    call_parsed-Audited :
        (sid : String) (parsed : Option ToolsCallRequest) (g : Gateway P U A)
        → Audited g.audit (call_parsed srv clk req client sid parsed g)
    unfolding call_parsed call_decided
    call_parsed-Audited sid none g = Fails-Audited g.audit _ g (λ id p h. ground (arith, h))
    call_parsed-Audited sid (some call) g =
        let d = (srv.policy.evaluate g.policy client clk.decided call).0 in
        if-elim (Audited g.audit) (call.name == "")
          (λ _. Fails-Audited g.audit _ _ (λ id p h. ground (arith, h)))
          λ _.
            if-elim (Audited g.audit) (d.action == "deny") (λ _. call_denied-Audited sid call d _)
              λ _. call_answered-Audited sid call d _ _

    session_noted-Audited :
        (requested : String) (r : Result SessionError String) (g : Gateway P U A)
        → Audited g.audit (session_noted srv clk req client requested r g)
    unfolding session_noted log_session_reject logged
    session_noted-Audited requested (err e) g = record {
      results = λ id p h. absurd (ground (arith, h));
    }
    session_noted-Audited requested (ok sid) g = record {
      results = λ id p h. absurd (ground (arith, h));
    }

    serve_notification-Audited :
        (requested : String) (g : Gateway P U A)
        → Audited g.audit (serve_notification srv clk req client requested g)
    unfolding serve_notification
    serve_notification-Audited requested g =
        if-elim (Audited g.audit)
          (req.method == "notifications/initialized" && not (requested == ""))
          (λ _. session_noted-Audited requested _ _)
          (λ _. Fails-Audited g.audit _ _ (λ id p h. ground (arith, h)))

  -- in a session the answer has its header besides
  session-Audited :
      (before : A) (sid : String) (r : Response × Gateway P U A)
      → Audited before r
      → Audited before (with_session sid r.0, r.1)
  session-Audited before sid r a = record { results = a.results }

  module _ (codec : Codec) (authenticate : HttpRequest → Result String String) where
    -- Whatever a request holds, a response with a result is one whose result is in an event that the
    -- audit logger took, and the audit log is then as that left it.
    pub serve_http-Audited :
        (clk : Clock) (fresh : String) (http : HttpRequest) (g : Gateway P U A) (id : Option Json)
        (p : Payload)
        → (serve_http srv codec authenticate clk fresh http g).0.body ≡ result id p
        → Stored g.audit (serve_http srv codec authenticate clk fresh http g).1.audit p
    unfolding handle_tools_list handle_tools_call
    serve_http-Audited clk fresh http g =
        let K : Response × Gateway P U A → Type 0 = Audited g.audit in
        (serve_http-elim srv codec authenticate K clk fresh http g
          (λ r f. Fails-Audited g.audit r g f)
          (λ req client a. serve_notification-Audited clk req client http.session g)
          λ req client carried a.
            dispatch-elim srv K clk fresh req client http.session g
              (λ r f. Fails-Audited g.audit r g f)
              (handle_initialize-Audited clk req client fresh g)
              (λ e.
                log_session_reject-Audited clk req client http.session e _ _ _
                  (λ id p h. ground (arith, h)) (λ id p h. ground (arith, h)))
              (λ sid s. session-Audited g.audit sid _ (tools_listed-Audited clk req client sid _ _))
              (λ sid s named.
                session-Audited g.audit sid _
                  (call_parsed-Audited clk req client sid (call_params srv req) _))).results
