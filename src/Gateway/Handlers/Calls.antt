-- ===== src/Gateway/Handlers/Calls.antt =====
-- What `handleToolsCall` of internal/gateway/gateway.go grants and refuses.
use mcpshield.Prelude.{
  String, true, Option, none, some, inl, inr, ◌≡◌, ◌≢◌, refl, ◌∙◌, ap, if-elim, Bool-cases, ◌==◌,
  eq_iff, arith,
}
use mcpshield.Mcp.{Json, Request, ToolsCallRequest, ToolsCallResult}
use mcpshield.Policy.Loader.{Decision}
use mcpshield.Upstream.{Called, done, failed}
use mcpshield.Gateway.{Payload, called, result, Response, Event, Gateway}
use mcpshield.Gateway.Events.{Clock, call_event}
use mcpshield.Gateway.Handlers.{
  Services, logged, call_denied, call_answered, call_decided, call_params, call_parsed,
  handle_tools_call,
}

module _ {P U A : Type 0} (srv : Services P U A) where
  -- what holds of both outcomes of logging
  pub logged-cases :
      (K : Response × Gateway P U A → Type 0) (event : Event) (refused : Response)
      (next : Gateway P U A → Response × Gateway P U A) (g : Gateway P U A)
      → ((srv.audit.log event g.audit).0 ≡ true
          → K (next (record g { audit = (srv.audit.log event g.audit).1 })))
      → K (refused, record g { audit = (srv.audit.log event g.audit).1 })
      → K (logged srv event refused next g)
  unfolding logged
  logged-cases K event refused next g stored lost =
      if-elim K (srv.audit.log event g.audit).0 stored (λ l. lost)

  module _ (clk : Clock) (req : Request) (client sid : String) where
    call_denied-upstream :
        (call : ToolsCallRequest) (d : Decision) (g : Gateway P U A)
        → (call_denied srv clk req client sid call d g).1.upstream ≡ g.upstream
    unfolding call_denied logged
    call_denied-upstream call d g = ground arith

    call_decided-denied :
        (call : ToolsCallRequest) (d : Decision) (g : Gateway P U A)
        → d.action ≡ "deny"
        → call_decided srv clk req client sid call d g ≡ call_denied srv clk req client sid call d g
    unfolding call_decided
    call_decided-denied call d g h = ground (arith, (eq_iff d.action "deny").1 h)

    -- A call that the policy denies does not reach an upstream.
    pub handle_tools_call-denied :
        (call : ToolsCallRequest) (g : Gateway P U A)
        → call_params srv req ≡ some call
        → (srv.policy.evaluate g.policy client clk.decided call).0.action ≡ "deny"
        → (handle_tools_call srv clk req client sid g).1.upstream ≡ g.upstream
    unfolding handle_tools_call call_parsed
    handle_tools_call-denied call g parsed denied =
        let d = (srv.policy.evaluate g.policy client clk.decided call).0 in
        let g' : Gateway P U A = record g {
          policy = (srv.policy.evaluate g.policy client clk.decided call).1;
        } in
        let up : (call_decided srv clk req client sid call d g').1.upstream ≡ g.upstream =
          ap (λ (r : Response × Gateway P U A). r.1.upstream) (call_decided-denied call d g' denied)
          ∙ call_denied-upstream call d g' in
        ground (arith, up)

    -- The answer is a success with the result `p`, and `Log` of the event with it returned nil.
    pub record Answered (call : ToolsCallRequest) (d : Decision) (answer : Called) (a : A)
        (p : Payload) : Type 0 where
      pub server : String
      pub outcome : ToolsCallResult
      pub forwarded : answer ≡ done server outcome
      pub payload : p ≡ called outcome
      pub logged_nil :
          (srv.audit.log
            (record (call_event clk req client sid call d) {
              upstream_id = server;
              response = some (called outcome);
            })
            a).0
          ≡ true

    -- Why a call has the result `p`: it names a tool, the policy did not deny it, and an upstream
    -- gave that answer.
    pub record Granted (g : Gateway P U A) (p : Payload) : Type 0 where
      pub call : ToolsCallRequest
      pub params : call_params srv req ≡ some call
      pub named : call.name ≢ ""
      pub passed : (srv.policy.evaluate g.policy client clk.decided call).0.action ≢ "deny"
      pub answered :
          Answered call
            (srv.policy.evaluate g.policy client clk.decided call).0
            (srv.upstream.tools_call clk.decided call g.upstream).0
            g.audit
            p

    call_denied-result :
        (call : ToolsCallRequest) (d : Decision) (g : Gateway P U A) (id : Option Json)
        (p : Payload)
        → (call_denied srv clk req client sid call d g).0.body ≢ result id p
    unfolding call_denied logged
    call_denied-result call d g id p h = ground arith

    call_answered-result :
        (call : ToolsCallRequest) (d : Decision) (answer : Called) (g : Gateway P U A)
        (id : Option Json) (p : Payload)
        → (call_answered srv clk req client sid call d answer g).0.body ≡ result id p
        → Answered call d answer g.audit p
    unfolding call_answered logged
    call_answered-result call d (failed uid e) g id p h = absurd (ground (arith, h))
    call_answered-result call d (done uid r) g id p h = record {
      server = uid;
      outcome = r;
      forwarded = refl;
      payload = ground (arith, h);
      logged_nil = ground (arith, h);
    }

    call_decided-result :
        (call : ToolsCallRequest) (d : Decision) (g : Gateway P U A) (id : Option Json)
        (p : Payload)
        → (call_decided srv clk req client sid call d g).0.body ≡ result id p
        → (d.action ≢ "deny")
          × Answered call d (srv.upstream.tools_call clk.decided call g.upstream).0 g.audit p
    unfolding call_decided
    call_decided-result call d g id p h = elim (Bool-cases (d.action == "deny")) [
      | inl denied ↦ absurd (ground (arith, call_denied-result call d g id p))
      | inr passed ↦ (
        λ e. ground (arith, (eq_iff d.action "deny").1 e),
        call_answered-result call d (srv.upstream.tools_call clk.decided call g.upstream).0
            (record g { upstream = (srv.upstream.tools_call clk.decided call g.upstream).1 }) id p
            (ground arith),
      )
    ]

    call_parsed-Granted :
        (parsed : Option ToolsCallRequest) (g : Gateway P U A) (id : Option Json) (p : Payload)
        → call_params srv req ≡ parsed
        → (call_parsed srv clk req client sid parsed g).0.body ≡ result id p
        → Granted g p
    unfolding call_parsed
    call_parsed-Granted none g id p e h = absurd (ground arith)
    call_parsed-Granted (some call) g id p e h = elim (Bool-cases (call.name == "")) [
      | inl empty ↦ absurd (ground arith)
      | inr named ↦
          let d = (srv.policy.evaluate g.policy client clk.decided call).0 in
          let g' : Gateway P U A = record g {
            policy = (srv.policy.evaluate g.policy client clk.decided call).1;
          } in
          let (passed, answered) = call_decided-result call d g' id p (ground arith) in
          record {
            call = call;
            params = e;
            named = λ n. ground (arith, (eq_iff call.name "").1 n);
            passed = passed;
            answered = answered;
          }
    ]

    -- A call has a result only if it names a tool, the policy did not deny it, an upstream answered
    -- with that result, and `Log` of the event that holds it returned nil, which in some write modes
    -- it does of an event that it drops.
    pub handle_tools_call-Granted :
        (g : Gateway P U A) (id : Option Json) (p : Payload)
        → (handle_tools_call srv clk req client sid g).0.body ≡ result id p
        → Granted g p
    unfolding handle_tools_call
    handle_tools_call-Granted g id p h = call_parsed-Granted (call_params srv req) g id p refl h
