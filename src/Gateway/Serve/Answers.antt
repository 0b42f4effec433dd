-- ===== src/Gateway/Serve/Answers.antt =====
-- internal/gateway/gateway.go: the requests to `ServeHTTP` that are answered with the result of an
-- upstream.
use Prim.Native.String
use mcpshield.Prelude.{
  String, true, false, some, ◌≡◌, refl, ap, ◌∙◌, ◌==◌, arith, Result, ok, err, ltb,
}
use mcpshield.Mcp.{Json, Request, ToolsCallRequest, ToolsCallResult}
use mcpshield.Policy.Loader.{Decision}
use mcpshield.Upstream.{Called, done, failed}
use mcpshield.Gateway.Sessions.{SessionError, resolve_session}
use mcpshield.Gateway.{called, Event, Response, Gateway, write_result, with_session}
use mcpshield.Gateway.Events.{Clock, call_event}
use mcpshield.Gateway.Handlers.{
  Services, logged, call_answered, call_decided, call_params, call_parsed, handle_tools_call,
}
use mcpshield.Gateway.Serve.{
  HttpRequest, Codec, is_valid_id, in_session, with_resolved, dispatch, serve_client, serve_request,
  serve_value, serve_decoded, serve_payload, serve_probe, serve_http,
}
use mcpshield.Gateway.Serve.Cases.{Carries}

module _ {P U A : Type 0} (srv : Services P U A) (clk : Clock) where
  -- The policy lets the call through, an upstream answers it with `result`, and the audit log takes
  -- whatever event it is given.
  pub record Succeeding (client : String) (call : ToolsCallRequest) (result : ToolsCallResult)
      (g : Gateway P U A) : Type 0 where
    pub server : String
    pub named : (call.name == "") ≡ false
    pub passed : ((srv.policy.evaluate g.policy client clk.decided call).0.action == "deny") ≡ false
    pub answered : (srv.upstream.tools_call clk.decided call g.upstream).0 ≡ done server result
    pub stored : (e : Event) → (srv.audit.log e g.audit).0 ≡ true

  module _ (client sid : String) (req : Request) (call : ToolsCallRequest)
      (result : ToolsCallResult) where
    call_answered-done :
        (d : Decision) (server : String) (r : Called) (g : Gateway P U A)
        → r ≡ done server result
        → ((e : Event) → (srv.audit.log e g.audit).0 ≡ true)
        → (call_answered srv clk req client sid call d r g).0 ≡ write_result req.id (called result)
    unfolding call_answered logged
    call_answered-done d server (failed uid e) g same stored = absurd (cc)
    call_answered-done d server (done uid r) g same stored =
        let kept = stored (record (call_event clk req client sid call d) {
          upstream_id = uid;
          response = some (called r);
        }) in
        let payload : called r ≡ called result = cc in ground (arith, kept, payload)

    -- the handler, of a request whose parameters are the call
    handle_tools_call-succeeds :
        (g : Gateway P U A)
        → call_params srv req ≡ some call
        → Succeeding client call result g
        → (handle_tools_call srv clk req client sid g).0 ≡ write_result req.id (called result)
    unfolding handle_tools_call call_parsed call_decided
    handle_tools_call-succeeds g parsed s =
        let d = (srv.policy.evaluate g.policy client clk.decided call).0 in
        let g' : Gateway P U A = record g {
          policy = (srv.policy.evaluate g.policy client clk.decided call).1;
          upstream = (srv.upstream.tools_call clk.decided call g.upstream).1;
        } in
        let e =
          call_answered-done d s.server (srv.upstream.tools_call clk.decided call g.upstream).0 g'
            s.answered s.stored in
        let named = s.named in let passed = s.passed in ground (arith, parsed, e)

    in_session-ok :
        (handle : String → Gateway P U A → Response × Gateway P U A) (requested : String)
        (r : Result SessionError String) (g : Gateway P U A)
        → r ≡ ok sid
        → (in_session srv handle clk req client requested r g).0 ≡ with_session sid (handle sid g).0
    unfolding in_session
    in_session-ok handle requested (err e) g same = absurd (cc)
    in_session-ok handle requested (ok other) g same =
        let it : other ≡ sid = cc in ap (λ x. with_session x (handle x g).0) it

    dispatch-succeeds :
        (fresh requested : String) (g : Gateway P U A)
        → req.method ≡ "tools/call"
        → (resolve_session requested client clk.resolved g.sessions).0 ≡ ok sid
        → call_params srv req ≡ some call
        → Succeeding client call result g
        → (dispatch srv clk fresh req client requested g).0
          ≡ with_session sid (write_result req.id (called result))
    unfolding dispatch with_resolved
    dispatch-succeeds fresh requested g method resolved parsed s =
        let g' : Gateway P U A = record g {
          sessions = (resolve_session requested client clk.resolved g.sessions).1;
        } in
        let h = handle_tools_call-succeeds g' parsed (record {
          server = s.server;
          named = s.named;
          passed = s.passed;
          answered = s.answered;
          stored = s.stored;
        }) in
        let a : (req.method == "initialize") ≡ false = rw method refl in
        let b : (req.method == "tools/list") ≡ false = rw method refl in
        let c : (req.method == "tools/call") ≡ true = rw method refl in
        rw (dispatch, a, b, c)
          (in_session-ok (handle_tools_call srv clk req client) requested
              (resolve_session requested client clk.resolved g.sessions).0 g' resolved
            ∙ ap (with_session sid) h)

  module _ (codec : Codec) (authenticate : HttpRequest → Result String String) where
    -- A call of a tool in a live session of an authenticated client is answered with the result of
    -- the upstream, under the id of the request, if the policy lets it through, the upstream answers
    -- and the audit log takes the event. (The request is no probe, and its body fits the limit.)
    pub serve_http-succeeds :
        (fresh sid client : String) (http : HttpRequest) (req : Request) (id : Json)
        (call : ToolsCallRequest) (result : ToolsCallResult) (g : Gateway P U A)
        (c : Carries codec http req)
        → (http.method == "GET") ≡ false
        → ltb g.max_request_bytes (String.len c.text) ≡ false
        → (codec.trim_space c.text == "") ≡ false
        → req.jsonrpc ≡ "2.0"
        → req.method ≡ "tools/call"
        → req.id ≡ some id
        → is_valid_id srv req.id ≡ true
        → authenticate http ≡ ok client
        → (resolve_session http.session client clk.resolved g.sessions).0 ≡ ok sid
        → call_params srv req ≡ some call
        → Succeeding client call result g
        → (serve_http srv codec authenticate clk fresh http g).0
          ≡ with_session sid (write_result req.id (called result))
    unfolding serve_http serve_probe serve_payload serve_decoded serve_value serve_request
        serve_client
    serve_http-succeeds fresh sid client http req id call result g c post fits full version method
          with_id valid authentic resolved parsed s =
        let d =
          dispatch-succeeds client sid req call result fresh http.session g method resolved parsed
            s in
        let v : (req.jsonrpc == "2.0") ≡ true = rw version refl in
        let m : (req.method == "") ≡ false = rw method refl in
        let given = c.given in
        let decoded = c.decoded in
        let unmarshalled = c.unmarshalled in
        ground (
          arith, post, fits, full, v, m, with_id, valid, authentic, given, decoded, unmarshalled, d,
        )
