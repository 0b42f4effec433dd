-- ===== src/Gateway/Serve/Called.antt =====
-- Which requests to `ServeHTTP` of internal/gateway/gateway.go make a call of a tool at an upstream.
use mcpshield.Prelude.{
  ℕ, String, some, List, inl, inr, ◌⊎◌, ◌≡◌, ◌≢◌, refl, ap, ◌∙◌, Option-cases, Bool-cases, ◌==◌,
  eq_iff, arith, Result, ok, err,
}
use mcpshield.Mcp.{Request, Tool, ToolsCallRequest}
use mcpshield.Upstream.{ManagerError}
use mcpshield.Gateway.Sessions.{resolve_session}
use mcpshield.Gateway.Sessions.Ownership.{Owns, resolve_session-Owns_iff}
use mcpshield.Gateway.{Response, Gateway}
use mcpshield.Gateway.Events.{Clock}
use mcpshield.Gateway.Handlers.{
  Services, logged, tools_listed, handle_tools_list, call_params, call_parsed, handle_tools_call,
}
use mcpshield.Gateway.Handlers.Calls.{handle_tools_call-denied}
use mcpshield.Gateway.Serve.{HttpRequest, Codec, serve_http}
use mcpshield.Gateway.Serve.Cases.{Carries, serve_http-elim, dispatch-elim}
use mcpshield.Gateway.Serve.Access.{
  serve_notification-Silent, handle_initialize-upstream, log_session_reject-upstream,
}

module _ {P U A : Type 0} (srv : Services P U A) where
  -- The request calls a tool, and the policy does not deny it to the client.
  pub record CallsTool (clk : Clock) (client : String) (req : Request) (g : Gateway P U A)
      : Type 0 where
    pub call : ToolsCallRequest
    pub parsed : call_params srv req ≡ some call
    pub passed : (srv.policy.evaluate g.policy client clk.decided call).0.action ≢ "deny"

  handle_tools_call-CallsTool :
      (clk : Clock) (req : Request) (client sid : String) (g : Gateway P U A)
      → ((handle_tools_call srv clk req client sid g).1.upstream ≡ g.upstream)
        ⊎ CallsTool clk client req g
  unfolding handle_tools_call call_parsed
  handle_tools_call-CallsTool clk req client sid g = elim (Option-cases (call_params srv req)) [
    | inl unread ↦ inl (ground (arith, unread))
    | inr (call, parsed) ↦
        let d = (srv.policy.evaluate g.policy client clk.decided call).0 in
        elim (Bool-cases (d.action == "deny")) [
          | inl denied ↦ inl (
              handle_tools_call-denied srv clk req client sid call g parsed
                ((eq_iff d.action "deny").0 denied))
          | inr other ↦ inr (record {
            call = call;
            parsed = parsed;
            passed = λ h. ground (arith, h, other, eq_iff d.action "deny");
          })
        ]
  ]

  tools_listed-upstream :
      (clk : Clock) (req : Request) (client sid : String) (r : Result ManagerError (List Tool))
      (g : Gateway P U A)
      → (tools_listed srv clk req client sid r g).1.upstream ≡ g.upstream
  unfolding tools_listed logged
  tools_listed-upstream clk req client sid (err e) g = ground arith
  tools_listed-upstream clk req client sid (ok list) g = ground arith

  module _ (codec : Codec) (authenticate : HttpRequest → Result String String) where
    -- The request is a call of a tool by a client that owns the session that its header names, and
    -- the policy does not deny it.
    pub record Calling (clk : Clock) (http : HttpRequest) (g : Gateway P U A) : Type 0 where
      pub client : String
      pub authentic : authenticate http ≡ ok client
      pub owns : Owns client http.session clk.resolved g.sessions
      pub req : Request
      pub carried : Carries codec http req
      pub named : req.method ≡ "tools/call"
      pub tool : CallsTool clk client req g

    -- If listing tools leaves a part of the upstream state alone, the network say, then so does every
    -- request that does not call a tool.
    pub serve_http-Calling :
        {V : Type 0} (view : U → V)
        (listed : (now : ℕ) (u : U) → view (srv.upstream.tools_list now u).1 ≡ view u) (clk : Clock)
        (fresh : String) (http : HttpRequest) (g : Gateway P U A)
        → (view (serve_http srv codec authenticate clk fresh http g).1.upstream ≡ view g.upstream)
          ⊎ Calling clk http g
    unfolding handle_tools_list
    serve_http-Calling view listed clk fresh http g =
        let K = λ (r : Response × Gateway P U A).
          (view r.1.upstream ≡ view g.upstream) ⊎ Calling clk http g in
        serve_http-elim srv codec authenticate K clk fresh http g (λ r f. inl refl)
          (λ req client a.
            inl
              (ap view (serve_notification-Silent srv clk req client http.session g).upstream_kept))
          λ req client carried a.
            dispatch-elim srv K clk fresh req client http.session g (λ r f. inl refl)
              (inl (ap view (handle_initialize-upstream srv clk req client fresh g)))
              (λ e. inl (
                ap view
                  (log_session_reject-upstream srv clk.stamped req client http.session e _ _ _)))
              (λ sid s. inl (
                ap view (tools_listed-upstream clk req client sid _ _)
                ∙ listed clk.started g.upstream))
              (λ sid s named.
                elim (handle_tools_call-CallsTool clk req client sid (record g {
                  sessions = (resolve_session http.session client clk.resolved g.sessions).1;
                })) [
                  | inl same ↦ inl (ap view same)
                  | inr tool ↦ inr (record {
                    client = client;
                    authentic = a;
                    owns =
                        ((resolve_session-Owns_iff http.session client clk.resolved g.sessions
                            sid).0
                          s).2;
                    req = req;
                    carried = carried;
                    named = (eq_iff req.method "tools/call").0 named;
                    tool = record { call = tool.call; parsed = tool.parsed; passed = tool.passed };
                  })
                ])
