-- ===== src/Serving/Entitled.antt =====
-- cmd/mcpshield/main.go: which requests make the running server send something to an upstream.
use mcpshield.Prelude.{ℕ, String, some, inl, inr, ◌⊎◌, ◌≡◌, refl, ok}
use mcpshield.Mcp.{Request, ToolsCallRequest}
use mcpshield.Policy.Loader.{CompiledPolicy}
use mcpshield.Policy.Loader.Evaluate.{IsPermitted}
use mcpshield.Policy.RateLimit.{fixed_window}
use mcpshield.Policy.Engine.Decisions.{engine_total, evaluate-allow_sound}
use mcpshield.Auth.{Authenticator}
use mcpshield.Upstream.{Manager}
use mcpshield.Gateway.Sessions.Ownership.{Owns}
use mcpshield.Gateway.Handlers.{call_params}
use mcpshield.Gateway.Serve.{HttpRequest}
use mcpshield.Gateway.Serve.Cases.{Carries}
use mcpshield.Gateway.Serve.Called.{serve_http-Calling}
use mcpshield.Startup.{World}
use mcpshield.Serving.{
  Libraries, Moment, ServerGateway, services, authenticated, list_upstream, serve,
}

list_upstream-world : {W : Type 0} (now : ℕ) (u : Manager W × W) → (list_upstream now u).2 ≡ u.1
unfolding list_upstream
list_upstream-world now (m, w) = refl

module _ {N : Type 0} (lib : Libraries) where
  -- The request is a tools/call, authenticated as a client that owns the live session that its
  -- header names, of a call that the policy of the engine permits.
  pub record Entitled (a : Authenticator) (t : Moment) (http : HttpRequest) (g : ServerGateway N)
      : Type 0 where
    pub client : String
    pub authentic : authenticated lib a http ≡ ok client
    pub owns : Owns client http.session t.clock.resolved g.sessions
    pub req : Request
    pub carried : Carries lib.codec http req
    pub named : req.method ≡ "tools/call"
    pub call : ToolsCallRequest
    pub parsed : call_params (services {N = N} lib t.log) req ≡ some call
    pub policy : CompiledPolicy
    pub loaded : g.policy.policy ≡ some policy
    pub permitted : IsPermitted policy call

  -- A request leaves the network and the clients of the upstreams as they are, unless it is a call
  -- of a tool that the policy permits, by an authenticated client that owns its session.
  pub serve-Entitled :
      (a : Authenticator) (t : Moment) (http : HttpRequest) (g : ServerGateway N)
      → ((serve lib a t http g).1.upstream.1 ≡ g.upstream.1) ⊎ Entitled a t http g
  unfolding serve
  serve-Entitled a t http g =
      elim (serve_http-Calling (services lib t.log) lib.codec (authenticated lib a)
        (λ (u : Manager (World N) × World N). u.1) list_upstream-world t.clock t.fresh http g) [
          | inl same ↦ inl same
          | inr c ↦ elim (engine_total fixed_window g.policy c.client t.clock.decided c.tool.call) [
            | inr denied ↦ absurd (c.tool.passed denied)
            | inl allowed ↦
                let (shown, (p, loaded, permitted)) =
                  evaluate-allow_sound fixed_window g.policy c.client t.clock.decided c.tool.call
                    allowed in
                inr (record {
                  client = c.client;
                  authentic = c.authentic;
                  owns = c.owns;
                  req = c.req;
                  carried = c.carried;
                  named = c.named;
                  call = c.tool.call;
                  parsed = c.tool.parsed;
                  policy = p;
                  loaded = loaded;
                  permitted = permitted;
                })
          ]
        ]
