-- ===== src/Gateway/Serve/Access.antt =====
-- Who reaches an upstream through `ServeHTTP` of internal/gateway/gateway.go.
use mcpshield.Prelude.{
  ℕ, String, true, false, none, inl, inr, ◌⊎◌, ◌≡◌, refl, sym, subst, ◌==◌, arith, Result, ok, err,
}
use mcpshield.Mcp.{Request}
use mcpshield.Gateway.Sessions.Ownership.{Owns, resolve_session-Owns_iff}
use mcpshield.Gateway.Sessions.{SessionError, resolve_session}
use mcpshield.Gateway.{no_body, Response, Gateway}
use mcpshield.Gateway.Events.{Clock}
use mcpshield.Gateway.Handlers.{Services, logged, log_session_reject, handle_initialize}
use mcpshield.Gateway.Serve.Cases.{serve_http-elim, dispatch-elim}
use mcpshield.Gateway.Serve.{
  HttpRequest, Codec, session_noted, serve_notification, serve_client, serve_request, serve_http,
}

module _ {P U A : Type 0} (srv : Services P U A) where
  -- no body, and neither the policy nor the upstreams are asked
  pub record Silent (g : Gateway P U A) (r : Response × Gateway P U A) : Type 0 where
    pub quiet : r.0.body ≡ no_body
    pub policy_kept : r.1.policy ≡ g.policy
    pub upstream_kept : r.1.upstream ≡ g.upstream

  session_noted-Silent :
      (clk : Clock) (req : Request) (client requested : String) (s : Result SessionError String)
      (g : Gateway P U A)
      → Silent g (session_noted srv clk req client requested s g)
  unfolding session_noted log_session_reject logged
  session_noted-Silent clk req client requested (err e) g = record {
    quiet = ground arith;
    policy_kept = ground arith;
    upstream_kept = ground arith;
  }
  session_noted-Silent clk req client requested (ok sid) g = record {
    quiet = ground arith;
    policy_kept = ground arith;
    upstream_kept = ground arith;
  }

  pub handle_initialize-upstream :
      (clk : Clock) (req : Request) (client fresh : String) (g : Gateway P U A)
      → (handle_initialize srv clk req client fresh g).1.upstream ≡ g.upstream
  unfolding handle_initialize logged
  handle_initialize-upstream clk req client fresh g = ground arith

  pub serve_notification-Silent :
      (clk : Clock) (req : Request) (client requested : String) (g : Gateway P U A)
      → Silent g (serve_notification srv clk req client requested g)
  unfolding serve_notification
  serve_notification-Silent clk req client requested g =
      let s =
        session_noted-Silent clk req client requested
          (resolve_session requested client clk.resolved g.sessions).0
          (record g { sessions = (resolve_session requested client clk.resolved g.sessions).1 }) in
      let q = s.quiet in
      let p = s.policy_kept in
      let u = s.upstream_kept in
      record { quiet = ground arith; policy_kept = ground arith; upstream_kept = ground arith }

  pub log_session_reject-upstream :
      (stamped : ℕ) (req : Request) (client requested : String) (e : SessionError)
      (refused answer : Response) (g : Gateway P U A)
      → (log_session_reject srv stamped req client requested e refused answer g).1.upstream
        ≡ g.upstream
  unfolding log_session_reject logged
  log_session_reject-upstream stamped req client requested e refused answer g = ground arith

  module _ (codec : Codec) (authenticate : HttpRequest → Result String String) where
    -- The request is authenticated as a client that owns the live session that its header names.
    pub record Authorized (clk : Clock) (http : HttpRequest) (g : Gateway P U A) : Type 0 where
      pub client : String
      pub authentic : authenticate http ≡ ok client
      pub owns : Owns client http.session clk.resolved g.sessions

    in_session-Authorized :
        (clk : Clock) (http : HttpRequest) (g : Gateway P U A) (client sid : String)
        → authenticate http ≡ ok client
        → (resolve_session http.session client clk.resolved g.sessions).0 ≡ ok sid
        → Authorized clk http g
    in_session-Authorized clk http g client sid a s = record {
      client = client;
      authentic = a;
      owns = ((resolve_session-Owns_iff http.session client clk.resolved g.sessions sid).0 s).2;
    }

    -- Whatever a request holds, the upstream state is as before unless the request is authenticated
    -- as a client that owns the session that its header names, with the session not expired.
    pub serve_http-Authorized :
        (clk : Clock) (fresh : String) (http : HttpRequest) (g : Gateway P U A)
        → ((serve_http srv codec authenticate clk fresh http g).1.upstream ≡ g.upstream)
          ⊎ Authorized clk http g
    serve_http-Authorized clk fresh http g =
        serve_http-elim srv codec authenticate
          (λ r. (r.1.upstream ≡ g.upstream) ⊎ Authorized clk http g) clk fresh http g
          (λ r f. inl refl)
          (λ req client a.
            inl (serve_notification-Silent clk req client http.session g).upstream_kept)
          λ req client carried a.
            dispatch-elim srv (λ r. (r.1.upstream ≡ g.upstream) ⊎ Authorized clk http g) clk fresh
              req client http.session g (λ r f. inl refl)
              (inl (handle_initialize-upstream clk req client fresh g))
              (λ e. inl (log_session_reject-upstream clk.stamped req client http.session e _ _ _))
              (λ sid s. inr (in_session-Authorized clk http g client sid a s))
              (λ sid s named. inr (in_session-Authorized clk http g client sid a s))

    serve_client-Silent :
        (clk : Clock) (fresh : String) (http : HttpRequest) (req : Request)
        (who : Result String String) (g : Gateway P U A)
        → Silent g (serve_client srv clk fresh http req none who g)
    unfolding serve_client
    serve_client-Silent clk fresh http req (err e) g = record {
      quiet = refl;
      policy_kept = refl;
      upstream_kept = refl;
    }
    serve_client-Silent clk fresh http req (ok client) g =
        serve_notification-Silent clk req client http.session g

    serve_request-absent :
        (clk : Clock) (fresh : String) (http : HttpRequest) (req : Request) (g : Gateway P U A)
        → req.id ≡ none
        → (req.jsonrpc == "2.0") ≡ true
        → (req.method == "") ≡ false
        → serve_request srv codec authenticate clk fresh http req g
          ≡ serve_client srv clk fresh http req none (authenticate http) g
    unfolding serve_request
    serve_request-absent clk fresh http req g absent version named = rw (version, named, absent)

    -- A notification, a valid request without an id, is answered without a body whether it is
    -- authenticated or not, and neither the policy nor an upstream takes part.
    pub serve_request-notification :
        (clk : Clock) (fresh : String) (http : HttpRequest) (req : Request) (g : Gateway P U A)
        → req.id ≡ none
        → (req.jsonrpc == "2.0") ≡ true
        → (req.method == "") ≡ false
        → Silent g (serve_request srv codec authenticate clk fresh http req g)
    serve_request-notification clk fresh http req g absent version named =
        subst (Silent g) (sym (serve_request-absent clk fresh http req g absent version named))
          (serve_client-Silent clk fresh http req (authenticate http) g)
