-- ===== src/Gateway/Serve/Cases.antt =====
-- internal/gateway/gateway.go: the ways through `ServeHTTP`, as one rule. What holds of every answer
-- without a result that leaves the gateway as it was, of the notifications and of the methods, holds
-- of `ServeHTTP`.
use Prim.Native.String
use mcpshield.Prelude.{
  String, true, Option, none, some, inl, inr, ◌≡◌, ◌≢◌, refl, arith, Option-cases, if-elim, ◌==◌,
  not, ◌||◌, ltb, Result, ok, err,
}
use mcpshield.Mcp.{Json, Request, Fields, null, bool, num, str, arr, obj}
use mcpshield.Gateway.Sessions.{SessionError, resolve_session}
use mcpshield.Gateway.{Payload, result, Response, Gateway, with_session, write_error}
use mcpshield.Gateway.Events.{Clock, audit_failed}
use mcpshield.Gateway.Handlers.{
  Services, log_session_reject, handle_initialize, handle_tools_list, handle_tools_call,
}
use mcpshield.Gateway.Serve.{
  HttpRequest, Codec, is_valid_id, Decoded, malformed, trailing, value, serve_notification,
  in_session, with_resolved, dispatch, serve_client, serve_request, serve_value, serve_decoded,
  serve_payload, serve_probe, serve_http,
}

-- The body of the request, without the space around it, decodes to the JSON-RPC request `req`.
pub record Carries (codec : Codec) (http : HttpRequest) (req : Request) : Type 0 where
  pub text : String
  pub given : http.payload ≡ some text
  pub fields : Fields
  pub decoded : codec.decode (codec.trim_space text) ≡ value (obj fields)
  pub unmarshalled : codec.unmarshal_request fields ≡ some req

-- The response has no result.
abbrev pub Fails : Response → Type 0
Fails r = (id : Option Json) (p : Payload) → r.body ≢ result id p

module _ {P U A : Type 0} (srv : Services P U A) where
  module _ (K : Response × Gateway P U A → Type 0) (clk : Clock) (req : Request)
      (client requested : String) (g : Gateway P U A) where
    -- a method in a session: the session is refused, or the handler runs in it
    in_session-elim :
        (handle : String → Gateway P U A → Response × Gateway P U A)
        (r : Result SessionError String)
        → ((e : SessionError)
            → K (
                log_session_reject srv clk.stamped req client requested e
                  (audit_failed req.id)
                  (write_error req.id e.code e.message)
                  g))
        → ((sid : String) → r ≡ ok sid → K (with_session sid (handle sid g).0, (handle sid g).1))
        → K (in_session srv handle clk req client requested r g)
    unfolding in_session
    in_session-elim handle (err e) refused run = refused e
    in_session-elim handle (ok sid) refused run = run sid refl

  module _ (K : Response × Gateway P U A → Type 0) (clk : Clock) (fresh : String) (req : Request)
      (client requested : String) (g : Gateway P U A) where
    -- the gateway once the session of the request is looked up, which may extend it
    abbrev pub resolved : Gateway P U A
    resolved = record g { sessions = (resolve_session requested client clk.resolved g.sessions).1 }

    -- What holds of the answer to a request of a method: of an unknown one, of `initialize`, of a
    -- refused session, and of the two handlers in a session that the client owns.
    pub dispatch-elim :
        ((r : Response) → Fails r → K (r, g))
        → K (handle_initialize srv clk req client fresh g)
        → ((e : SessionError)
            → K (
                log_session_reject srv clk.stamped req client requested e
                  (audit_failed req.id)
                  (write_error req.id e.code e.message)
                  resolved))
        → ((sid : String)
            → (resolve_session requested client clk.resolved g.sessions).0 ≡ ok sid
            → K (
              with_session sid (handle_tools_list srv clk req client sid resolved).0,
              (handle_tools_list srv clk req client sid resolved).1,
            ))
        → ((sid : String)
            → (resolve_session requested client clk.resolved g.sessions).0 ≡ ok sid
            → (req.method == "tools/call") ≡ true
            → K (
              with_session sid (handle_tools_call srv clk req client sid resolved).0,
              (handle_tools_call srv clk req client sid resolved).1,
            ))
        → K (dispatch srv clk fresh req client requested g)
    unfolding dispatch with_resolved
    dispatch-elim kept init refused list call =
        let r = (resolve_session requested client clk.resolved g.sessions).0 in
        if-elim K (req.method == "initialize") (λ _. init)
          λ _.
            if-elim K (req.method == "tools/list")
              (λ _.
                in_session-elim K clk req client requested resolved
                  (handle_tools_list srv clk req client) r refused list)
              λ _.
                if-elim K (req.method == "tools/call")
                  (λ named.
                    in_session-elim K clk req client requested resolved
                      (handle_tools_call srv clk req client) r refused (λ sid s. call sid s named))
                  λ _. kept _ (λ id p h. ground (arith, h))

  module _ (codec : Codec) (authenticate : HttpRequest → Result String String)
      (K : Response × Gateway P U A → Type 0) (clk : Clock) (fresh : String) (http : HttpRequest)
      (g : Gateway P U A) (kept : (r : Response) → Fails r → K (r, g))
      (noted : (req : Request) (client : String)
        → authenticate http ≡ ok client
        → K (serve_notification srv clk req client http.session g))
      (called : (req : Request) (client : String)
        → Carries codec http req
        → authenticate http ≡ ok client
        → K (dispatch srv clk fresh req client http.session g)) where
    client-elim :
        (req : Request) (id : Option Json) (who : Result String String)
        → Carries codec http req
        → authenticate http ≡ who
        → K (serve_client srv clk fresh http req id who g)
    unfolding serve_client
    client-elim req none (err e) c a = kept _ (λ id p h. ground (arith, h))
    client-elim req (some id) (err e) c a = kept _ (λ id p h. ground (arith, h))
    client-elim req none (ok client) c a = noted req client a
    client-elim req (some id) (ok client) c a = called req client c a

    request-elim :
        (req : Request)
        → Carries codec http req
        → K (serve_request srv codec authenticate clk fresh http req g)
    unfolding serve_request
    request-elim req c =
        if-elim K (not (req.jsonrpc == "2.0") || req.method == "")
          (λ _. kept _ (λ id p h. ground (arith, h)))
          λ _.
            if-elim K (not (is_valid_id srv req.id)) (λ _. kept _ (λ id p h. ground (arith, h)))
              λ _. client-elim req req.id (authenticate http) c refl

    value-elim :
        (text : String) (j : Json)
        → http.payload ≡ some text
        → codec.decode (codec.trim_space text) ≡ value j
        → K (serve_value srv codec authenticate clk fresh http j g)
    unfolding serve_value
    value-elim text (arr items) given d = kept _ (λ id p h. ground (arith, h))
    value-elim text null given d = kept _ (λ id p h. ground (arith, h))
    value-elim text (bool b) given d = kept _ (λ id p h. ground (arith, h))
    value-elim text (num n) given d = kept _ (λ id p h. ground (arith, h))
    value-elim text (str s) given d = kept _ (λ id p h. ground (arith, h))
    value-elim text (obj fields) given d = elim (Option-cases (codec.unmarshal_request fields)) [
      | inl unread ↦ rw (serve_value, unread) (kept _ (λ id p h. ground (arith, h)))
      | inr (req, found) ↦
          rw (serve_value, found)
            (request-elim req (record {
              text = text;
              given = given;
              fields = fields;
              decoded = d;
              unmarshalled = found;
            }))
    ]

    decoded-elim :
        (text : String) (d : Decoded)
        → http.payload ≡ some text
        → codec.decode (codec.trim_space text) ≡ d
        → K (serve_decoded srv codec authenticate clk fresh http d g)
    unfolding serve_decoded
    decoded-elim text malformed given e = kept _ (λ id p h. ground (arith, h))
    decoded-elim text trailing given e = kept _ (λ id p h. ground (arith, h))
    decoded-elim text (value j) given e = value-elim text j given e

    payload-elim :
        (payload : Option String)
        → http.payload ≡ payload
        → K (serve_payload srv codec authenticate clk fresh http payload g)
    unfolding serve_payload
    payload-elim none given = kept _ (λ id p h. ground (arith, h))
    payload-elim (some text) given =
        if-elim K (ltb g.max_request_bytes (String.len text))
          (λ _. kept _ (λ id p h. ground (arith, h)))
          λ _.
            if-elim K (codec.trim_space text == "") (λ _. kept _ (λ id p h. ground (arith, h)))
              λ _. decoded-elim text (codec.decode (codec.trim_space text)) given refl

    serve_probe-Fails : (r : Response) → serve_probe srv http g ≡ some r → Fails r
    unfolding serve_probe
    serve_probe-Fails r probe id p h = ground arith

    probe-elim :
        (probe : Option Response)
        → serve_probe srv http g ≡ probe
        → K (serve_http srv codec authenticate clk fresh http g)
    unfolding serve_http
    probe-elim (some r) e = rw (serve_http, e) (kept r (serve_probe-Fails r e))
    probe-elim none e = rw (serve_http, e) (payload-elim http.payload refl)

    -- What holds of each answer without a result that leaves the gateway as it was, of the
    -- notifications of an authenticated client, and of the methods that one calls, holds of
    -- `ServeHTTP`.
    pub serve_http-elim : K (serve_http srv codec authenticate clk fresh http g)
    serve_http-elim = probe-elim (serve_probe srv http g) refl
