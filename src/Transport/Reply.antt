-- ===== src/Transport/Reply.antt =====
-- Which responses the calls of internal/transport/mcp_http_client.go accept, and which they count.
use mcpshield.Prelude.{
  ℕ, ◌+◌, ◌≤◌, ◌<◌, String, true, false, Option, none, some, Result, ok, err, ◌==◌, ◌≡◌, refl, ◌↔◌,
  inl, inr, arith, Option-cases, eq_iff, ℤ,
}
use mcpshield.Mcp.{Json}
use mcpshield.Transport.{HttpClient, RpcEnvelope, RpcReply, Decoding}
use mcpshield.Transport.Calls.{
  add_id, envelope, same_id, HttpReply, reply_result, received_id, check_reply, check_decoding,
  check_decoded, handle_response, call,
}

-- A reply that is an answer to the request with the id `sent`, and holds the value `a`.
pub record IsAnswer {A : Type 0} (int64_of : Json → Option ℕ) (out : Json → Option A) (sent : ℕ)
    (reply : RpcReply) (a : A) : Type 0 where
  pub version : reply.jsonrpc ≡ "2.0"
  pub id : Json
  pub has_id : reply.id ≡ some id
  pub own_id : int64_of id ≡ some sent
  pub no_error : reply.error ≡ none
  pub result : Json
  pub has_result : reply.result ≡ some result
  pub read_out : out result ≡ some a

module _ {A : Type 0} (out : Json → Option A) where
  reply_result-ok :
      (e : Option (ℤ × String)) (r : Option Json) (c : HttpClient) (a : A)
      → (reply_result out e r c).0 ≡ ok a
      → (e ≡ none) × ((j : Json) × (r ≡ some j) × (out j ≡ some a))
  unfolding reply_result
  reply_result-ok none none c a h = absurd (ground (arith, h))
  reply_result-ok none (some j) c a h = (refl, (j, refl, ground (arith, h)))
  reply_result-ok (some (n, s)) none c a h = absurd (ground (arith, h))
  reply_result-ok (some e) (some j) c a h = absurd (ground (arith, h))

module _ {A : Type 0} (int64_of : Json → Option ℕ) (out : Json → Option A) where
  received-id :
      (o : Option Json) (sent : ℕ)
      → same_id (received_id int64_of o) sent ≡ true
      → (j : Json) × (o ≡ some j) × (int64_of j ≡ some sent)
  received-id none sent h = absurd (ground (arith, h))
  received-id (some j) sent h = (j, refl, ground (arith, h))

  check_reply-IsAnswer :
      (reply : RpcReply) (c : HttpClient) (a : A)
      → (check_reply int64_of out reply c).0 ≡ ok a
      → IsAnswer int64_of out c.next_id reply a
  unfolding check_reply
  check_reply-IsAnswer reply c a h =
      let version : (reply.jsonrpc == "2.0") ≡ true = ground (arith, h) in
      let own : same_id (received_id int64_of reply.id) c.next_id ≡ true = ground (arith, h) in
      let rest : (reply_result out reply.error reply.result c).0 ≡ ok a =
        ground (arith, h, version, own) in
      let (id, has_id, own_id) = received-id reply.id c.next_id own in
      let (no_error, (j, has_result, read_out)) =
        reply_result-ok out reply.error reply.result c a rest in
      record {
        version = (eq_iff reply.jsonrpc "2.0").0 version;
        id = id;
        has_id = has_id;
        own_id = own_id;
        no_error = no_error;
        result = j;
        has_result = has_result;
        read_out = read_out;
      }

  IsAnswer-check_reply :
      (reply : RpcReply) (c : HttpClient) (a : A)
      → IsAnswer int64_of out c.next_id reply a
      → (check_reply int64_of out reply c).0 ≡ ok a
  unfolding check_reply reply_result
  IsAnswer-check_reply reply c a h = ground (
    arith,
    eq_iff reply.jsonrpc "2.0",
    h.version,
    h.has_id,
    h.own_id,
    h.no_error,
    h.has_result,
    h.read_out,
  )

-- A response that is accepted with the value `a`: a success status, one JSON reply that the decoder
-- reads within the limit with no value after it, and the reply an answer to the request with the id
-- `sent`. Blanks behind the reply may pass the limit.
pub record IsAccepted {A : Type 0} (int64_of : Json → Option ℕ) (decode : ℕ → String → Decoding)
    (out : Json → Option A) (max sent : ℕ) (resp : Result String HttpReply) (a : A) : Type 0 where
  pub response : HttpReply
  pub got : resp ≡ ok response
  pub status_low : 200 ≤ response.status
  pub status_high : response.status < 300
  pub fits : (decode (max + 1) response.body).read ≤ max
  pub reply : RpcReply
  pub decoded : (decode (max + 1) response.body).reply ≡ some reply
  pub alone : (decode (max + 1) response.body).trailing ≡ false
  pub answer : IsAnswer int64_of out sent reply a

module _ {A : Type 0} (int64_of : Json → Option ℕ) (decode : ℕ → String → Decoding)
    (out : Json → Option A) where
  -- the last checks, on what was decoded
  record Passed (d : Decoding) (c : HttpClient) (a : A) : Type 0 where
    pub fits : d.read ≤ c.max_response_bytes
    pub reply : RpcReply
    pub decoded : d.reply ≡ some reply
    pub alone : d.trailing ≡ false
    pub answer : IsAnswer int64_of out c.next_id reply a

  check_decoding-Passed :
      (d : Decoding) (c : HttpClient) (a : A)
      → (check_decoding int64_of out d c).0 ≡ ok a
      → Passed d c a
  unfolding check_decoding check_decoded
  check_decoding-Passed d c a h = elim (Option-cases d.reply) [
    | inl nothing ↦ absurd (ground (arith, h, nothing))
    | inr (reply, decoded) ↦ record {
      fits = ground (arith, h);
      reply = reply;
      decoded = decoded;
      alone = ground (arith, h, decoded);
      answer = check_reply-IsAnswer int64_of out reply c a (ground (arith, h, decoded));
    }
  ]

  Passed-check_decoding :
      (d : Decoding) (c : HttpClient) (a : A)
      → Passed d c a
      → (check_decoding int64_of out d c).0 ≡ ok a
  unfolding check_decoding check_decoded
  Passed-check_decoding d c a h =
      let answer = IsAnswer-check_reply int64_of out h.reply c a h.answer in
      ground (arith, h.fits, h.decoded, h.alone, answer)

  handle_response-IsAccepted :
      (resp : Result String HttpReply) (c : HttpClient) (a : A)
      → (handle_response int64_of decode out resp c).0 ≡ ok a
      → IsAccepted int64_of decode out c.max_response_bytes c.next_id resp a
  unfolding handle_response
  handle_response-IsAccepted (err e) c a h = absurd (ground (arith, h))
  handle_response-IsAccepted (ok response) c a h =
      let rest : (check_decoding int64_of out (decode (c.max_response_bytes + 1) response.body) c).0
          ≡ ok a =
        ground (arith, h) in
      let p = check_decoding-Passed (decode (c.max_response_bytes + 1) response.body) c a rest in
      record {
        response = response;
        got = refl;
        status_low = ground (arith, h);
        status_high = ground (arith, h);
        fits = p.fits;
        reply = p.reply;
        decoded = p.decoded;
        alone = p.alone;
        answer = p.answer;
      }

  IsAccepted-handle_response :
      (resp : Result String HttpReply) (c : HttpClient) (a : A)
      → IsAccepted int64_of decode out c.max_response_bytes c.next_id resp a
      → (handle_response int64_of decode out resp c).0 ≡ ok a
  unfolding handle_response
  IsAccepted-handle_response resp c a h =
      let rest =
        Passed-check_decoding (decode (c.max_response_bytes + 1) h.response.body) c a (record {
          fits = h.fits;
          reply = h.reply;
          decoded = h.decoded;
          alone = h.alone;
          answer = h.answer;
        }) in
      rw h.got (ground (arith, h.status_low, h.status_high, rest))

  module _ {N : Type 0} (post : HttpClient → RpcEnvelope → N → Result String HttpReply × N) where
    -- A call returns a value just if the response to its own request is accepted with that value:
    -- a status from 200 to 299, one JSON value that the decoder reads within the configured bytes
    -- with no value after it, JSON-RPC 2.0, the id that was sent, no error, and a result that reads
    -- as the value.
    pub call-IsAccepted_iff :
        (method : String) (params : Option Json) (c : HttpClient) (net : N) (a : A)
        → ((call int64_of decode post out method params c net).0 ≡ ok a)
          ↔ IsAccepted int64_of decode out c.max_response_bytes
              (add_id c).next_id
              (post (add_id c) (envelope method params (add_id c)) net).0
              a
    unfolding call add_id
    call-IsAccepted_iff method params c net a =
        let resp = (post (add_id c) (envelope method params (add_id c)) net).0 in
        (handle_response-IsAccepted resp (add_id c) a, IsAccepted-handle_response resp (add_id c) a)
