-- ===== src/Transport/Counted.antt =====
-- What the calls of internal/transport/mcp_http_client.go count, and what they leave as it was.
use Prim.Native.Nat.{◌%◌}
use mcpshield.Prelude.{
  ℕ, ◌+◌, ◌||◌, String, Bool, true, false, not, Option, none, some, Result, ok, err, ltb, leb, ◌==◌,
  if◌then◌else◌, ◌≡◌, refl, inl, inr, Option-cases, if-elim, ℤ,
}
use mcpshield.Mcp.{Json}
use mcpshield.Metrics.{Registry, update, upstream_protocol_errors, upstream_response_too_large}
use mcpshield.Transport.{
  HttpClient, RpcEnvelope, RpcReply, Decoding, TransportError, bad_status, too_large, not_decoded,
  trailing_data, bad_version, bad_id, both_fields, neither_field,
}
use mcpshield.Transport.Calls.{
  add_id, envelope, same_id, HttpReply, reply_result, received_id, check_reply, check_decoding,
  check_decoded, handle_response, call,
}

-- An error on which the upstream broke the protocol.
abbrev pub is_protocol_error : TransportError → Bool
is_protocol_error (bad_status n) = true
is_protocol_error not_decoded = true
is_protocol_error trailing_data = true
is_protocol_error bad_version = true
is_protocol_error bad_id = true
is_protocol_error both_fields = true
is_protocol_error neither_field = true
is_protocol_error _ = false

abbrev pub is_too_large : TransportError → Bool
is_too_large too_large = true
is_too_large _ = false

-- The metrics after a call with this outcome: one update for a broken protocol, another for a body
-- over the limit, and none for a value, a failed exchange, an error of the tool's own or a result
-- that does not read.
abbrev pub counted {ℓ} :
    {A : Type ℓ} → String → Result TransportError A → Option Registry → Option Registry
counted upstream (ok a) reg = reg
counted upstream (err e) reg =
    if is_protocol_error e
    then update (upstream_protocol_errors upstream) reg
    else if is_too_large e
    then update (upstream_response_too_large upstream) reg
    else reg

-- The client after an outcome differs in the metrics alone.
abbrev IsCounted {ℓ} : {A : Type ℓ} → HttpClient → Result TransportError A × HttpClient → Type 0
IsCounted c (r, c') = c' ≡ record c { metrics = counted c.upstream_id r c.metrics }

reply_result-IsCounted :
    {A : Type 0} (out : Json → Option A) (e : Option (ℤ × String)) (r : Option Json)
    (c : HttpClient)
    → IsCounted c (reply_result out e r c)
unfolding reply_result
reply_result-IsCounted out (some e) (some r) c = refl
reply_result-IsCounted out none none c = refl
reply_result-IsCounted out (some e) none c = refl
reply_result-IsCounted out none (some r) c = elim (Option-cases (out r)) [
  | inl nothing ↦ rw nothing refl
  | inr (a, read) ↦ rw read refl
]

module _ {A : Type 0} (int64_of : Json → Option ℕ) (out : Json → Option A) where
  check_reply-IsCounted :
      (r : RpcReply) (c : HttpClient) → IsCounted c (check_reply int64_of out r c)
  unfolding check_reply
  check_reply-IsCounted r c =
      if-elim (IsCounted c) (not (r.jsonrpc == "2.0")) (λ _. refl)
        λ _.
          if-elim (IsCounted c) (not (same_id (received_id int64_of r.id) c.next_id)) (λ _. refl)
            λ _. reply_result-IsCounted out r.error r.result c

  check_decoded-IsCounted :
      (r : Option RpcReply) (trailing : Bool) (c : HttpClient)
      → IsCounted c (check_decoded int64_of out r trailing c)
  unfolding check_decoded
  check_decoded-IsCounted none trailing c = refl
  check_decoded-IsCounted (some r) trailing c =
      if-elim (IsCounted c) trailing (λ _. refl) λ _. check_reply-IsCounted r c

  handle_response-IsCounted :
      (decode : ℕ → String → Decoding) (resp : Result String HttpReply) (c : HttpClient)
      → IsCounted c (handle_response int64_of decode out resp c)
  unfolding handle_response check_decoding
  handle_response-IsCounted decode (err e) c = refl
  handle_response-IsCounted decode (ok resp) c =
      let d = decode (c.max_response_bytes + 1) resp.body in
      if-elim (IsCounted c) (ltb resp.status 200 || leb 300 resp.status) (λ _. refl)
        λ _.
          if-elim (IsCounted c) (ltb c.max_response_bytes d.read) (λ _. refl)
            λ _. check_decoded-IsCounted d.reply d.trailing c

  -- A call takes the next id and changes nothing else of the client but the metrics, where it counts
  -- one protocol error if the upstream broke the protocol, one response too large if the body was
  -- over the limit, and nothing otherwise.
  pub call-counted :
      {N : Type 0} (decode : ℕ → String → Decoding)
      (post : HttpClient → RpcEnvelope → N → Result String HttpReply × N) (method : String)
      (params : Option Json) (c : HttpClient) (net : N)
      → (call int64_of decode post out method params c net).1 ≡ record c {
        next_id = (c.next_id + 1) % 18_446_744_073_709_551_616;
        metrics =
            counted c.upstream_id (call int64_of decode post out method params c net).0 c.metrics;
      }
  unfolding call add_id
  call-counted decode post method params c net =
      handle_response-IsCounted decode (post (add_id c) (envelope method params (add_id c)) net).0
        (add_id c)
