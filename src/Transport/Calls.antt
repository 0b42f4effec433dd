-- ===== src/Transport/Calls.antt =====
-- internal/transport/mcp_http_client.go: `call`, `ToolsList` and `ToolsCall`. The HTTP exchange and
-- encoding/json are parameters: `post` sends a request over the network state `N`, `decode` reads
-- a body through a reader that stops after a number of bytes, `int64_of` is the bit pattern of a
-- JSON value that is an int64.
use Prim.Native.Nat.{◌%◌}
use mcpshield.Prelude.{
  ℕ, ◌+◌, ◌||◌, String, Bool, false, not, Option, none, some, List, Result, ok, err, if◌then◌else◌,
  ltb, leb, eqb, ◌==◌, ℤ, is_empty, [], ◌∷◌,
}
use mcpshield.Mcp.{
  Json, Object, Fields, end, field, obj, str, Tool, ToolsCallRequest, ToolsCallResult,
}
use mcpshield.Metrics.{update, upstream_protocol_errors, upstream_response_too_large}
use mcpshield.Transport.{
  HttpClient, RpcEnvelope, RpcReply, Decoding, TransportError, http_failed, bad_status, too_large,
  not_decoded, trailing_data, bad_version, bad_id, both_fields, neither_field, rpc_error,
  bad_result,
}

-- A refusal that is counted as a protocol error.
abbrev pub protocol_error {ℓ} :
    {A : Type ℓ} → TransportError → HttpClient → Result TransportError A × HttpClient
protocol_error e c =
    (err e, record c { metrics = update (upstream_protocol_errors c.upstream_id) c.metrics })

-- A body over the limit.
abbrev pub response_too_large {ℓ} : {A : Type ℓ} → HttpClient → Result TransportError A × HttpClient
response_too_large c = (
  err too_large,
  record c { metrics = update (upstream_response_too_large c.upstream_id) c.metrics },
)

-- `c.nextID.Add(1)`
unfoldable pub add_id : HttpClient → HttpClient
add_id c = record c { next_id = (c.next_id + 1) % 18_446_744_073_709_551_616 }

-- the request that goes out under the id that was just taken
abbrev pub envelope : String → Option Json → HttpClient → RpcEnvelope
envelope method params c = record {
  jsonrpc = "2.0";
  id = c.next_id;
  method = method;
  params = params;
}

-- `err == nil && receivedID == id`
abbrev pub same_id : Option ℕ → ℕ → Bool
same_id none id = false
same_id (some received) id = eqb received id

abbrev pub fields : Object → Fields
fields [] = end
fields ((k, v) ∷ o) = field k v (fields o)

-- `json.Marshal` of a `ToolsCallRequest`, but for the order of the arguments
unfoldable pub call_params : ToolsCallRequest → Json
call_params req = obj (
    field "name" (str req.name)
      (if is_empty req.arguments then end else field "arguments" (obj (fields req.arguments)) end))

-- A response: its status and its body.
pub record HttpReply : Type 0 where
  pub status : ℕ
  pub body : String

-- the end of `call`; `out` reads the result into the caller's variable
unfoldable pub reply_result {ℓ} :
    {A : Type ℓ}
    → (Json → Option A)
    → Option (ℤ × String)
    → Option Json
    → HttpClient
    → Result TransportError A × HttpClient
reply_result out (some e) (some r) c = protocol_error both_fields c
reply_result out none none c = protocol_error neither_field c
reply_result out (some (code, message)) none c = (err (rpc_error code message), c)
reply_result out none (some r) c = (elim (out r) [ none ↦ err bad_result | some a ↦ ok a ], c)

module _ (int64_of : Json → Option ℕ) where
  abbrev pub received_id : Option Json → Option ℕ
  received_id none = none
  received_id (some j) = int64_of j

  -- the checks on a decoded reply
  unfoldable pub check_reply {ℓ} :
      {A : Type ℓ}
      → (Json → Option A)
      → RpcReply
      → HttpClient
      → Result TransportError A × HttpClient
  unfolding reply_result
  check_reply out r c =
      if not (r.jsonrpc == "2.0")
      then protocol_error bad_version c
      else if not (same_id (received_id r.id) c.next_id)
      then protocol_error bad_id c
      else reply_result out r.error r.result c

  -- a decoded reply, if there is one; `dec.Token` is asked only then
  unfoldable pub check_decoded {ℓ} :
      {A : Type ℓ}
      → (Json → Option A)
      → Option RpcReply
      → Bool
      → HttpClient
      → Result TransportError A × HttpClient
  unfolding check_reply
  check_decoded out none trailing c = protocol_error not_decoded c
  check_decoded out (some r) trailing c =
      if trailing then protocol_error trailing_data c else check_reply out r c

  -- the checks on what was read
  unfoldable pub check_decoding {ℓ} :
      {A : Type ℓ}
      → (Json → Option A)
      → Decoding
      → HttpClient
      → Result TransportError A × HttpClient
  unfolding check_decoded
  check_decoding out d c =
      if ltb c.max_response_bytes d.read
      then response_too_large c
      else check_decoded out d.reply d.trailing c

  module _ (decode : ℕ → String → Decoding) where
    -- from the response on
    unfoldable pub handle_response {ℓ} :
        {A : Type ℓ}
        → (Json → Option A)
        → Result String HttpReply
        → HttpClient
        → Result TransportError A × HttpClient
    unfolding check_decoding
    handle_response out (err e) c = (err (http_failed e), c)
    handle_response out (ok resp) c =
        if ltb resp.status 200 || leb 300 resp.status
        then protocol_error (bad_status resp.status) c
        else check_decoding out (decode (c.max_response_bytes + 1) resp.body) c

    module _ {N : Type 0} (post : HttpClient → RpcEnvelope → N → Result String HttpReply × N) where
      -- `call`; none of the values that are sent fails to marshal
      unfoldable pub call {ℓ} :
          {A : Type ℓ}
          → (Json → Option A)
          → String
          → Option Json
          → HttpClient
          → N
          → Result TransportError A × HttpClient × N
      unfolding add_id handle_response
      call out method params c net =
          let c' = add_id c in
          let (resp, net') = post c' (envelope method params c') net in
          let (r, c'') = handle_response out resp c' in (r, c'', net')

      -- `ToolsList`
      unfoldable pub tools_list :
          (Json → Option (List Tool))
          → HttpClient
          → N
          → Result TransportError (List Tool) × HttpClient × N
      tools_list tools_of c net = call tools_of "tools/list" none c net

      -- `ToolsCall`
      unfoldable pub tools_call :
          (Json → Option ToolsCallResult)
          → ToolsCallRequest
          → HttpClient
          → N
          → Result TransportError ToolsCallResult × HttpClient × N
      tools_call result_of req c net = call result_of "tools/call" (some (call_params req)) c net
