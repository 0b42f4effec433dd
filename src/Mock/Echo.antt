-- ===== src/Mock/Echo.antt =====
-- The client of internal/transport/mcp_http_client.go against examples/mock-upstream/main.go.
use mcpshield.Prelude.{
  ℕ, ◌+◌, ◌≤◌, String, true, false, Option, some, List, [], ◌∷◌, lookup, ◌==◌, ◌≡◌, refl, ap, ◌∙◌,
  arith, Result, ok,
}
use mcpshield.Mcp.{
  Json, num, str, cons, nil, arr, obj, field, end, Object, Tool, ToolsCallRequest, ToolsCallResult,
}
use mcpshield.Transport.{HttpClient, RpcEnvelope, RpcReply, Decoding, TransportError}
use mcpshield.Transport.Calls.{
  HttpReply, add_id, call, call_params, handle_response, check_decoding, check_decoded, check_reply,
  reply_result, tools_list, tools_call,
}
use mcpshield.Mock.{
  RpcResponse, Reply, plain, answered, tool_list, result_resp, text_content, echo_text, handle_call,
  mcp_handler,
}

-- How the two sides read what the other writes: the digits of an id, the text of a response and what
-- the client's decoder makes of it, the parameters of a call, `%v`, and the types of the results.
pub record Wire : Type 0 where
  pub digits : ℕ → String
  pub int64_of : Json → Option ℕ
  pub encode : RpcResponse → String
  pub decode : ℕ → String → Decoding
  pub unmarshal_params : Option Json → Option (String × Object)
  pub sprint : Json → String
  pub tools_of : Json → Option (List Tool)
  pub result_of : Json → Option ToolsCallResult

-- a response as the client's decoder sees its fields
abbrev pub reply_of : RpcResponse → RpcReply
reply_of r = record { jsonrpc = r.jsonrpc; id = r.id; result = r.result; error = r.error }

-- the JSON object {"content": [{"type": "text", "text": …}]}
abbrev pub one_text : String → Json
one_text text = obj (
    field "content" (arr (cons (obj (field "type" (str "text") (field "text" (str text) end))) nil))
      end)

module _ (w : Wire) (now : String) where
  abbrev pub http_reply : Reply → HttpReply
  http_reply (plain status body) = record { status = status; body = body }
  http_reply (answered r) = record { status = 200; body = w.encode r }

  -- an exchange of the client with the mock, which keeps no state
  unfoldable pub mock_post :
      HttpClient → RpcEnvelope → Unit {0} → Result String HttpReply × Unit {0}
  unfolding mcp_handler
  mock_post c env n = (
    ok (
        http_reply (
          mcp_handler w.unmarshal_params w.sprint now "POST" (
            some (record {
              jsonrpc = env.jsonrpc;
              id = some (num (w.digits env.id));
              method = env.method;
              params = env.params;
            })))),
    n,
  )

  -- The response is read whole, within the client's limit, as what it is.
  pub record ReadsBack (c : HttpClient) (r : RpcResponse) : Type 0 where
    pub size : ℕ
    pub fits : size ≤ c.max_response_bytes
    pub decoded :
        w.decode (c.max_response_bytes + 1) (w.encode r)
        ≡ record { read = size; reply = some (reply_of r); trailing = false }

  handle_call-echo :
      (id : Option Json) (req : ToolsCallRequest) (v : Json)
      → req.name ≡ "echo"
      → lookup "text" req.arguments ≡ some v
      → w.unmarshal_params (some (call_params req)) ≡ some (req.name, req.arguments)
      → handle_call w.unmarshal_params w.sprint now id (w.unmarshal_params (some (call_params req)))
        ≡ result_resp id (text_content (w.sprint v))
  unfolding handle_call echo_text
  handle_call-echo id req v echo given params =
      let e : (req.name == "echo") ≡ true = rw echo refl in
      ap (handle_call w.unmarshal_params w.sprint now id) params ∙ ground (arith, e, given)

  -- what `call` returns over a network without a state
  abbrev finish {ℓ} :
      {A : Type ℓ}
      → Result TransportError A × HttpClient
      → Result TransportError A × HttpClient × Unit {0}
  finish h = (h.0, h.1, tt)

  module _ (c : HttpClient)
      (id : w.int64_of (num (w.digits (add_id c).next_id)) ≡ some (add_id c).next_id) where
    -- an answer of the mock to a call passes the checks of the client
    handle_response-answered {ℓ} :
        {A : Type ℓ} (out : Json → Option A) (result : Json) (a : A)
        → ReadsBack c (result_resp (some (num (w.digits (add_id c).next_id))) result)
        → out result ≡ some a
        → handle_response w.int64_of w.decode out
            (ok (
              http_reply
                (answered (result_resp (some (num (w.digits (add_id c).next_id))) result))))
            (add_id c)
          ≡ (ok a, add_id c)
    unfolding handle_response check_decoding check_decoded check_reply reply_result add_id
    handle_response-answered out result a b read =
        let fits = b.fits in let decoded = b.decoded in ground (arith, id, fits, decoded, read)

    -- A call of `echo` with a text comes back as that text alone, whatever else the arguments hold,
    -- and is not counted as an error, if each side reads what the other wrote: `%v` of a text is the
    -- text, and an object with one text content decodes to that content.
    pub tools_call-echo :
        (req : ToolsCallRequest) (text : String)
        → req.name ≡ "echo"
        → lookup "text" req.arguments ≡ some (str text)
        → w.unmarshal_params (some (call_params req)) ≡ some (req.name, req.arguments)
        → ReadsBack c (result_resp (some (num (w.digits (add_id c).next_id))) (text_content text))
        → w.sprint (str text) ≡ text
        → w.result_of (one_text text)
          ≡ some (record { content = record { kind = "text"; text = text } ∷ [] })
        → tools_call w.int64_of w.decode mock_post w.result_of req c tt
          ≡ (ok (record { content = record { kind = "text"; text = text } ∷ [] }), add_id c, tt)
    unfolding tools_call call mock_post
    tools_call-echo req text echo given params b printed read =
        let e =
          handle_call-echo (some (num (w.digits (add_id c).next_id))) req (str text) echo given
            params
          ∙ ap (λ s. result_resp (some (num (w.digits (add_id c).next_id))) (text_content s))
              printed in
        ap
          (λ r. finish (
            handle_response w.int64_of w.decode w.result_of (ok (http_reply (answered r)))
              (add_id c)))
          e
        ∙ ap finish (handle_response-answered w.result_of (text_content text) _ b read)

    -- The tool list of the mock comes back as what it decodes to.
    pub tools_list-mock :
        (list : List Tool)
        → ReadsBack c (
            result_resp
              (some (num (w.digits (add_id c).next_id)))
              (obj (field "tools" (arr tool_list) end)))
        → w.tools_of (obj (field "tools" (arr tool_list) end)) ≡ some list
        → tools_list w.int64_of w.decode mock_post w.tools_of c tt ≡ (ok list, add_id c, tt)
    unfolding tools_list call mock_post
    tools_list-mock list b read =
        ap finish (
          handle_response-answered w.tools_of (obj (field "tools" (arr tool_list) end)) list b read)
