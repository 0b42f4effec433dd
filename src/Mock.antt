-- ===== src/Mock.antt =====
-- examples/mock-upstream/main.go: the demo server with the tools `echo` and `time.now`. The decoder of
-- encoding/json, `fmt.Sprintf("%v")` and the formatted time are parameters.
pub mod Echo
mod Tests
use Prim.Native.String
use mcpshield.Prelude.{
  ℕ, String, Bool, true, false, not, Option, none, some, if◌then◌else◌, ◌==◌, lookup, ℤ,
}
use mcpshield.Mcp.{
  Json, null, bool, num, str, arr, obj, Items, nil, cons, end, field, Object, code_parse_error,
  code_method_not_found, code_invalid_params,
}

-- `rpcRequest`; an `id` or `params` that is absent is none.
pub record RpcRequest : Type 0 where
  pub jsonrpc : String
  pub id : Option Json
  pub method : String
  pub params : Option Json

-- `rpcResponse` with `rpcError`
pub record RpcResponse : Type 0 where
  pub jsonrpc : String
  pub id : Option Json
  pub result : Option Json
  pub error : Option (ℤ × String)

-- What the handler writes: a status with a plain body, or a JSON response with the status 200.
pub data Reply : Type 0 where
  plain : ℕ → String → Reply
  answered : RpcResponse → Reply

-- one entry of a JSON object
abbrev single : String → Json → Json
single k v = obj (field k v end)

abbrev echo_schema : Json
echo_schema = obj (
    field "type" (str "object") (
      field "properties"
        (single "text"
          (obj (field "type" (str "string") (field "description" (str "Text to echo") end))))
        (field "required" (arr (cons (str "text") nil)) end)))

abbrev time_schema : Json
time_schema = obj (field "type" (str "object") (field "properties" (obj end) end))

abbrev described : String → String → Json → Json
described name description schema = obj (
    field "name" (str name)
      (field "description" (str description) (field "inputSchema" schema end)))

-- `toolList`
abbrev pub tool_list : Items
tool_list =
    cons (described "echo" "Echoes the input text back unchanged" echo_schema)
      (cons (described "time.now" "Returns the current UTC time in RFC3339 format" time_schema) nil)

unfoldable pub err_resp : Option Json → ℤ → String → RpcResponse
err_resp id code msg = record { jsonrpc = "2.0"; id = id; result = none; error = some (code, msg) }

abbrev pub result_resp : Option Json → Json → RpcResponse
result_resp id result = record { jsonrpc = "2.0"; id = id; result = some result; error = none }

abbrev pub initialize_answer : Json
initialize_answer = obj (
    field "protocolVersion" (str "2024-11-05") (
      field "capabilities" (single "tools" (obj end)) (
        field "serverInfo"
          (obj (field "name" (str "mock-upstream") (field "version" (str "0.1.0") end))) end)))

-- the result of a call with the text
abbrev pub text_content : String → Json
text_content text =
    single "content"
      (arr (cons (obj (field "type" (str "text") (field "text" (str text) end))) nil))

-- `len(req.ID) == 0 || string(req.ID) == "null"`
abbrev pub is_notification : Option Json → Bool
is_notification none = true
is_notification (some null) = true
is_notification (some (bool b)) = false
is_notification (some (num n)) = false
is_notification (some (str s)) = false
is_notification (some (arr a)) = false
is_notification (some (obj f)) = false

module _ (unmarshal_params : Option Json → Option (String × Object)) (sprint : Json → String) where
  unfoldable pub echo_text : Object → String
  echo_text arguments = elim (lookup "text" arguments) [
    | some v ↦ sprint v
    | none ↦ "(no text provided)"
  ]

  -- the case "tools/call", from the parameters on; `now` is the formatted time
  unfoldable pub handle_call : String → Option Json → Option (String × Object) → RpcResponse
  unfolding err_resp echo_text
  handle_call now id none = err_resp id code_invalid_params "invalid params"
  handle_call now id (some (name, arguments)) =
      if name == "echo"
      then result_resp id (text_content (echo_text arguments))
      else if name == "time.now"
      then result_resp id (text_content now)
      else err_resp id code_method_not_found (String.◌++◌ "tool not found: " name)

  -- `switch req.Method`
  unfoldable pub handle_method : String → RpcRequest → RpcResponse
  unfolding handle_call
  handle_method now req =
      if req.method == "initialize"
      then result_resp req.id initialize_answer
      else if req.method == "tools/list"
      then result_resp req.id (single "tools" (arr tool_list))
      else if req.method == "tools/call"
      then handle_call now req.id (unmarshal_params req.params)
      else err_resp req.id code_method_not_found (String.◌++◌ "method not found: " req.method)

  -- `mcpHandler`; a request that does not decode is none
  unfoldable pub mcp_handler : String → String → Option RpcRequest → Reply
  unfolding handle_method
  mcp_handler now http_method decoded =
      if not (http_method == "POST") then plain 405 "method not allowed" else (elim decoded [
        | none ↦ answered (err_resp (some null) code_parse_error "parse error")
        | some req ↦
            if is_notification req.id then plain 202 "" else answered (handle_method now req)
      ])
