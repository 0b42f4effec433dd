-- ===== src/Mcp.antt =====
-- internal/mcp/types.go: JSON values, the JSON-RPC and MCP messages, and the error codes.
-- `any` and the decoded `json.RawMessage` are the type `Json`; a number is kept as its text,
-- since no code looks into one.
use mcpshield.Prelude.{String, Bool, Option, List, ℤ, negsuc}

mutual
  pub data Json : Type 0 where
    null : Json
    bool : Bool → Json
    num : String → Json
    str : String → Json
    arr : Items → Json
    obj : Fields → Json

  pub data Items : Type 0 where
    nil : Items
    cons : Json → Items → Items

  pub data Fields : Type 0 where
    end : Fields
    field : String → Json → Fields → Fields

-- map[string]any
abbrev pub Object : Type 0
Object = List (String × Json)

-- JSON-RPC 2.0 error codes; `negsuc n` is -(n + 1).
abbrev pub code_parse_error : ℤ
code_parse_error = negsuc 32699

abbrev pub code_invalid_request : ℤ
code_invalid_request = negsuc 32599

abbrev pub code_method_not_found : ℤ
code_method_not_found = negsuc 32600

abbrev pub code_invalid_params : ℤ
code_invalid_params = negsuc 32601

abbrev pub code_server_error : ℤ
code_server_error = negsuc 31999

abbrev pub code_policy_denied : ℤ
code_policy_denied = negsuc 32000

abbrev pub code_unauthorized : ℤ
code_unauthorized = negsuc 32001

abbrev pub code_rate_limited : ℤ
code_rate_limited = negsuc 32002

-- A decoded request. An absent `id` is a nil `json.RawMessage`, here `none`; an absent `params`
-- is empty.
pub record Request : Type 0 where
  pub jsonrpc : String
  pub id : Option Json
  pub method : String
  pub params : Option Json

pub record ToolsCallRequest : Type 0 where
  pub name : String
  pub arguments : Object

pub record Content : Type 0 where
  pub kind : String
  pub text : String

pub record ToolsCallResult : Type 0 where
  pub content : List Content

pub record Tool : Type 0 where
  pub name : String
  pub description : String
  pub input_schema : Object
