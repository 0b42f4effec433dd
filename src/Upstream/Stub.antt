-- ===== src/Upstream/Stub.antt =====
-- internal/upstream/manager.go: `stubManager`, the manager of the demo, as the gateway uses it.
use Prim.Native.String
use mcpshield.Prelude.{String, true, Option, none, some, List, [], ◌∷◌, ok}
use mcpshield.Mcp.{str, arr, obj, nil, cons, end, field, Object, Tool, ToolsCallRequest}
use mcpshield.Upstream.{Called, done}
use mcpshield.Gateway.{UpstreamManager}

-- an input schema with one required text
abbrev one_text : String → Object
one_text name =
    ("type", str "object")
    ∷ ("properties", obj (field name (obj (field "type" (str "string") end)) end))
    ∷ ("required", arr (cons (str name) nil))
    ∷ []

-- `ToolsList`
unfoldable pub stub_tools : List Tool
stub_tools =
    record {
      name = "filesystem.read_file";
      description = "Read a file from the filesystem";
      input_schema = one_text "path";
    }
    ∷ record {
      name = "github.search_repositories";
      description = "Search GitHub repositories";
      input_schema = one_text "query";
    }
    ∷ []

-- the arguments as JSON; a `none` is an error of `json.Marshal`
abbrev or_braces : Option String → String
or_braces none = "{}"
or_braces (some s) = s

-- `ToolsCall`
unfoldable pub stub_call : (Object → Option String) → ToolsCallRequest → Called
stub_call marshal req = done "stub" (record {
  content =
      record {
        kind = "text";
        text =
            String.◌++◌ "called "
              (String.◌++◌ req.name (String.◌++◌ " with " (or_braces (marshal req.arguments))));
      }
      ∷ [];
})

-- `Ready`, `ToolsList` and `ToolsCall`, which keep no state
unfoldable pub stub_manager : (Object → Option String) → UpstreamManager (Unit {0})
unfolding stub_tools stub_call
stub_manager marshal = record {
  ready = λ u. true;
  tools_list = λ now u. (ok stub_tools, u);
  tools_call = λ now req u. (stub_call marshal req, u);
}
