-- ===== src/Gateway/Tests.antt =====
-- A concrete gateway over services that count what they are asked, and requests to it.
use mcpshield.Prelude.{
  ℕ, suc, ◌+◌, ◌<◌, String, true, false, Option, none, some, List, [], ◌∷◌, ◌≡◌, refl, ◌↔◌, ◌⊎◌,
  Result, ok, err, lookup, if◌then◌else◌, ◌==◌, arith,
}
use mcpshield.Mcp.{Json, null, num, obj, end, Request, Tool, ToolsCallRequest}
use mcpshield.Policy.Loader.{allow_decision, deny_decision}
use mcpshield.Policy.Engine.{PolicyEngine}
use mcpshield.Upstream.{done}
use mcpshield.Gateway.{tools, called, result, Gateway}
use mcpshield.Gateway.Sessions.{Sessions, wrong_client, evict_oldest, bind_session, resolve_session}
use mcpshield.Gateway.Sessions.Capacity.{Evicts, evict_oldest-Evicts}
use mcpshield.Gateway.Sessions.Invariant.{IsValid}
use mcpshield.Gateway.Sessions.Ownership.{Owns, resolve_session-Owns_iff}
use mcpshield.Gateway.Sessions.Lifetime.{
  Op, bind, resolve, bind-resolve_session_iff, refused_request_extends,
}
use mcpshield.Gateway.Events.{Clock}
use mcpshield.Gateway.Handlers.{Services, handle_tools_list, handle_tools_call}
use mcpshield.Gateway.Handlers.Calls.{Granted, handle_tools_call-Granted}
use mcpshield.Gateway.Handlers.Lists.{Shows, handle_tools_list-Shows}
use mcpshield.Gateway.Serve.{HttpRequest, Codec, value, serve_http, serve_request}
use mcpshield.Gateway.Serve.Access.{
  Authorized, serve_http-Authorized, Silent, serve_request-notification,
}
use mcpshield.Gateway.Serve.Audited.{Stored, serve_http-Audited}

-- only the tool "fs.read" is allowed
abbrev pub one_tool : PolicyEngine ℕ
one_tool = record {
  evaluate = λ n client now call.
      (if call.name == "fs.read" then allow_decision else deny_decision "r" "no", suc n);
  is_tool_allowed = λ n name. name == "fs.read";
}

abbrev pub read_call : ToolsCallRequest
read_call = record { name = "fs.read"; arguments = [] }

abbrev write_call : ToolsCallRequest
write_call = record { name = "fs.write"; arguments = [] }

abbrev read_tool : Tool
read_tool = record { name = "fs.read"; description = ""; input_schema = [] }

abbrev write_tool : Tool
write_tool = record { name = "fs.write"; description = ""; input_schema = [] }

abbrev pub counting : Services ℕ ℕ ℕ
counting = record {
  policy = one_tool;
  upstream = record {
    ready = λ n. true;
    tools_list = λ now n. (ok (read_tool ∷ write_tool ∷ []), suc n);
    tools_call = λ now call n. (done "files" (record { content = [] }), suc n);
  };
  audit = record { log = λ e n. (true, suc n) };
  unmarshal_call = λ j. elim j [ null ↦ some write_call | _ ↦ some read_call ];
}

abbrev pub one_session : Sessions
one_session = record {
  clients = ("s1", record { client_id = "ann"; expires_at = 100 }) ∷ [];
  ttl = 60;
  max_entries = 2;
  metrics = none;
}

abbrev pub running : Gateway ℕ ℕ ℕ
running = record {
  policy = 0;
  upstream = 0;
  audit = 0;
  request_timeout = 5;
  max_request_bytes = 9;
  sessions = one_session;
}

abbrev pub clock : Clock
clock = record {
  resolved = 10;
  started = 11;
  decided = 12;
  stamped = 13;
  ended = 14;
  evicted = 15;
  bound = 16;
}

abbrev pub request : Option Json → String → Option Json → Request
request id method params = record { jsonrpc = "2.0"; id = id; method = method; params = params }

abbrev pub call_of : Json → Request
call_of params = request (some (num "1")) "tools/call" (some params)

abbrev pub codec : Codec
codec = record {
  trim_space = λ s. s;
  decode = λ s. value (obj end);
  unmarshal_request = λ f. some (call_of (num "0"));
}

abbrev pub bearer : HttpRequest → Result String String
bearer http = if http.authorization == "Bearer k" then ok "ann" else err "missing"

abbrev pub post : HttpRequest
post = record {
  method = "POST";
  path = "/";
  session = "s1";
  authorization = "Bearer k";
  payload = some "{}";
}

serve_http-Authorized_example :
    ((serve_http counting codec bearer clock "s2" post running).1.upstream ≡ 0)
    ⊎ Authorized counting codec bearer clock post running
serve_http-Authorized_example = serve_http-Authorized counting codec bearer clock "s2" post running

post-result :
    (serve_http counting codec bearer clock "s2" post running).0.body
    ≡ result (some (num "1")) (called (record { content = [] }))
unfolding serve_http resolve_session handle_tools_call
post-result = refl

serve_http-Audited_example :
    Stored counting 0
      (serve_http counting codec bearer clock "s2" post running).1.audit
      (called (record { content = [] }))
serve_http-Audited_example =
    serve_http-Audited counting codec bearer clock "s2" post running (some (num "1"))
      (called (record { content = [] })) post-result

read-result :
    (handle_tools_call counting clock (call_of (num "0")) "ann" "s1" running).0.body
    ≡ result (some (num "1")) (called (record { content = [] }))
unfolding handle_tools_call
read-result = refl

handle_tools_call-Granted_example :
    Granted counting clock (call_of (num "0")) "ann" "s1" running (called (record { content = [] }))
handle_tools_call-Granted_example =
    handle_tools_call-Granted counting clock (call_of (num "0")) "ann" "s1" running (some (num "1"))
      (called (record { content = [] })) read-result

abbrev list_request : Request
list_request = request (some (num "2")) "tools/list" none

list-result :
    (handle_tools_list counting clock list_request "ann" "s1" running).0.body
    ≡ result (some (num "2")) (tools (read_tool ∷ []))
unfolding handle_tools_list
list-result = refl

handle_tools_list-Shows_example :
    Shows counting clock list_request "ann" "s1" running (tools (read_tool ∷ []))
handle_tools_list-Shows_example =
    handle_tools_list-Shows counting clock list_request "ann" "s1" running (some (num "2"))
      (tools (read_tool ∷ [])) list-result

serve_request-notification_example : Silent counting running (
    serve_request counting codec bearer clock "s2" post
      (request none "notifications/initialized" none)
      running)
serve_request-notification_example =
    serve_request-notification counting codec bearer clock "s2" post
      (request none "notifications/initialized" none) running refl refl refl

abbrev ann_session : Owns "ann" "s1" 10 one_session
ann_session = record {
  binding = record { client_id = "ann"; expires_at = 100 };
  bound = refl;
  same = refl;
  alive = omega arith;
}

resolve_session-Owns_iff_example :
    ((resolve_session "s1" "ann" 10 one_session).0 ≡ ok "s1")
    ↔ (◌≡◌ {A = String} "s1" "s1" × (("s1" == "") ≡ false) × Owns "ann" "s1" 10 one_session)
resolve_session-Owns_iff_example = resolve_session-Owns_iff "s1" "ann" 10 one_session "s1"

bind-resolve_session_iff_example :
    ((resolve_session "s2" "bob" 30 (bind_session "s2" "ann" 20 21 one_session)).0 ≡ ok "s2")
    ↔ (◌≡◌ {A = String} "ann" "bob" × (30 < 21 + 60))
bind-resolve_session_iff_example =
    bind-resolve_session_iff "s2" "ann" "bob" 20 21 30 one_session refl

refused_request_extends_example :
    ((resolve_session "s1" "bob" 10 one_session).0 ≡ err wrong_client)
    × (lookup "s1" (resolve_session "s1" "bob" 10 one_session).1.clients
        ≡ some (record { client_id = "ann"; expires_at = 10 + 60 }))
refused_request_extends_example =
    refused_request_extends "s1" "ann" "bob" 10 one_session refl refl ann_session

one_session-IsValid : IsValid one_session
one_session-IsValid = record {
  positive = omega arith;
  distinct = (refl, tt);
  named = refl;
  bounded = omega arith;
}

abbrev ops : List Op
ops = bind "s2" "bob" 20 21 ∷ resolve "s1" "ann" 22 ∷ bind "s3" "cy" 23 24 ∷ []

evict_oldest-Evicts_example :
    Evicts 1 one_session.clients (evict_oldest 1 "capacity" one_session).clients
evict_oldest-Evicts_example =
    evict_oldest-Evicts 1 "capacity" one_session one_session-IsValid.distinct refl
