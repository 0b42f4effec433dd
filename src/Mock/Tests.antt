-- ===== src/Mock/Tests.antt =====
-- One call of the mock upstream by a client.
use mcpshield.Prelude.{String, some, none, [], ◌∷◌, ◌≡◌, refl, ok}
use mcpshield.Mcp.{Json, null, bool, str, num, arr, obj, ToolsCallRequest, ToolsCallResult}
use mcpshield.Transport.Calls.{add_id, tools_call}
use mcpshield.Transport.Tests.{files_client}
use mcpshield.Mock.{result_resp, text_content}
use mcpshield.Mock.Echo.{Wire, reply_of, mock_post, tools_call-echo}
use mcpshield.Prelude.{arith, false}

abbrev hello : ToolsCallResult
hello = record { content = record { kind = "text"; text = "hello" } ∷ [] }

abbrev text_of : Json → String
text_of null = "<nil>"
text_of (bool b) = "true"
text_of (num n) = n
text_of (str s) = s
text_of (arr a) = "[]"
text_of (obj f) = "map[]"

abbrev one_exchange : Wire
one_exchange = record {
  digits = λ n. "1";
  int64_of = λ j. some 1;
  encode = λ r. "response";
  decode = λ max s. record {
    read = 10;
    reply = some (reply_of (result_resp (some (num "1")) (text_content "hello")));
    trailing = false;
  };
  unmarshal_params = λ p. some ("echo", ("text", str "hello") ∷ []);
  sprint = text_of;
  tools_of = λ j. none;
  result_of = λ j. some hello;
}

abbrev say_hello : ToolsCallRequest
say_hello = record { name = "echo"; arguments = ("text", str "hello") ∷ [] }

next_id : one_exchange.int64_of (num "1") ≡ some (add_id files_client).next_id
unfolding add_id
next_id = refl

tools_call-echo_example :
    tools_call one_exchange.int64_of one_exchange.decode
      (mock_post one_exchange "now")
      one_exchange.result_of
      say_hello
      files_client
      tt
    ≡ (ok hello, add_id files_client, tt)
tools_call-echo_example =
    tools_call-echo one_exchange "now" files_client next_id say_hello "hello" refl refl refl
      (record { size = 10; fits = omega arith; decoded = refl }) refl refl
