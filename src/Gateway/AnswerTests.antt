-- ===== src/Gateway/AnswerTests.antt =====
-- A call of a tool that the concrete gateway answers.
use mcpshield.Prelude.{some, [], ◌≡◌, refl, ok}
use mcpshield.Mcp.{num, end}
use mcpshield.Gateway.{called, write_result, with_session}
use mcpshield.Gateway.Sessions.{resolve_session}
use mcpshield.Gateway.Handlers.{call_params}
use mcpshield.Gateway.Serve.{serve_http}
use mcpshield.Gateway.Serve.Cases.{Carries}
use mcpshield.Gateway.Serve.Answers.{serve_http-succeeds}
use mcpshield.Gateway.Tests.{
  read_call, counting, one_session, running, clock, call_of, codec, bearer, post,
}

abbrev post_carries : Carries codec post (call_of (num "0"))
post_carries = record {
  text = "{}";
  given = refl;
  fields = end;
  decoded = refl;
  unmarshalled = refl;
}

post_resolved : (resolve_session "s1" "ann" 10 one_session).0 ≡ ok "s1"
unfolding resolve_session
post_resolved = refl

read_parsed : call_params counting (call_of (num "0")) ≡ some read_call
unfolding call_params
read_parsed = refl

serve_http-succeeds_example :
    (serve_http counting codec bearer clock "s2" post running).0
    ≡ with_session "s1" (write_result (some (num "1")) (called (record { content = [] })))
serve_http-succeeds_example =
    serve_http-succeeds counting clock codec bearer "s2" "s1" "ann" post (call_of (num "0"))
      (num "1") read_call (record { content = [] }) running post_carries refl refl refl refl refl
      refl refl refl post_resolved read_parsed
      (record {
        server = "files";
        named = refl;
        passed = refl;
        answered = refl;
        stored = λ e. refl;
      })
