-- ===== src/Audit/ReplayTests.antt =====
-- A log of one tool call, replayed against a policy that allows it.
use mcpshield.Prelude.{
  ℕ, String, true, false, some, none, [], ◌∷◌, ◌++◌, map, ◌≡◌, ◌≢◌, ◌↔◌, refl, arith, eq_iff,
}
use mcpshield.Mcp.{str, Object}
use mcpshield.Policy.Loader.{CompiledPolicy, CompiledRule}
use mcpshield.Policy.Loader
use mcpshield.Policy.RateLimit.{fixed_window}
use mcpshield.Policy.Engine.{yaml_engine}
use mcpshield.Gateway.{Event}
use mcpshield.Audit.Replay.{DiffLine, replay_policy_check, scan_session, filter}
use mcpshield.Audit.Compared.{verdict, is_call, replay_policy_check-verdict}
use mcpshield.Audit.Stored.{Marshal}
use mcpshield.Audit.Replayed.{row_of, replayed, replay_policy_check-event_to_stored}
use mcpshield.Audit.Tests.{first_row, second_row}

abbrev read_rule : CompiledRule
read_rule = record {
  name = "reads";
  tools = "read" ∷ [];
  args = [];
  reason = "";
  rate_limit = none;
}

abbrev read_policy : CompiledPolicy
read_policy = record {
  allowed_surface = "read" ∷ [];
  allow_rules = read_rule ∷ [];
  deny_rules = [];
}

abbrev path_arguments : Object
path_arguments = ("path", str "a") ∷ []

abbrev toy_unmarshal : String → Object
toy_unmarshal s = path_arguments

abbrev toy_format : ℕ → String
toy_format n = "then"

replay_policy_check-verdict_example :
    replay_policy_check
      (yaml_engine fixed_window)
      toy_unmarshal
      toy_format
      (λ n. n)
      ""
      (first_row ∷ second_row ∷ [])
      (record { policy = some read_policy; limiter = [] })
    ≡ map
        (verdict toy_unmarshal toy_format read_policy)
        (filter is_call (scan_session "" (first_row ∷ second_row ∷ [])))
replay_policy_check-verdict_example =
    replay_policy_check-verdict fixed_window toy_unmarshal toy_format read_policy [] (λ n. n) ""
      (first_row ∷ second_row ∷ []) (refl, tt)

abbrev pub toy_marshal : Marshal
toy_marshal = record {
  arguments = λ args. some "args";
  response = λ p. none;
  failure = λ f. none;
  fallback = none;
  raw = λ id. "";
}

abbrev pub read_event : Event
read_event = record {
  timestamp = 5;
  action = "tools/call";
  tool = "read";
  decision = "allow";
  reason = "";
  policy_rule = "";
  client_id = "ann";
  request_id = none;
  session_id = "";
  upstream_id = "files";
  duration = 3_000;
  arguments = path_arguments;
  response = none;
  failure = none;
}

args_given : ◌≢◌ {A = String} "args" ""
args_given h = let e : false ≡ true = (eq_iff "args" "").1 h in ground (arith, e)

-- The log has the recorded call between two others.
replay_policy_check-event_to_stored_example :
    (line : DiffLine) × (replayed fixed_window toy_unmarshal toy_format read_policy []
        (λ n. n)
        ""
        (first_row ∷ row_of toy_marshal "1" "" "h" read_event ∷ second_row ∷ [])
      ≡ replayed fixed_window toy_unmarshal toy_format read_policy [] (λ n. n) "" (first_row ∷ [])
        ++ line
          ∷ replayed fixed_window toy_unmarshal toy_format read_policy []
              (λ n. n)
              ""
              (second_row ∷ []))
    × ((line.tag ≡ "=") ↔ (
        (Loader.evaluate read_policy (record { name = "read"; arguments = path_arguments })).action
        ≡ "allow"))
replay_policy_check-event_to_stored_example =
    replay_policy_check-event_to_stored fixed_window toy_unmarshal toy_format read_policy []
      (λ n. n) toy_marshal "1" "" "h" read_event (first_row ∷ []) (second_row ∷ []) (refl, tt) refl
      (λ given. record { text = "args"; written = refl; not_empty = args_given; read = refl })
