-- ===== src/Policy/Tests.antt =====
-- Concrete policies, engines and runs of the limiter.
use mathlib.Core.List.Perm
use mcpshield.Prelude.{
  min, String, true, Option, none, some, List, [], ◌∷◌, ◌≡◌, refl, ◌↔◌, All, any, contains, ℤ, pos,
  ok, arith, eq_iff,
}
use mcpshield.Mcp.{str, ToolsCallRequest}
use mcpshield.Policy.Validator.{Matcher, CompiledArgValidator, validate}
use mcpshield.Policy.Validator.Laws.{Accepts, validate_iff}
use mcpshield.Policy.Loader.{
  PolicyFile, CompiledRateLimit, CompiledRule, CompiledPolicy, compile, compile_rules, compile_rule,
  check_rule, rule_tools, compile_args, compile_limit?, evaluate, deny_scan, allow_scan,
  any_arg_fails,
}
use mcpshield.Policy.Loader.Evaluate.{IsPermitted, evaluate-IsPermitted_iff, evaluate-perm, policy}
use mcpshield.Policy.Loader.Surface.{grants, compile-surface}
use mcpshield.Policy.Loader.Limits.{LimitSound, compile-LimitSound}
use mcpshield.Policy.RateLimit.{Buckets, fixed_window, allow, spend, rotate, load_or_new}
use mcpshield.Policy.RateLimit.Trace.{Call, admitted, asked}
use mcpshield.Policy.RateLimit.Bounds.{Within, admitted-new}
use mcpshield.Policy.Engine.{Engine}
use mcpshield.Policy.Engine as E
use mcpshield.Policy.Engine.Decisions.{evaluate-allow_sound}

abbrev short_path : CompiledArgValidator
short_path = record {
  raw = record { match = ""; not_match = ""; one_of = "/tmp" ∷ "/var" ∷ []; max_len = pos 4 };
  match_re = none;
  not_match_re = none;
}

validate_iff_example :
    (validate short_path (str "/tmp") ≡ true)
    ↔ ((s : String) × (str "/tmp" ≡ str s) × Accepts short_path s)
validate_iff_example = validate_iff short_path (str "/tmp")

abbrev pub read_limit : CompiledRateLimit
read_limit = record { max = 1; window = 1_000_000; per = "client" }

abbrev pub allow_read : CompiledRule
allow_read = record {
  name = "read";
  tools = "fs.read" ∷ [];
  args = ("path", short_path) ∷ [];
  reason = "";
  rate_limit = some read_limit;
}

abbrev deny_write : CompiledRule
deny_write = record {
  name = "no_write";
  tools = "fs.write" ∷ [];
  args = [];
  reason = "";
  rate_limit = none;
}

abbrev pub fs_policy : CompiledPolicy
fs_policy = policy ("fs.read" ∷ "fs.write" ∷ []) (allow_read ∷ []) (deny_write ∷ [])

abbrev pub read_call : ToolsCallRequest
read_call = record { name = "fs.read"; arguments = ("path", str "/tmp") ∷ [] }

abbrev write_call : ToolsCallRequest
write_call = record { name = "fs.write"; arguments = [] }

evaluate-IsPermitted_iff_example :
    ((evaluate fs_policy read_call).action ≡ "allow") ↔ IsPermitted fs_policy read_call
evaluate-IsPermitted_iff_example = evaluate-IsPermitted_iff fs_policy read_call

evaluate-perm_example :
    (evaluate
      (policy ("fs.read" ∷ []) (allow_read ∷ deny_write ∷ []) (deny_write ∷ []))
      read_call).action
    ≡ (evaluate
        (policy ("fs.read" ∷ []) (deny_write ∷ allow_read ∷ []) (deny_write ∷ []))
        read_call).action
evaluate-perm_example =
    evaluate-perm ("fs.read" ∷ []) read_call (Perm.swap deny_write allow_read [])
      (Perm.refl (deny_write ∷ []))

-- A compiler of patterns and a parser of durations.
abbrev no_patterns : String → Option Matcher
no_patterns p = none

abbrev one_second : String → Option ℤ
one_second s = some (pos 1_000_000_000)

abbrev fs_file : PolicyFile
fs_file = record {
  version = "1";
  default_action = "allow";
  toolsets = ("reading", "fs.stat" ∷ []) ∷ [];
  rules =
      record {
        name = "read";
        action = "allow";
        tools = "fs.read" ∷ [];
        toolset = "reading";
        args = [];
        reason = "";
        rate_limit = some (record { max = pos 3; window = "1s"; per = "" });
      }
      ∷ [];
}

abbrev fs_compiled : CompiledPolicy
fs_compiled = record {
  allowed_surface = "fs.read" ∷ "fs.stat" ∷ [];
  allow_rules =
      record {
        name = "read";
        tools = "fs.stat" ∷ "fs.read" ∷ [];
        args = [];
        reason = "";
        rate_limit = some (record { max = 3; window = 1_000_000_000; per = "global" });
      }
      ∷ [];
  deny_rules = [];
}

fs_file-compiled : compile no_patterns one_second fs_file ≡ ok fs_compiled
unfolding compile compile_rules compile_rule check_rule rule_tools compile_args compile_limit?
fs_file-compiled = refl

compile-surface_example :
    contains fs_compiled.allowed_surface "fs.stat"
    ≡ any (grants fs_file.toolsets "fs.stat") fs_file.rules
compile-surface_example =
    compile-surface no_patterns one_second fs_file fs_compiled "fs.stat" fs_file-compiled

fs_compiled-read : (evaluate fs_compiled read_call).action ≡ "allow"
unfolding evaluate deny_scan allow_scan
fs_compiled-read = refl

compile-LimitSound_example : All (λ cr. LimitSound cr.rate_limit) fs_compiled.allow_rules
compile-LimitSound_example =
    compile-LimitSound no_patterns one_second fs_file fs_compiled fs_file-compiled

abbrev burst : List Call
burst =
    record { key = "a"; max = 1; window = 10; now = 5 }
    ∷ record { key = "a"; max = 1; window = 10; now = 7 }
    ∷ record { key = "b"; max = 2; window = 30; now = 9 }
    ∷ []

burst-Within : All (Within "a" 1 10 5) burst
burst-Within = (
  λ e. (refl, refl, omega arith, omega arith),
  (
    λ e. (refl, refl, omega arith, omega arith),
    (λ e. absurd (ground (arith, (eq_iff "b" "a").1 e)), tt),
  ),
)

admitted-new_example : admitted "a" burst [] ≡ min (asked "a" burst) 1
admitted-new_example = admitted-new "a" 1 10 5 burst [] refl burst-Within

abbrev pub fs_engine : Engine Buckets
fs_engine = record { policy = some fs_policy; limiter = [] }

fs_policy-write : (evaluate fs_policy write_call).action ≡ "deny"
unfolding evaluate deny_scan
fs_policy-write = refl

fs_policy-read : (evaluate fs_policy read_call).action ≡ "allow"
unfolding evaluate deny_scan allow_scan any_arg_fails validate
fs_policy-read = refl

fs_engine-read : (E.evaluate fixed_window fs_engine "ann" 5 read_call).0.action ≡ "allow"
unfolding E.evaluate evaluate deny_scan allow_scan any_arg_fails validate allow spend rotate
    load_or_new
fs_engine-read = refl

evaluate-allow_sound_example :
    (E.is_tool_allowed fixed_window fs_engine "fs.read" ≡ true)
    × ((p : CompiledPolicy) × (some fs_policy ≡ some p) × IsPermitted p read_call)
evaluate-allow_sound_example =
    evaluate-allow_sound fixed_window fs_engine "ann" 5 read_call fs_engine-read
