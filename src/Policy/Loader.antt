-- ===== src/Policy/Loader.antt =====
-- internal/policy/loader.go: `compile` and `evaluate`. The YAML decoder,
-- `time.ParseDuration` and the regexp package are parameters.
pub mod Scans
pub mod Evaluate
pub mod Surface
pub mod Limits
use mcpshield.Prelude.{
  is_empty, ℕ, zero, suc, String, Bool, true, false, not, ◌&&◌, ◌||◌, Option, none, some, List, [],
  ◌∷◌, ◌++◌, ℤ, is_pos, pos_part, contains, set_add_all, lookup, if◌then◌else◌, ◌==◌, Result, ok,
  err, ◌>>=◌,
}
use Prim.Native.String
use mcpshield.Mcp.{Object, ToolsCallRequest}
use mcpshield.Policy.Validator.{
  Matcher, ArgValidator, CompiledArgValidator, new_compiled_arg_validator, validate,
}
pub use mcpshield.Policy.File.{
  RateLimitConfig, RuleConfig, PolicyFile, CompiledRateLimit, CompiledRule, CompiledPolicy,
  PolicyError, decode_policy, unsupported_version, name_required, bad_action, no_tools,
  duplicate_name, toolset_not_defined, bad_arg, limit_not_allow, limit_max_not_pos,
  limit_window_unparsed, limit_window_not_pos, limit_per,
}

-- The locals of `compile` that its loop changes.
pub record Progress : Type 0 where
  pub names : List String
  pub surface : List String
  pub allow_rules : List CompiledRule
  pub deny_rules : List CompiledRule

-- `toolSet` of one rule: its own tools, then those of its toolset
unfoldable pub rule_tools :
    List (String × List String) → RuleConfig → Result PolicyError (List String)
rule_tools toolsets r =
    let own = set_add_all [] r.tools in
    if r.toolset == "" then ok own else (elim (lookup r.toolset toolsets) [
      | none ↦ err (toolset_not_defined r.name r.toolset)
      | some ts ↦ ok (set_add_all own ts)
    ])

abbrev per_or_global : String → String
per_or_global per = if per == "" then "global" else per

-- the checks at the head of the loop's body; `i` is the rule's index
unfoldable pub check_rule : List String → ℕ → RuleConfig → Result PolicyError (Unit {0})
check_rule names i r =
    if r.name == ""
    then err (name_required i)
    else if not (r.action == "allow") && not (r.action == "deny")
    then err (bad_action r.name)
    else if is_empty r.tools && r.toolset == ""
    then err (no_tools r.name)
    else if contains names r.name
    then err (duplicate_name r.name)
    else ok tt

-- the `switch r.Action` at the end of the loop's body
abbrev add_rule : RuleConfig → CompiledRule → Progress → Progress
add_rule r cr p =
    if r.action == "allow"
    then record p {
      names = r.name ∷ p.names;
      surface = set_add_all p.surface cr.tools;
      allow_rules = p.allow_rules ++ cr ∷ [];
    }
    else record p { names = r.name ∷ p.names; deny_rules = p.deny_rules ++ cr ∷ [] }

abbrev no_progress : Progress
no_progress = record { names = []; surface = []; allow_rules = []; deny_rules = [] }

module _ (compile_re : String → Option Matcher) where
  -- the loop over `r.Args`
  unfoldable pub compile_args :
      String
      → List (String × ArgValidator)
      → Result PolicyError (List (String × CompiledArgValidator))
  compile_args rule [] = ok []
  compile_args rule ((arg, av) ∷ avs) = elim (new_compiled_arg_validator compile_re av) [
    | err e ↦ err (bad_arg rule arg e)
    | ok cv ↦ compile_args rule avs >>= λ rest. ok ((arg, cv) ∷ rest)
  ]

module _ (parse_duration : String → Option ℤ) where
  -- the block under `if r.RateLimit != nil`
  unfoldable pub compile_limit : RuleConfig → RateLimitConfig → Result PolicyError CompiledRateLimit
  compile_limit r rl =
      if not (r.action == "allow")
      then err (limit_not_allow r.name)
      else if not (is_pos rl.max)
      then err (limit_max_not_pos r.name)
      else (elim (parse_duration rl.window) [
        | none ↦ err (limit_window_unparsed r.name)
        | some dur ↦
            if not (is_pos dur)
            then err (limit_window_not_pos r.name)
            else if not (per_or_global rl.per == "global") && not (per_or_global rl.per == "client")
            then err (limit_per r.name)
            else ok (record {
              max = pos_part rl.max;
              window = pos_part dur;
              per = per_or_global rl.per;
            })
      ])

  unfoldable pub compile_limit? : RuleConfig → Result PolicyError (Option CompiledRateLimit)
  unfolding compile_limit
  compile_limit? r = elim r.rate_limit [
    | none ↦ ok none
    | some rl ↦ compile_limit r rl >>= λ crl. ok (some crl)
  ]

module _ (compile_re : String → Option Matcher) (parse_duration : String → Option ℤ) where
  -- the loop's body
  unfoldable pub compile_rule :
      List (String × List String) → ℕ → RuleConfig → Progress → Result PolicyError Progress
  compile_rule toolsets i r p = do
    _ ← check_rule p.names i r
    tools ← rule_tools toolsets r
    args ← compile_args compile_re r.name r.args
    limit ← compile_limit? parse_duration r
    ok (
        add_rule r
          (record {
            name = r.name;
            tools = tools;
            args = args;
            reason = r.reason;
            rate_limit = limit;
          })
          p)

  unfoldable pub compile_rules :
      List (String × List String) → ℕ → List RuleConfig → Progress → Result PolicyError Progress
  compile_rules toolsets i [] p = ok p
  compile_rules toolsets i (r ∷ rs) p =
      compile_rule toolsets i r p >>= λ p'. compile_rules toolsets (suc i) rs p'

  unfoldable pub compile : PolicyFile → Result PolicyError CompiledPolicy
  compile pf = if not (pf.version == "1") then err (unsupported_version pf.version) else do
    p ← compile_rules pf.toolsets zero pf.rules no_progress
    ok (record {
      allowed_surface = p.surface;
      allow_rules = p.allow_rules;
      deny_rules = p.deny_rules;
    })

  -- `LoadFromBytes`, over a decoder with strict field checking
  unfoldable pub load_from_bytes :
      (String → Option PolicyFile) → String → Result PolicyError CompiledPolicy
  unfolding compile
  load_from_bytes decode text = elim (decode text) [
    | none ↦ err decode_policy
    | some pf ↦ compile pf
  ]

-- engine.go: `Decision`
pub record Decision : Type 0 where
  pub action : String
  pub rule : String
  pub reason : String
  pub rate_limited : Bool
  pub retry_after_ms : ℕ

abbrev pub deny_decision : String → String → Decision
deny_decision rule reason = record {
  action = "deny";
  rule = rule;
  reason = reason;
  rate_limited = false;
  retry_after_ms = 0;
}

abbrev pub allow_decision : Decision
allow_decision = record {
  action = "allow";
  rule = "";
  reason = "";
  rate_limited = false;
  retry_after_ms = 0;
}

unfoldable pub any_arg_fails : List (String × CompiledArgValidator) → Object → Bool
any_arg_fails [] args = false
any_arg_fails ((name, v) ∷ vs) args = elim (lookup name args) [
  | none ↦ true
  | some val ↦ if not (validate v val) then true else any_arg_fails vs args
]

-- the reason of a deny rule, or the default one
abbrev deny_reason : CompiledRule → String
deny_reason r = if r.reason == "" then String.◌++◌ "denied by rule " r.name else r.reason

-- the loop over the deny rules: the decision of the first that applies
unfoldable pub deny_scan : List CompiledRule → ToolsCallRequest → Option Decision
deny_scan [] call = none
deny_scan (r ∷ rs) call =
    let rest = deny_scan rs call in
    if not (contains r.tools call.name)
    then rest
    else if is_empty r.args || any_arg_fails r.args call.arguments
    then some (deny_decision r.name (deny_reason r))
    else rest

-- the loop over the allow rules
unfoldable pub allow_scan : List CompiledRule → ToolsCallRequest → Option Decision
allow_scan [] call = none
allow_scan (r ∷ rs) call =
    let rest = allow_scan rs call in
    if not (contains r.tools call.name)
    then rest
    else if is_empty r.args
    then rest
    else if any_arg_fails r.args call.arguments
    then some (deny_decision r.name "arg validation failed")
    else rest

unfoldable pub evaluate : CompiledPolicy → ToolsCallRequest → Decision
evaluate p call =
    if not (contains p.allowed_surface call.name)
    then deny_decision "" "tool not in allowed surface"
    else (elim (deny_scan p.deny_rules call) [
      | some d ↦ d
      | none ↦ elim (allow_scan p.allow_rules call) [ some d ↦ d | none ↦ allow_decision ]
    ])
