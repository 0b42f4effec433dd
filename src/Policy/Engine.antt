-- ===== src/Policy/Engine.antt =====
-- internal/policy/engine.go: the engine over a limiter. The clock and the client id that the
-- context carries are arguments of `evaluate`; the atomic pointer to the policy is a field.
pub mod Decisions
pub mod Scanned
pub mod Quota
use Prim.Native.String
use mcpshield.Prelude.{
  ℕ, ◌/◌, String, Bool, true, false, not, Option, none, some, List, [], ◌∷◌, contains,
  if◌then◌else◌, ◌==◌,
}
use mcpshield.Mcp.{ToolsCallRequest}
use mcpshield.Policy.Loader.{
  CompiledRateLimit, CompiledRule, CompiledPolicy, Decision, deny_decision,
}
use mcpshield.Policy.Loader
use mcpshield.Policy.RateLimit.{Limiter}

-- The interface that the gateway uses, over a state of its own.
pub record PolicyEngine (S : Type 0) : Type 0 where
  pub evaluate : S → String → ℕ → ToolsCallRequest → Decision × S
  pub is_tool_allowed : S → String → Bool

-- denyAllEngine
abbrev pub deny_all_engine : PolicyEngine (Unit {0})
deny_all_engine = record {
  evaluate = λ s client now call. (deny_decision "default" "deny-by-default policy", s);
  is_tool_allowed = λ s name. false;
}

pub record Engine (L : Type 0) : Type 0 where
  pub policy : Option CompiledPolicy
  pub limiter : L

-- `fmt.Sprintf("global:%s:%s", rule.name, call.Name)`
abbrev pub global_key : String → String → String
global_key rule tool = String.◌++◌ "global:" (String.◌++◌ rule (String.◌++◌ ":" tool))

-- `fmt.Sprintf("client:%s:%s:%s", clientID, rule.name, call.Name)`
abbrev pub client_key : String → String → String → String
client_key client rule tool =
    String.◌++◌ "client:"
      (String.◌++◌ client (String.◌++◌ ":" (String.◌++◌ rule (String.◌++◌ ":" tool))))

abbrev pub limit_key : String → CompiledRateLimit → String → String → String
limit_key client rl rule tool =
    if rl.per == "client" then client_key client rule tool else global_key rule tool

-- the denial of the loop; `Milliseconds` of a window in nanoseconds
abbrev pub rate_limited_decision : CompiledRule → CompiledRateLimit → Decision
rate_limited_decision rule rl = record {
  action = "deny";
  rule = rule.name;
  reason = "rate limit exceeded";
  rate_limited = true;
  retry_after_ms = rl.window / 1_000_000;
}

module _ {L : Type 0} (lim : Limiter L) where
  -- `NewYAMLPolicyEngineWithOptions`
  unfoldable pub new_engine : Option CompiledPolicy → L → Engine L
  new_engine initial limiter = record { policy = initial; limiter = limiter }

  unfoldable pub swap : Option CompiledPolicy → Engine L → Engine L
  swap none e = e
  swap (some p) e = record e { policy = some p }

  unfoldable pub is_tool_allowed : Engine L → String → Bool
  is_tool_allowed e name = elim e.policy [ none ↦ false | some p ↦ contains p.allowed_surface name ]

  -- the loop over the allow rules, with the decision `d` at its end
  unfoldable pub limit_scan :
      List CompiledRule → String → ℕ → ToolsCallRequest → Decision → L → Decision × L
  limit_scan [] client now call d s = (d, s)
  limit_scan (r ∷ rs) client now call d s =
      let skip = limit_scan rs client now call d s in
      if not (contains r.tools call.name) then skip else (elim r.rate_limit [
        | none ↦ skip
        | some rl ↦
            let (ok, s') =
              lim.allow s (limit_key client rl r.name call.name) rl.max rl.window now in
            let rest = limit_scan rs client now call d s' in
            if not ok then (rate_limited_decision r rl, s') else rest
      ])

  -- `Evaluate` from the policy that `load` returns
  unfoldable pub evaluate_loaded :
      Option CompiledPolicy → Engine L → String → ℕ → ToolsCallRequest → Decision × Engine L
  evaluate_loaded none e client now call = (deny_decision "" "no policy loaded", e)
  evaluate_loaded (some p) e client now call =
      let d = Loader.evaluate p call in
      let (d', s) = limit_scan p.allow_rules client now call d e.limiter in
      if not (d.action == "allow") then (d, e) else (d', record e { limiter = s })

  unfoldable pub evaluate : Engine L → String → ℕ → ToolsCallRequest → Decision × Engine L
  unfolding evaluate_loaded limit_scan
  evaluate e client now call = evaluate_loaded e.policy e client now call

  abbrev pub yaml_engine : PolicyEngine (Engine L)
  yaml_engine = record { evaluate = evaluate; is_tool_allowed = is_tool_allowed }
