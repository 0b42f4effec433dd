-- ===== src/Policy/Loader/Limits.antt =====
-- The rate limits and the deny rules that `compile` of internal/policy/loader.go keeps.
use mcpshield.Prelude.{
  ℕ, zero, suc, ◌<◌, String, ◌≡◌, ◌⊎◌, inl, inr, true, Option, none, some, List, [], ◌∷◌, arith,
  All, All-append, Bool-cases, Option-cases, eq_iff, ◌==◌, ok, >>=-eq-ok, ok_injective, ℤ, pos,
  negsuc, pos_part, is_pos,
}
use mcpshield.Policy.Validator.{Matcher}
use mcpshield.Policy.Loader.{
  RateLimitConfig, RuleConfig, PolicyFile, CompiledRateLimit, CompiledRule, CompiledPolicy,
  Progress, compile_limit, compile_limit?, no_progress, compile_rule, compile_rules, compile,
}
use mcpshield.Policy.Loader.Surface.{Round, compile_rule-Round, compile-compile_rules}

-- A limit that the limiter can work with.
pub record IsSound (l : CompiledRateLimit) : Type 0 where
  pub some_calls : 0 < l.max
  pub some_time : 0 < l.window
  pub scoped : (l.per ≡ "global") ⊎ (l.per ≡ "client")

abbrev pub LimitSound : Option CompiledRateLimit → Type 0
LimitSound none = Unit
LimitSound (some l) = IsSound l

is_pos→lt : (z : ℤ) → is_pos z ≡ true → 0 < pos_part z
is_pos→lt (pos ℕ.zero) h = cc
is_pos→lt (pos (suc n)) h = omega arith
is_pos→lt (negsuc n) h = cc

module _ (compile_re : String → Option Matcher) (parse_duration : String → Option ℤ) where
  compile_limit-IsSound :
      (r : RuleConfig) (rl : RateLimitConfig) (l : CompiledRateLimit)
      → compile_limit parse_duration r rl ≡ ok l
      → IsSound l × (r.action ≡ "allow")
  unfolding compile_limit
  compile_limit-IsSound r rl l h = elim (Option-cases (parse_duration rl.window)) [
    | inl bad ↦ absurd (ground arith)
    | inr (dur, parsed) ↦ (
      record {
        some_calls = ground (arith, is_pos→lt rl.max);
        some_time = ground (arith, is_pos→lt dur);
        scoped = ground (arith, eq_iff l.per "global", eq_iff l.per "client");
      },
      (eq_iff r.action "allow").0 (ground arith),
    )
  ]

  compile_limit?-LimitSound :
      (r : RuleConfig) (l : Option CompiledRateLimit)
      → compile_limit? parse_duration r ≡ ok l
      → LimitSound l
  unfolding compile_limit?
  compile_limit?-LimitSound r none h = tt
  compile_limit?-LimitSound r (some l) h = elim (Option-cases r.rate_limit) [
    | inl absent ↦ absurd (ground arith)
    | inr (rl, given) ↦ (compile_limit-IsSound r rl l (ground arith)).0
  ]

  AllSound : List CompiledRule → Type 0
  AllSound = All (λ cr. LimitSound cr.rate_limit)

  Round-AllSound :
      {toolsets : List (String × List String)} {i : ℕ} {r : RuleConfig} {p p' : Progress}
      → Round compile_re parse_duration toolsets i r p p'
      → AllSound p.allow_rules
      → AllSound p'.allow_rules
  unfolding AllSound
  Round-AllSound {r} {p} d h = rw d.next (elim (Bool-cases (r.action == "allow")) [
    | inl yes' ↦ rw yes' (
        All-append (λ cr. LimitSound cr.rate_limit) p.allow_rules _ h
          (compile_limit?-LimitSound r d.limit d.has_limit, tt))
    | inr no' ↦ rw no' h
  ])

  compile_rules-AllSound :
      (toolsets : List (String × List String)) (i : ℕ) (rs : List RuleConfig) (p p' : Progress)
      → compile_rules compile_re parse_duration toolsets i rs p ≡ ok p'
      → AllSound p.allow_rules
      → AllSound p'.allow_rules
  unfolding compile_rules
  compile_rules-AllSound toolsets i [] p p' e h = rw (← ok_injective e) h
  compile_rules-AllSound toolsets i (r ∷ rs) p p' e h =
      let (q, first, rest) =
        >>=-eq-ok (compile_rule compile_re parse_duration toolsets i r p) _ e in
      compile_rules-AllSound toolsets (suc i) rs q p' rest
        (Round-AllSound (compile_rule-Round compile_re parse_duration toolsets i r p q first) h)

  -- Every rate limit of a compiled file admits at least one call in a window of positive length,
  -- and is counted globally or for each client.
  pub compile-LimitSound :
      (pf : PolicyFile) (p : CompiledPolicy)
      → compile compile_re parse_duration pf ≡ ok p
      → All (λ cr. LimitSound cr.rate_limit) p.allow_rules
  unfolding AllSound
  compile-LimitSound pf p h =
      let (q, looped, _, same, _, _) = compile-compile_rules compile_re parse_duration pf p h in
      rw same (compile_rules-AllSound pf.toolsets zero pf.rules no_progress q looped tt)
