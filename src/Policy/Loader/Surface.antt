-- ===== src/Policy/Loader/Surface.antt =====
-- What `compile` of internal/policy/loader.go makes of a policy file: the allowed surface, and the
-- files that it accepts.
use mcpshield.Prelude.{
  ℕ, zero, suc, String, ◌≡◌, refl, sym, inl, inr, ap, ◌∙◌, Bool, true, false, not, ◌&&◌, ◌||◌,
  Option, none, some, List, [], ◌∷◌, arith, contains, set_add_all, contains-set_add_all, lookup,
  any, Bool-cases, Option-cases, eq_iff, ◌==◌, ok, ◌>>=◌, >>=-eq-ok, ok_injective, ℤ,
}
use mcpshield.Mcp.{ToolsCallRequest}
use mcpshield.Policy.Validator.{Matcher, CompiledArgValidator}
use mcpshield.Policy.Loader.{
  RuleConfig, PolicyFile, CompiledRateLimit, CompiledPolicy, Progress, rule_tools, compile_args,
  compile_limit?, check_rule, add_rule, no_progress, compile_rule, compile_rules, compile, evaluate,
}
use mcpshield.Policy.Loader.Evaluate.{evaluate-IsPermitted_iff}

-- the tools of a toolset that may be missing
abbrev pub in_toolset : Option (List String) → String → Bool
in_toolset none t = false
in_toolset (some ts) t = contains ts t

-- The rule names the tool, itself or by its toolset.
abbrev pub names_tool : List (String × List String) → String → RuleConfig → Bool
names_tool toolsets t r =
    contains r.tools t || (not (r.toolset == "") && in_toolset (lookup r.toolset toolsets) t)

-- The rule is an allow rule that names the tool.
abbrev pub grants : List (String × List String) → String → RuleConfig → Bool
grants toolsets t r = r.action == "allow" && names_tool toolsets t r

pub contains-rule_tools :
    (toolsets : List (String × List String)) (r : RuleConfig) (ts : List String) (t : String)
    → rule_tools toolsets r ≡ ok ts
    → contains ts t ≡ names_tool toolsets t r
unfolding rule_tools
contains-rule_tools toolsets r ts t h = elim (Bool-cases (r.toolset == "")) [
  | inl own ↦ ground (arith, contains-set_add_all [] r.tools t)
  | inr named ↦ elim (Option-cases (lookup r.toolset toolsets)) [
    | inl missing ↦ absurd (ground arith)
    | inr (us, found) ↦ ground (
      arith,
      contains-set_add_all [] r.tools t,
      contains-set_add_all (set_add_all [] r.tools) us t,
    )
  ]
]

module _ (compile_re : String → Option Matcher) (parse_duration : String → Option ℤ) where
  -- What a round of the loop that succeeds has done.
  pub record Round (toolsets : List (String × List String)) (i : ℕ) (r : RuleConfig)
      (p p' : Progress) : Type 0 where
    pub tools : List String
    pub args : List (String × CompiledArgValidator)
    pub limit : Option CompiledRateLimit
    pub checked : check_rule p.names i r ≡ ok tt
    pub has_tools : rule_tools toolsets r ≡ ok tools
    pub has_args : compile_args compile_re r.name r.args ≡ ok args
    pub has_limit : compile_limit? parse_duration r ≡ ok limit
    pub next :
        p'
        ≡ add_rule r
            (record {
              name = r.name;
              tools = tools;
              args = args;
              reason = r.reason;
              rate_limit = limit;
            })
            p

  pub compile_rule-Round :
      (toolsets : List (String × List String)) (i : ℕ) (r : RuleConfig) (p p' : Progress)
      → compile_rule compile_re parse_duration toolsets i r p ≡ ok p'
      → Round toolsets i r p p'
  unfolding compile_rule
  compile_rule-Round toolsets i r p p' h =
      let (u, checked, h1) = >>=-eq-ok (check_rule p.names i r) _ h in
      let (tools, has_tools, h2) = >>=-eq-ok (rule_tools toolsets r) _ h1 in
      let (args, has_args, h3) = >>=-eq-ok (compile_args compile_re r.name r.args) _ h2 in
      let (limit, has_limit, h4) = >>=-eq-ok (compile_limit? parse_duration r) _ h3 in
      record {
        tools = tools;
        args = args;
        limit = limit;
        checked = checked;
        has_tools = has_tools;
        has_args = has_args;
        has_limit = has_limit;
        next = sym (ok_injective h4);
      }

  contains-surface :
      {toolsets : List (String × List String)} {i : ℕ} {r : RuleConfig} {p p' : Progress}
      (t : String)
      → Round toolsets i r p p'
      → contains p'.surface t ≡ (grants toolsets t r || contains p.surface t)
  contains-surface {toolsets} {r} {p} t d = rw d.next (
      ground (
        arith,
        contains-set_add_all p.surface d.tools t,
        contains-rule_tools toolsets r d.tools t d.has_tools,
      ))

  -- A fact that each round adds to is one about the whole loop.
  contains-surface_rules :
      (toolsets : List (String × List String)) (i : ℕ) (rs : List RuleConfig) (p p' : Progress)
      (t : String)
      → compile_rules compile_re parse_duration toolsets i rs p ≡ ok p'
      → contains p'.surface t ≡ (any (grants toolsets t) rs || contains p.surface t)
  unfolding compile_rules
  contains-surface_rules toolsets i [] p p' t h = rw (ok_injective h)
  contains-surface_rules toolsets i (r ∷ rs) p p' t h =
      let (q, first, rest) =
        >>=-eq-ok (compile_rule compile_re parse_duration toolsets i r p) _ h in
      ground (
        arith,
        contains-surface t (compile_rule-Round toolsets i r p q first),
        contains-surface_rules toolsets (suc i) rs q p' t rest,
      )

  contains-surface_none : (t : String) → contains no_progress.surface t ≡ false
  contains-surface_none t = refl

  pub compile-compile_rules :
      (pf : PolicyFile) (p : CompiledPolicy)
      → compile compile_re parse_duration pf ≡ ok p
      → (q : Progress) × (compile_rules compile_re parse_duration pf.toolsets zero pf.rules
            no_progress
          ≡ ok q)
        × (p.allowed_surface ≡ q.surface)
        × (p.allow_rules ≡ q.allow_rules)
        × (p.deny_rules ≡ q.deny_rules)
        × (pf.version ≡ "1")
  unfolding compile
  compile-compile_rules pf p h = elim (Bool-cases (pf.version == "1")) [
    | inr other ↦ absurd (ground arith)
    | inl same ↦
        let h' : (compile_rules compile_re parse_duration pf.toolsets zero pf.rules no_progress
              >>= λ q. ok (record {
                allowed_surface = q.surface;
                allow_rules = q.allow_rules;
                deny_rules = q.deny_rules;
              }))
            ≡ ok p =
          rw same at h in
        let (q, looped, rest) = >>=-eq-ok _ _ h' in
        (
          q,
          looped,
          ap (λ (c : CompiledPolicy). c.allowed_surface) (sym (ok_injective rest)),
          ap (λ (c : CompiledPolicy). c.allow_rules) (sym (ok_injective rest)),
          ap (λ (c : CompiledPolicy). c.deny_rules) (sym (ok_injective rest)),
          (eq_iff pf.version "1").0 same,
        )
  ]

  -- The allowed surface of a compiled file holds a tool exactly when some allow rule of the file
  -- names it, in its own list or through its toolset.
  pub compile-surface :
      (pf : PolicyFile) (p : CompiledPolicy) (t : String)
      → compile compile_re parse_duration pf ≡ ok p
      → contains p.allowed_surface t ≡ any (grants pf.toolsets t) pf.rules
  compile-surface pf p t h =
      let (q, looped, same, _, _, _) = compile-compile_rules pf p h in
      ground (arith, contains-surface_rules pf.toolsets zero pf.rules no_progress q t looped)

  -- Deny by default: a call is allowed by a compiled file only if an allow rule of the file names
  -- its tool, whatever the default action that the file states.
  pub compile_deny_by_default :
      (pf : PolicyFile) (p : CompiledPolicy) (call : ToolsCallRequest)
      → compile compile_re parse_duration pf ≡ ok p
      → (evaluate p call).action ≡ "allow"
      → any (grants pf.toolsets call.name) pf.rules ≡ true
  compile_deny_by_default pf p call h e =
      sym (compile-surface pf p call.name h) ∙ ((evaluate-IsPermitted_iff p call).0 e).listed
