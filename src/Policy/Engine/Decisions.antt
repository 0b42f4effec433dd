-- ===== src/Policy/Engine/Decisions.antt =====
-- What the engine of internal/policy/engine.go decides, for every limiter.
use mcpshield.Prelude.{
  ℕ, String, ◌≡◌, refl, ◌⊎◌, inl, inr, Bool, true, false, none, some, List, [], ◌∷◌, arith,
  contains, ◌==◌, eq_iff, Any, Bool-cases, Option-cases, ap, sym, subst, ◌∙◌,
}
use mcpshield.Mcp.{ToolsCallRequest}
use mcpshield.Policy.Loader.{CompiledRateLimit, CompiledRule, CompiledPolicy, Decision}
use mcpshield.Policy.Loader
use mcpshield.Policy.Loader.Scans.{Covers}
use mcpshield.Policy.Loader.Evaluate.{IsPermitted, evaluate-IsPermitted_iff, evaluate_total}
use mcpshield.Policy.RateLimit.{Limiter}
use mcpshield.Policy.Engine.{
  Engine, rate_limited_decision, limit_key, limit_scan, evaluate_loaded, evaluate, is_tool_allowed,
}

-- The rule covers the call, and the decision is the denial of its limit.
abbrev pub LimitedBy : ToolsCallRequest → Decision → CompiledRule → Type 0
LimitedBy call d r =
    Covers r call
    × ((rl : CompiledRateLimit) × (r.rate_limit ≡ some rl) × (d ≡ rate_limited_decision r rl))

module _ {L : Type 0} (lim : Limiter L) where
  module _ (r : CompiledRule) (rs : List CompiledRule) (client : String) (now : ℕ)
      (call : ToolsCallRequest) (d : Decision) (s : L) where
    -- the token that the rule's limit asks for
    abbrev pub token : CompiledRateLimit → Bool × L
    token rl = lim.allow s (limit_key client rl r.name call.name) rl.max rl.window now

    pub limit_scan-off :
        contains r.tools call.name ≡ false
        → limit_scan lim (r ∷ rs) client now call d s ≡ limit_scan lim rs client now call d s
    unfolding limit_scan
    limit_scan-off off = rw off

    pub limit_scan-free :
        r.rate_limit ≡ none
        → limit_scan lim (r ∷ rs) client now call d s ≡ limit_scan lim rs client now call d s
    unfolding limit_scan
    limit_scan-free free = elim (Bool-cases (contains r.tools call.name)) [
      | inl on ↦ rw (on, free)
      | inr off ↦ rw off
    ]

    pub limit_scan-room :
        (rl : CompiledRateLimit)
        → Covers r call
        → r.rate_limit ≡ some rl
        → (token rl).0 ≡ true
        → limit_scan lim (r ∷ rs) client now call d s
          ≡ limit_scan lim rs client now call d (token rl).1
    unfolding limit_scan
    limit_scan-room rl on limited room = rw (on, limited, room)

    pub limit_scan-full :
        (rl : CompiledRateLimit)
        → Covers r call
        → r.rate_limit ≡ some rl
        → (token rl).0 ≡ false
        → limit_scan lim (r ∷ rs) client now call d s ≡ (rate_limited_decision r rl, (token rl).1)
    unfolding limit_scan
    limit_scan-full rl on limited full = rw (on, limited, full)

  abbrev Outcome : List CompiledRule → ToolsCallRequest → Decision → Decision → Type 0
  Outcome rs call d x = (x ≡ d) ⊎ Any (LimitedBy call x) rs

  -- a rule that is passed over
  skipped :
      (r : CompiledRule) (rs : List CompiledRule) (call : ToolsCallRequest) (d : Decision)
      {x y : Decision × L}
      → x ≡ y
      → Outcome rs call d y.0
      → Outcome (r ∷ rs) call d x.0
  skipped r rs call d e o =
      subst (λ (z : Decision × L). Outcome (r ∷ rs) call d z.0) (sym e)
        (elim o [ inl same ↦ inl same | inr later ↦ inr (inr later) ])

  limit_scan-Outcome :
      (rs : List CompiledRule) (client : String) (now : ℕ) (call : ToolsCallRequest) (d : Decision)
      (s : L)
      → Outcome rs call d (limit_scan lim rs client now call d s).0
  limit_scan-Outcome [] client now call d s = unfold limit_scan in inl refl
  limit_scan-Outcome (r ∷ rs) client now call d s = elim (Bool-cases (contains r.tools call.name)) [
    | inr off ↦
        skipped r rs call d (limit_scan-off r rs client now call d s off)
          (limit_scan-Outcome rs client now call d s)
    | inl on ↦ elim (Option-cases r.rate_limit) [
      | inl free ↦
          skipped r rs call d (limit_scan-free r rs client now call d s free)
            (limit_scan-Outcome rs client now call d s)
      | inr (rl, limited) ↦ elim (Bool-cases (token r rs client now call d s rl).0) [
        | inl room ↦
            skipped r rs call d (limit_scan-room r rs client now call d s rl on limited room)
              (limit_scan-Outcome rs client now call d (token r rs client now call d s rl).1)
        | inr full ↦ inr (
            inl (
              on,
              (
                rl,
                limited,
                ap (λ (o : Decision × L). o.0)
                    (limit_scan-full r rs client now call d s rl on limited full),
              ),
            ))
      ]
    ]
  ]

  module _ (e : Engine L) (p : CompiledPolicy) (client : String) (now : ℕ) (call : ToolsCallRequest)
      (loaded : e.policy ≡ some p) where
    -- the loop over the limits that the engine runs
    abbrev pub limited : Decision × L
    limited = limit_scan lim p.allow_rules client now call (Loader.evaluate p call) e.limiter

    evaluate_some : evaluate lim e client now call ≡ evaluate_loaded lim (some p) e client now call
    unfolding evaluate
    evaluate_some = ap (λ o. evaluate_loaded lim o e client now call) loaded

    -- A call that the policy denies is denied with the policy's decision, and leaves the engine,
    -- its rate limits included, as it was.
    pub evaluate_refused :
        (Loader.evaluate p call).action ≡ "deny"
        → evaluate lim e client now call ≡ (Loader.evaluate p call, e)
    unfolding evaluate_loaded
    evaluate_refused h =
        let t : ((Loader.evaluate p call).action == "allow") ≡ false = rw h refl in
        evaluate_some ∙ rw t

    pub evaluate_passed :
        (Loader.evaluate p call).action ≡ "allow"
        → evaluate lim e client now call ≡ (limited.0, record e { limiter = limited.1 })
    unfolding evaluate_loaded
    evaluate_passed h =
        let t : ((Loader.evaluate p call).action == "allow") ≡ true = rw h refl in
        evaluate_some ∙ rw t

    -- A call that the policy allows gets the policy's decision, or the denial of a rate limit on an
    -- allow rule that covers it.
    evaluate_limited :
        (Loader.evaluate p call).action ≡ "allow"
        → ((evaluate lim e client now call).0 ≡ Loader.evaluate p call)
          ⊎ Any (LimitedBy call (evaluate lim e client now call).0) p.allow_rules
    evaluate_limited h =
        subst (λ (x : Decision × Engine L). Outcome p.allow_rules call (Loader.evaluate p call) x.0)
          (sym (evaluate_passed h))
          (limit_scan-Outcome p.allow_rules client now call (Loader.evaluate p call) e.limiter)

  limited_denied :
      (call : ToolsCallRequest) (d : Decision) (rules : List CompiledRule)
      → Any (LimitedBy call d) rules
      → d.action ≡ "deny"
  limited_denied call d [] h = absurd h
  limited_denied call d (r ∷ rs) (inl (covers, (rl, on, same))) =
      ap (λ (x : Decision). x.action) same
  limited_denied call d (r ∷ rs) (inr later) = limited_denied call d rs later

  -- Every decision of the engine is "allow" or "deny".
  pub engine_total :
      (e : Engine L) (client : String) (now : ℕ) (call : ToolsCallRequest)
      → ((evaluate lim e client now call).0.action ≡ "allow")
        ⊎ ((evaluate lim e client now call).0.action ≡ "deny")
  engine_total e client now call = elim (Option-cases e.policy) [
    | inl missing ↦
        let t : evaluate lim e client now call ≡ evaluate_loaded lim none e client now call =
          unfold evaluate in ap (λ o. evaluate_loaded lim o e client now call) missing in
        inr (unfold evaluate_loaded in ground (arith, t))
    | inr (p, loaded) ↦ elim (evaluate_total p call) [
      | inr denied ↦ inr (ground (arith, evaluate_refused e p client now call loaded denied))
      | inl allowed ↦ elim (evaluate_limited e p client now call loaded allowed) [
        | inl same ↦ inl (ap (λ (d : Decision). d.action) same ∙ allowed)
        | inr limit ↦ inr (limited_denied call _ p.allow_rules limit)
      ]
    ]
  ]

  -- A call that the engine allows is one that its loaded policy permits, of a tool that it shows.
  pub evaluate-allow_sound :
      (e : Engine L) (client : String) (now : ℕ) (call : ToolsCallRequest)
      → (evaluate lim e client now call).0.action ≡ "allow"
      → (is_tool_allowed lim e call.name ≡ true)
        × ((p : CompiledPolicy) × (e.policy ≡ some p) × IsPermitted p call)
  unfolding is_tool_allowed
  evaluate-allow_sound e client now call h = elim (Option-cases e.policy) [
    | inl missing ↦
        let t : evaluate lim e client now call ≡ evaluate_loaded lim none e client now call =
          unfold evaluate in ap (λ o. evaluate_loaded lim o e client now call) missing in
        absurd (unfold evaluate_loaded in ground (arith, t, eq_iff "deny" "allow"))
    | inr (p, loaded) ↦ elim (evaluate_total p call) [
      | inr denied ↦ absurd (
          ground (arith, evaluate_refused e p client now call loaded denied, eq_iff "deny" "allow"))
      | inl allowed ↦
          let permitted : IsPermitted p call = (evaluate-IsPermitted_iff p call).0 allowed in
          (ground (arith, permitted.listed), (p, loaded, permitted))
    ]
  ]
