-- ===== src/Policy/Loader/Evaluate.antt =====
-- What `evaluate` of internal/policy/loader.go allows.
use mathlib.Core.List.{Perm}
use mcpshield.Prelude.{
  String, ◌≡◌, refl, sym, ◌≢◌, ◌↔◌, ◌⊎◌, inl, inr, Bool, true, false, not, ◌&&◌, List, [], arith,
  contains, if◌then◌else◌, All, any, any-perm, Bool-cases, Option-cases, ◌∙◌, eq_iff,
}
use mcpshield.Mcp.{ToolsCallRequest}
use mcpshield.Policy.Loader.{CompiledRule, CompiledPolicy, deny_scan, allow_scan, evaluate}
use mcpshield.Policy.Loader.Scans.{
  ArgsPass, Covers, denies, refuses, deny_scan-eq-none_iff, deny_scan-deny, allow_scan-eq-none_iff,
  allow_scan-deny, not-denies, not-refuses,
}

-- The tool is in the allowed surface. Each deny rule that covers it has validators, and the
-- arguments pass them; so do they pass those of each allow rule that covers it.
pub record IsPermitted (p : CompiledPolicy) (call : ToolsCallRequest) : Type 0 where
  pub listed : contains p.allowed_surface call.name ≡ true
  pub guarded :
      All (λ r. Covers r call → (r.args ≢ []) × ArgsPass call.arguments r.args) p.deny_rules
  pub meets : All (λ r. Covers r call → ArgsPass call.arguments r.args) p.allow_rules

abbrev pub policy : List String → List CompiledRule → List CompiledRule → CompiledPolicy
policy surface allows denials = record {
  allowed_surface = surface;
  allow_rules = allows;
  deny_rules = denials;
}

-- the outcome as one test
permits : CompiledPolicy → ToolsCallRequest → Bool
permits p call =
    contains p.allowed_surface call.name
    && (not (any (denies call) p.deny_rules) && not (any (refuses call) p.allow_rules))

abbrev action_of : Bool → String
action_of b = if b then "allow" else "deny"

evaluate-action :
    (p : CompiledPolicy) (call : ToolsCallRequest)
    → (evaluate p call).action ≡ action_of (permits p call)
unfolding evaluate permits
evaluate-action p call = elim (Option-cases (deny_scan p.deny_rules call)) [
  | inr (d, e) ↦
      ground (arith, deny_scan-eq-none_iff call p.deny_rules, deny_scan-deny call p.deny_rules d e)
  | inl quiet ↦ elim (Option-cases (allow_scan p.allow_rules call)) [
    | inr (d, e) ↦ ground (
      arith,
      deny_scan-eq-none_iff call p.deny_rules,
      allow_scan-eq-none_iff call p.allow_rules,
      allow_scan-deny call p.allow_rules d e,
    )
    | inl clear ↦
        ground (
          arith,
          deny_scan-eq-none_iff call p.deny_rules,
          allow_scan-eq-none_iff call p.allow_rules,
        )
  ]
]

allow_word : (b : Bool) → (action_of b ≡ "allow") ↔ (b ≡ true)
allow_word true = (λ h. refl, λ h. refl)
allow_word false = (λ h. ground (arith, eq_iff "deny" "allow"), λ h. cc)

permits_iff :
    (p : CompiledPolicy) (call : ToolsCallRequest)
    → ((evaluate p call).action ≡ "allow") ↔ (permits p call ≡ true)
permits_iff p call = rw evaluate-action (allow_word (permits p call))

permits-IsPermitted :
    (p : CompiledPolicy) (call : ToolsCallRequest) → (permits p call ≡ true) ↔ IsPermitted p call
unfolding permits
permits-IsPermitted p call = (
  (λ h. record {
    listed = ground arith;
    guarded = (not-denies call p.deny_rules).0 (ground arith);
    meets = (not-refuses call p.allow_rules).0 (ground arith);
  }),
  (λ h. rw (
    h.listed,
    (not-denies call p.deny_rules).1 h.guarded,
    (not-refuses call p.allow_rules).1 h.meets,
  )),
)

-- A call is allowed exactly when its tool is in the allowed surface, every deny rule that covers
-- it has validators which its arguments pass, and its arguments pass the validators of every
-- allow rule that covers it.
pub evaluate-IsPermitted_iff :
    (p : CompiledPolicy) (call : ToolsCallRequest)
    → ((evaluate p call).action ≡ "allow") ↔ IsPermitted p call
evaluate-IsPermitted_iff p call =
    let (to, from) = permits_iff p call in
    let (to', from') = permits-IsPermitted p call in (λ h. to' (to h), λ h. from (from' h))

-- Every decision is "allow" or "deny".
pub evaluate_total :
    (p : CompiledPolicy) (call : ToolsCallRequest)
    → ((evaluate p call).action ≡ "allow") ⊎ ((evaluate p call).action ≡ "deny")
evaluate_total p call = elim (Bool-cases (permits p call)) [
  | inl e ↦ inl (evaluate-action p call ∙ rw e)
  | inr e ↦ inr (evaluate-action p call ∙ rw e)
]

-- Reordering the allow rules and the deny rules never changes whether a call is allowed: the
-- outcome is not that of the first rule that matches.
pub evaluate-perm :
    (surface : List String) {allows allows' denials denials' : List CompiledRule}
    (call : ToolsCallRequest)
    → Perm allows allows'
    → Perm denials denials'
    → (evaluate (policy surface allows denials) call).action
      ≡ (evaluate (policy surface allows' denials') call).action
unfolding permits
evaluate-perm surface {allows} {allows'} {denials} {denials'} call h k =
    evaluate-action (policy surface allows denials) call
    ∙ rw (any-perm (denies call) k, any-perm (refuses call) h)
        (sym (evaluate-action (policy surface allows' denials') call))

-- A deny rule that covers the call and has no validators, or one that fails, settles it.
pub evaluate_denied :
    (p : CompiledPolicy) (call : ToolsCallRequest)
    → any (denies call) p.deny_rules ≡ true
    → (evaluate p call).action ≡ "deny"
unfolding permits
evaluate_denied p call h =
    let e : permits p call ≡ false = ground arith in evaluate-action p call ∙ rw e
