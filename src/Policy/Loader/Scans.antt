-- ===== src/Policy/Loader/Scans.antt =====
-- The two scans of `evaluate` of internal/policy/loader.go, over the deny and the allow rules.
use mcpshield.Prelude.{
  is_empty, String, ◌≡◌, refl, ◌≢◌, ◌↔◌, inl, inr, Bool, true, false, ◌&&◌, ◌||◌, none, some, List,
  [], ◌∷◌, arith, contains, lookup, All, any, Bool-cases, Option-cases,
}
use mcpshield.Mcp.{Json, Object, ToolsCallRequest}
use mcpshield.Policy.Validator.{CompiledArgValidator, validate}
use mcpshield.Policy.Loader.{CompiledRule, Decision, any_arg_fails, deny_scan, allow_scan}

-- Every validated argument is given, and its value passes.
abbrev pub ArgsPass : Object → List (String × CompiledArgValidator) → Type 0
ArgsPass args =
    All (λ nv. (val : Json) × (lookup nv.0 args ≡ some val) × (validate nv.1 val ≡ true))

any_arg_fails-ArgsPass :
    (vs : List (String × CompiledArgValidator)) (args : Object)
    → any_arg_fails vs args ≡ false
    → ArgsPass args vs
unfolding any_arg_fails
any_arg_fails-ArgsPass [] args h = tt
any_arg_fails-ArgsPass ((name, v) ∷ vs) args h = elim (Option-cases (lookup name args)) [
  | inl missing ↦ absurd (ground arith)
  | inr (val, found) ↦ ((val, found, ground arith), any_arg_fails-ArgsPass vs args (ground arith))
]

ArgsPass-any_arg_fails :
    (vs : List (String × CompiledArgValidator)) (args : Object)
    → ArgsPass args vs
    → any_arg_fails vs args ≡ false
unfolding any_arg_fails
ArgsPass-any_arg_fails [] args h = refl
ArgsPass-any_arg_fails ((name, v) ∷ vs) args ((val, found, passes), h) =
    rw (found, any_arg_fails, passes) (ArgsPass-any_arg_fails vs args h)

-- The rule names the called tool.
abbrev pub Covers : CompiledRule → ToolsCallRequest → Type 0
Covers r call = contains r.tools call.name ≡ true

-- the test that makes a deny rule, and an allow rule, refuse the call
abbrev pub denies : ToolsCallRequest → CompiledRule → Bool
denies call r =
    contains r.tools call.name && (is_empty r.args || any_arg_fails r.args call.arguments)

abbrev pub refuses : ToolsCallRequest → CompiledRule → Bool
refuses call r = contains r.tools call.name && any_arg_fails r.args call.arguments

is_empty-false : {A : Type 0} {xs : List A} → (is_empty xs ≡ false) ↔ (xs ≢ [])
is_empty-false {xs} = go xs
  where
    go : {A : Type 0} (xs : List A) → (is_empty xs ≡ false) ↔ (xs ≢ [])
    go [] = (λ h e. cc, λ h. absurd (h refl))
    go (x ∷ xs) = (λ h e. cc, λ h. refl)

module _ (call : ToolsCallRequest) where
  pub deny_scan-eq-none_iff :
      (rs : List CompiledRule) → (deny_scan rs call ≡ none) ↔ (any (denies call) rs ≡ false)
  unfolding deny_scan
  deny_scan-eq-none_iff [] = (λ h. refl, λ h. refl)
  deny_scan-eq-none_iff (r ∷ rs) = ground (arith, deny_scan-eq-none_iff rs)

  -- a decision of the scan is a denial
  pub deny_scan-deny :
      (rs : List CompiledRule) (d : Decision) → deny_scan rs call ≡ some d → d.action ≡ "deny"
  unfolding deny_scan
  deny_scan-deny [] d h = cc
  deny_scan-deny (r ∷ rs) d h = ground (arith, deny_scan-deny rs d)

  is_empty-any_arg_fails :
      (vs : List (String × CompiledArgValidator))
      → is_empty vs ≡ true
      → any_arg_fails vs call.arguments ≡ false
  unfolding any_arg_fails
  is_empty-any_arg_fails [] h = refl
  is_empty-any_arg_fails (v ∷ vs) h = cc

  pub allow_scan-eq-none_iff :
      (rs : List CompiledRule) → (allow_scan rs call ≡ none) ↔ (any (refuses call) rs ≡ false)
  unfolding allow_scan
  allow_scan-eq-none_iff [] = (λ h. refl, λ h. refl)
  allow_scan-eq-none_iff (r ∷ rs) =
      ground (arith, allow_scan-eq-none_iff rs, is_empty-any_arg_fails r.args)

  pub allow_scan-deny :
      (rs : List CompiledRule) (d : Decision) → allow_scan rs call ≡ some d → d.action ≡ "deny"
  unfolding allow_scan
  allow_scan-deny [] d h = cc
  allow_scan-deny (r ∷ rs) d h = ground (arith, allow_scan-deny rs d)

  pub not-denies :
      (rs : List CompiledRule)
      → (any (denies call) rs ≡ false)
        ↔ All (λ r. Covers r call → (r.args ≢ []) × ArgsPass call.arguments r.args) rs
  not-denies [] = (λ h. tt, λ h. refl)
  not-denies (r ∷ rs) = (
    (λ h. (
      (λ c. (
        is_empty-false.0 (ground arith),
        any_arg_fails-ArgsPass r.args call.arguments (ground arith),
      )),
      (not-denies rs).0 (ground arith),
    )),
    (λ (h, hs). elim (Bool-cases (contains r.tools call.name)) [
      | inr off ↦ rw (off, (not-denies rs).1 hs)
      | inl on ↦ rw (
        on,
        ArgsPass-any_arg_fails r.args call.arguments (h on).1,
        is_empty-false.1 (h on).0,
        (not-denies rs).1 hs,
      )
    ]),
  )

  pub not-refuses :
      (rs : List CompiledRule)
      → (any (refuses call) rs ≡ false)
        ↔ All (λ r. Covers r call → ArgsPass call.arguments r.args) rs
  not-refuses [] = (λ h. tt, λ h. refl)
  not-refuses (r ∷ rs) = (
    (λ h. (
      (λ c. any_arg_fails-ArgsPass r.args call.arguments (ground arith)),
      (not-refuses rs).0 (ground arith),
    )),
    (λ (h, hs). elim (Bool-cases (contains r.tools call.name)) [
      | inr off ↦ rw (off, (not-refuses rs).1 hs)
      | inl on ↦ rw (on, ArgsPass-any_arg_fails r.args call.arguments (h on), (not-refuses rs).1 hs)
    ]),
  )
