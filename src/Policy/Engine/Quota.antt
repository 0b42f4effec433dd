-- ===== src/Policy/Engine/Quota.antt =====
-- How many calls the engine of internal/policy/engine.go allows under one rate limit.
use mcpshield.Prelude.{
  ℕ, ◌+◌, ◌*◌, ◌≤◌, ◌<◌, String, ◌≡◌, refl, sym, ap, false, some, List, [], ◌∷◌, ◌++◌, arith, ◌==◌,
  inl, inr, All, All-append, subst,
}
use mcpshield.Policy.Loader.{CompiledPolicy, Decision}
use mcpshield.Policy.Loader
use mcpshield.Policy.Loader.Evaluate.{evaluate_total}
use mcpshield.Policy.RateLimit.{Buckets, fixed_window}
use mcpshield.Policy.RateLimit.Trace.{Call, admitted}
use mcpshield.Policy.RateLimit.Bounds.{Within, admitted-le-twice}
use mcpshield.Policy.Engine.{Engine, evaluate}
use mcpshield.Policy.Engine.Decisions.{evaluate_refused, evaluate_passed}
use mcpshield.Policy.Engine.Scanned.{
  Ask, gain, Agrees, run_calls, admitted-append, Traced, limit_scan-Scanned,
}

-- one call of `Evaluate` with the policy `p` loaded
evaluate-Traced :
    (k : String) (max window from : ℕ) (a : Ask) (early : from ≤ a.now)
    (late : a.now < from + window) (p : CompiledPolicy) (e : Engine Buckets)
    → e.policy ≡ some p
    → All (Agrees k max window a) p.allow_rules
    → Traced k max window from
        (gain k a p.allow_rules (evaluate fixed_window e a.client a.now a.call).0)
        e.limiter
        (evaluate fixed_window e a.client a.now a.call).1.limiter
      × ((evaluate fixed_window e a.client a.now a.call).1.policy ≡ some p)
unfolding run_calls
evaluate-Traced k max window from a early late p e loaded agrees =
    let K : Decision × Engine Buckets → Type 0 = λ x.
      Traced k max window from (gain k a p.allow_rules x.0) e.limiter x.1.limiter
      × (x.1.policy ≡ some p) in
    elim (evaluate_total p a.call) [
      | inr denied ↦
          subst K (sym (evaluate_refused fixed_window e p a.client a.now a.call loaded denied)) (
            record {
              calls = [];
              within = tt;
              reaches = refl;
              counted =
                  let no_ : ((Loader.evaluate p a.call).action == "allow") ≡ false =
                    rw denied refl in
                  ground (arith, no_);
            },
            loaded,
          )
      | inl allowed ↦
          subst K (sym (evaluate_passed fixed_window e p a.client a.now a.call loaded allowed)) (
            limit_scan-Scanned k max window from a early late p.allow_rules
                (Loader.evaluate p a.call) e.limiter agrees,
            loaded,
          )
    ]

-- How many of the calls of `Evaluate` are allowed under an allow rule with a limit of the key.
unfoldable pub allowed : String → CompiledPolicy → List Ask → Engine Buckets → ℕ
allowed k p [] e = 0
allowed k p (a ∷ asks) e =
    let (d, e') = evaluate fixed_window e a.client a.now a.call in
    gain k a p.allow_rules d + allowed k p asks e'

-- The ask is within one window's length from `from`, and the rules agree on the limit of the key.
abbrev pub Asked : String → ℕ → ℕ → ℕ → CompiledPolicy → Ask → Type 0
Asked k max window from p a =
    (from ≤ a.now) × (a.now < from + window) × All (Agrees k max window a) p.allow_rules

allowed-calls :
    (k : String) (max window from : ℕ) (p : CompiledPolicy) (asks : List Ask) (e : Engine Buckets)
    → e.policy ≡ some p
    → All (Asked k max window from p) asks
    → (calls : List Call) × All (Within k max window from) calls
      × (allowed k p asks e ≤ admitted k calls e.limiter)
unfolding allowed admitted
allowed-calls k max window from p [] e loaded h = ([], tt, omega arith)
allowed-calls k max window from p (a ∷ asks) e loaded ((early, late, agrees), h) =
    let (t, loaded') = evaluate-Traced k max window from a early late p e loaded agrees in
    let e' = (evaluate fixed_window e a.client a.now a.call).1 in
    let (calls, within, counted) = allowed-calls k max window from p asks e' loaded' h in
    (
      t.calls ++ calls,
      All-append (Within k max window from) t.calls calls t.within within,
      omega (
        arith,
        t.counted,
        counted,
        admitted-append k t.calls calls e.limiter,
        ap (admitted k calls) t.reaches,
      ),
    )

-- While a policy is loaded, at most twice the limit's calls that a rule limits under one key are
-- allowed within a stretch of one window's length, whatever the buckets hold at the start and
-- whatever other calls stand between, if the rules that give the calls that key agree on its limit.
pub allowed-le-twice :
    (k : String) (max window from : ℕ) (p : CompiledPolicy) (asks : List Ask) (e : Engine Buckets)
    → e.policy ≡ some p
    → All (Asked k max window from p) asks
    → allowed k p asks e ≤ 2 * max
allowed-le-twice k max window from p asks e loaded h =
    let (calls, within, counted) = allowed-calls k max window from p asks e loaded h in
    omega (arith, counted, admitted-le-twice k max window from calls e.limiter within)
