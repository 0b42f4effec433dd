-- ===== src/Policy/Engine/Scanned.antt =====
-- What one scan of the limits of internal/policy/engine.go asks of the limiter.
use mcpshield.Prelude.{
  ℕ, ◌+◌, ◌≤◌, ◌<◌, String, ◌≡◌, refl, sym, Bool, true, false, ◌&&◌, none, some, List, [], ◌∷◌,
  ◌++◌, arith, contains, if◌then◌else◌, ◌==◌, inl, inr, All, any, Bool-cases, Option-cases, subst,
}
use mcpshield.Mcp.{ToolsCallRequest}
use mcpshield.Policy.Loader.{CompiledRateLimit, CompiledRule, Decision}
use mcpshield.Policy.RateLimit.{Buckets, fixed_window}
use mcpshield.Policy.RateLimit.Trace.{Call, step, admitted}
use mcpshield.Policy.RateLimit.Bounds.{Within}
use mcpshield.Policy.Engine.{limit_key, rate_limited_decision, limit_scan}
use mcpshield.Policy.Engine.Decisions.{
  limit_scan-off, limit_scan-free, limit_scan-room, limit_scan-full,
}

-- A call of `Evaluate`.
pub record Ask : Type 0 where
  pub client : String
  pub now : ℕ
  pub call : ToolsCallRequest

-- the call of the limiter for a limit of a rule
abbrev pub limiter_call : CompiledRule → Ask → CompiledRateLimit → Call
limiter_call r a rl = record {
  key = limit_key a.client rl r.name a.call.name;
  max = rl.max;
  window = rl.window;
  now = a.now;
}

-- The rule covers the call and has a limit whose key for it is `k`.
abbrev pub hits : String → Ask → CompiledRule → Bool
hits k a r = contains r.tools a.call.name && (elim r.rate_limit [
  | none ↦ false
  | some rl ↦ limit_key a.client rl r.name a.call.name == k
])

-- What one ask adds to the count: 1 where it is allowed and a rule hits the key.
abbrev pub gain : String → Ask → List CompiledRule → Decision → ℕ
gain k a rs d = if (d.action == "allow") && any (hits k a) rs then 1 else 0

-- The rule's limits with the key are of `max` calls in a window of `window`.
abbrev pub Agrees : String → ℕ → ℕ → Ask → CompiledRule → Type 0
Agrees k max window a r =
    (rl : CompiledRateLimit)
    → r.rate_limit ≡ some rl
    → limit_key a.client rl r.name a.call.name ≡ k
    → (rl.max ≡ max) × (rl.window ≡ window)

-- the buckets after some calls of the limiter
unfoldable pub run_calls : List Call → Buckets → Buckets
run_calls [] s = s
run_calls (c ∷ cs) s = run_calls cs (step c s).1

module _ (k : String) where
  pub admitted-append :
      (cs cs' : List Call) (s : Buckets)
      → admitted k (cs ++ cs') s ≡ admitted k cs s + admitted k cs' (run_calls cs s)
  unfolding admitted run_calls
  admitted-append [] cs' s = omega arith
  admitted-append (c ∷ cs) cs' s = ground (arith, admitted-append cs cs' (step c s).1)

  -- The calls of the limiter that take the buckets from `s` to `after`: those for the key are within
  -- the window, and `n` of them at least are admitted.
  pub record Traced (max window from n : ℕ) (s after : Buckets) : Type 0 where
    pub calls : List Call
    pub within : All (Within k max window from) calls
    pub reaches : run_calls calls s ≡ after
    pub counted : n ≤ admitted k calls s

  module _ (max window from : ℕ) (a : Ask) (early : from ≤ a.now)
      (late : a.now < from + window) where
    Agrees-Within :
        (r : CompiledRule) (rl : CompiledRateLimit)
        → Agrees k max window a r
        → r.rate_limit ≡ some rl
        → Within k max window from (limiter_call r a rl)
    Agrees-Within r rl agrees limited key =
        let (m, w) = agrees rl limited key in (m, w, early, late)

    abbrev pub Scanned : List CompiledRule → Buckets → Decision × Buckets → Type 0
    Scanned rs s x = Traced max window from (gain k a rs x.0) s x.1

    -- a rule that has no limit for the key, and is passed over
    passed-Scanned :
        (r : CompiledRule) (rs : List CompiledRule) (s : Buckets) {x y : Decision × Buckets}
        → x ≡ y
        → hits k a r ≡ false
        → Scanned rs s y
        → Scanned (r ∷ rs) s x
    passed-Scanned r rs s {y} e miss t = subst (Scanned (r ∷ rs) s) (sym e) (record {
      calls = t.calls;
      within = t.within;
      reaches = t.reaches;
      counted = ground (arith, t.counted);
    })

    -- a limit that has room, after which the scan goes on
    room-Scanned :
        (r : CompiledRule) (rl : CompiledRateLimit) (rs : List CompiledRule) (s : Buckets)
        {x y : Decision × Buckets}
        → x ≡ y
        → Agrees k max window a r
        → r.rate_limit ≡ some rl
        → hits k a r ≡ ((limiter_call r a rl).key == k)
        → (step (limiter_call r a rl) s).0 ≡ true
        → Scanned rs (step (limiter_call r a rl) s).1 y
        → Scanned (r ∷ rs) s x
    unfolding admitted run_calls
    room-Scanned r rl rs s {y} e agrees limited hit room t =
        subst (Scanned (r ∷ rs) s) (sym e) (record {
          calls = limiter_call r a rl ∷ t.calls;
          within = (Agrees-Within r rl agrees limited, t.within);
          reaches = t.reaches;
          counted = ground (arith, t.counted);
        })

    -- a limit that is reached, which ends the scan with a denial
    full-Scanned :
        (r : CompiledRule) (rl : CompiledRateLimit) (rs : List CompiledRule) (s : Buckets)
        {x : Decision × Buckets}
        → x ≡ (rate_limited_decision r rl, (step (limiter_call r a rl) s).1)
        → Agrees k max window a r
        → r.rate_limit ≡ some rl
        → Scanned (r ∷ rs) s x
    unfolding run_calls
    full-Scanned r rl rs s e agrees limited = subst (Scanned (r ∷ rs) s) (sym e) (record {
      calls = limiter_call r a rl ∷ [];
      within = (Agrees-Within r rl agrees limited, tt);
      reaches = refl;
      counted = omega arith;
    })

    pub limit_scan-Scanned :
        (rs : List CompiledRule) (d : Decision) (s : Buckets)
        → All (Agrees k max window a) rs
        → Scanned rs s (limit_scan fixed_window rs a.client a.now a.call d s)
    unfolding limit_scan run_calls
    limit_scan-Scanned [] d s h = record {
      calls = [];
      within = tt;
      reaches = refl;
      counted = ground arith;
    }
    limit_scan-Scanned (r ∷ rs) d s (agrees, h) = elim (Bool-cases (contains r.tools a.call.name)) [
      | inr off ↦
          passed-Scanned r rs s (limit_scan-off fixed_window r rs a.client a.now a.call d s off)
            (rw off refl) (limit_scan-Scanned rs d s h)
      | inl on ↦ elim (Option-cases r.rate_limit) [
        | inl free ↦
            passed-Scanned r rs s (limit_scan-free fixed_window r rs a.client a.now a.call d s free)
              (rw (on, free) refl) (limit_scan-Scanned rs d s h)
        | inr (rl, limited) ↦ elim (Bool-cases (step (limiter_call r a rl) s).0) [
          | inl room ↦
              room-Scanned r rl rs s
                (limit_scan-room fixed_window r rs a.client a.now a.call d s rl on limited room)
                agrees limited (rw (on, limited) refl) room
                (limit_scan-Scanned rs d (step (limiter_call r a rl) s).1 h)
          | inr full ↦
              full-Scanned r rl rs s
                (limit_scan-full fixed_window r rs a.client a.now a.call d s rl on limited full)
                agrees limited
        ]
      ]
    ]
