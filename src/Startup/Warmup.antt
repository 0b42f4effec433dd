-- ===== src/Startup/Warmup.antt =====
-- cmd/mcpshield/main.go: `runWarmupUntilReady`, over `Warmup` of internal/upstream/manager.go.
use mcpshield.Prelude.{
  ℕ, String, true, false, ok_injective, Option, none, some, List, [], ◌∷◌, Result, ok, err, ◌>>=◌,
  ◌≡◌, refl, ap, ◌∙◌, inl, inr, ◌⊎◌, arith, Result-cases, if◌then◌else◌,
}
use mcpshield.Mcp.{Tool}
use mcpshield.Metrics.{Registry}
use mcpshield.Upstream.{
  Manager, ManagerError, ToolsCache, Route, ready, warmup_begin, warmup_end, warmup_waited,
  do_refresh, commit_refresh, fetch_all,
}

module _ {W : Type 0} where
  -- `Warmup` from what its first block decides
  unfoldable pub warmup_from :
      ℕ → Manager W → W → Option (Manager W) → Result ManagerError (Unit {0}) × Manager W × W
  warmup_from later m w none = (warmup_waited m, m, w)
  warmup_from later m w (some m') = warmup_end later m' w

  -- `Warmup`; `later` is the clock once the upstreams have answered
  unfoldable pub warmup : ℕ → Manager W → W → Result ManagerError (Unit {0}) × Manager W × W
  unfolding warmup_from
  warmup later m w = warmup_from later m w (warmup_begin m)

  -- `runWarmupUntilReady`, whose context ends after as many attempts as there are clock readings
  unfoldable pub warmup_loop : List ℕ → Manager W → W → Manager W × W
  warmup_loop [] m w = (m, w)
  warmup_loop (later ∷ rest) m w =
      let (r, m', w') = warmup later m w in
      let again = warmup_loop rest m' w' in
      if ready m then (m, w) else (elim r [ ok _ ↦ (m', w') | err e ↦ again ])

  -- Each attempt asked the upstreams, and was refused.
  abbrev pub AllRefused : List ℕ → Manager W → W → Type 0
  AllRefused [] m w = Unit
  AllRefused (later ∷ rest) m w =
      ((e : ManagerError) × ((do_refresh later (record m { loading = true }) w).0 ≡ err e))
      × AllRefused rest (warmup later m w).1 (warmup later m w).2

  -- what a refresh does to the manager
  record Refreshed (m : Manager W) (r : Result ManagerError (ToolsCache W)) (m' : Manager W)
      : Type 0 where
    pub filled : (c : ToolsCache W) → r ≡ ok c → m'.cached ≡ some c
    pub kept : (e : ManagerError) → r ≡ err e → m'.cached ≡ m.cached

  commit_refresh-Refreshed :
      (later : ℕ) (m : Manager W)
      (fetched : Result ManagerError (List Tool × List (String × Route W))) (reg : Option Registry)
      → Refreshed m (commit_refresh later m fetched reg).0 (commit_refresh later m fetched reg).1
  unfolding commit_refresh
  commit_refresh-Refreshed later m (err e) reg = record {
    filled = λ c h. absurd (cc);
    kept = λ x h. refl;
  }
  commit_refresh-Refreshed later m (ok (tools, routes)) reg = record {
    filled = λ c h. ap some (ok_injective h);
    kept = λ x h. absurd (cc);
  }

  do_refresh-Refreshed :
      (later : ℕ) (m : Manager W) (w : W)
      → Refreshed m (do_refresh later m w).0 (do_refresh later m w).1
  unfolding do_refresh
  do_refresh-Refreshed later m w =
      commit_refresh-Refreshed later m (fetch_all m.entries [] [] m.metrics w).0
        (fetch_all m.entries [] [] m.metrics w).1

  -- What an attempt of an idle manager without a cache comes to: it is ready, or refused and as before.
  record Succeeded (r : Result ManagerError (Unit {0})) (m : Manager W) : Type 0 where
    pub result : r ≡ ok tt
    pub ready_now : ready m ≡ true

  record Refused (refresh : Result ManagerError (ToolsCache W)) (r : Result ManagerError (Unit {0}))
      (m : Manager W) : Type 0 where
    pub error : ManagerError
    pub upstream : refresh ≡ err error
    pub result : r ≡ err error
    pub cached : m.cached ≡ none

  warmup_begin-some :
      (m : Manager W)
      → m.cached ≡ none
      → m.loading ≡ false
      → warmup_begin m ≡ some (record m { loading = true })
  unfolding warmup_begin
  warmup_begin-some m no_cache idle = ground (arith, no_cache, idle)

  ready-some : (m : Manager W) (c : ToolsCache W) → m.cached ≡ some c → ready m ≡ true
  unfolding ready
  ready-some m c h = rw (ready, h) refl

  warmup_end-cases :
      (later : ℕ) (m : Manager W) (w : W)
      → m.cached ≡ none
      → Succeeded (warmup_end later m w).0 (warmup_end later m w).1
        ⊎ Refused (do_refresh later m w).0 (warmup_end later m w).0 (warmup_end later m w).1
  unfolding warmup_end
  warmup_end-cases later m w no_cache =
      let f = do_refresh-Refreshed later m w in
      elim (Result-cases (do_refresh later m w).0) [
        | inl (c, good) ↦ inl (record {
          result = ap (λ (r : Result ManagerError (ToolsCache W)). r >>= λ c. ok tt) good;
          ready_now =
              ready-some (record (do_refresh later m w).1 { loading = false }) c (f.filled c good);
        })
        | inr (e, bad) ↦ inr (record {
          error = e;
          upstream = bad;
          result = ap (λ (r : Result ManagerError (ToolsCache W)). r >>= λ c. ok tt) bad;
          cached = f.kept e bad ∙ no_cache;
        })
      ]

  -- the attempt is `warmup_end` with the mark of a load set
  warmup-marked :
      (later : ℕ) (m : Manager W) (w : W)
      → m.cached ≡ none
      → m.loading ≡ false
      → warmup later m w ≡ warmup_end later (record m { loading = true }) w
  unfolding warmup warmup_from
  warmup-marked later m w no_cache idle =
      ap (warmup_from later m w) (warmup_begin-some m no_cache idle)

  warmup_end-idle : (later : ℕ) (m : Manager W) (w : W) → (warmup_end later m w).1.loading ≡ false
  unfolding warmup_end
  warmup_end-idle later m w = refl

  -- an attempt of an idle manager without a cache
  pub warmup-cases :
      (later : ℕ) (m : Manager W) (w : W)
      → m.cached ≡ none
      → m.loading ≡ false
      → (((warmup later m w).0 ≡ ok tt) × (ready (warmup later m w).1 ≡ true))
        ⊎ ((e : ManagerError) × ((warmup later m w).0 ≡ err e))
  warmup-cases later m w no_cache idle =
      let marked = warmup-marked later m w no_cache idle in
      elim (warmup_end-cases later (record m { loading = true }) w no_cache) [
        | inl s ↦ inl (ap (λ x. x.0) marked ∙ s.result, ap (λ x. ready x.1) marked ∙ s.ready_now)
        | inr r ↦ inr (r.error, ap (λ x. x.0) marked ∙ r.result)
      ]

  -- one turn of the loop, by the outcome of its attempt
  warmup_loop-turn :
      (later : ℕ) (rest : List ℕ) (m : Manager W) (w : W)
      → m.cached ≡ none
      → (((warmup later m w).0 ≡ ok tt)
          → warmup_loop (later ∷ rest) m w ≡ ((warmup later m w).1, (warmup later m w).2))
        × ((e : ManagerError)
            → (warmup later m w).0 ≡ err e
            → warmup_loop (later ∷ rest) m w
              ≡ warmup_loop rest (warmup later m w).1 (warmup later m w).2)
  unfolding warmup_loop ready
  warmup_loop-turn later rest m w no_cache =
      (λ good. ground (arith, no_cache, good), λ e bad. ground (arith, no_cache, bad))

  -- A manager that starts empty is ready when the loop ends, unless the context ended first and
  -- every attempt until then was refused by an upstream.
  pub warmup_loop-ready :
      (ticks : List ℕ) (m : Manager W) (w : W)
      → m.cached ≡ none
      → m.loading ≡ false
      → (ready (warmup_loop ticks m w).0 ≡ true) ⊎ AllRefused ticks m w
  unfolding warmup_loop
  warmup_loop-ready [] m w no_cache idle = inr tt
  warmup_loop-ready (later ∷ rest) m w no_cache idle =
      let marked = warmup-marked later m w no_cache idle in
      let (if_ok, if_err) = warmup_loop-turn later rest m w no_cache in
      elim (warmup_end-cases later (record m { loading = true }) w no_cache) [
        | inl s ↦ inl (
            ap (λ (x : Manager W × W). ready x.0) (if_ok (ap (λ x. x.0) marked ∙ s.result))
            ∙ ap (λ x. ready x.1) marked
            ∙ s.ready_now)
        | inr r ↦
            let idle_still =
              ap (λ x. x.1.loading) marked
              ∙ warmup_end-idle later (record m { loading = true }) w in
            elim (warmup_loop-ready rest (warmup later m w).1 (warmup later m w).2
              (ap (λ x. x.1.cached) marked ∙ r.cached) idle_still) [
                | inl later_ready ↦ inl (
                    ap (λ (x : Manager W × W). ready x.0)
                      (if_err r.error (ap (λ x. x.0) marked ∙ r.result))
                    ∙ later_ready)
                | inr all ↦ inr ((r.error, r.upstream), all)
              ]
      ]
