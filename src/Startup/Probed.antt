-- ===== src/Startup/Probed.antt =====
-- How validate-upstream of cmd/mcpshield/main.go can end.
use mcpshield.Prelude.{
  ℕ, String, true, false, none, List, [], ◌∷◌, length, map, ◌==◌, Result, ok, err, ◌>>=◌, ◌≡◌, refl,
  sym, ap, subst, inl, inr, ◌⊎◌, All, Bool-cases, eq_iff, ℤ, is_pos,
}
use mcpshield.Mcp.{Tool}
use mcpshield.Config.{Config, UpstreamConfig, UpstreamRuntimeConfig, RuntimeConfig}
use mcpshield.Config.Build.{build_runtime}
use mcpshield.Config.Settings.{of_config, of_runtime, BoundsArePositive}
use mcpshield.Config.Sound.{UpstreamIsSound, IsRuntimeOf, build_runtime-IsRuntimeOf}
use mcpshield.Upstream.{Manager, ManagerError, Entry, new_manager, tools_list}
use mcpshield.Upstream.Cached.{ready-tools_list_iff}
use mcpshield.Startup.{
  System, Network, client_refused, manager_refused, config_refused, wrapped, http_client,
}
use mcpshield.Startup.Parts.{load_config}
use mcpshield.Startup.Guarded.{new_http_client-Succeeds}
use mcpshield.Startup.Warmup.{warmup, warmup-cases}
use mcpshield.Startup.Commands.{
  CommandError, start, upstream_not_found, warmup_failed, list_failed, find_upstream, warmed_tools,
  probe_upstream, validate_upstream,
}

-- The settings found are those of the upstream with the id.
record IsFound (i : String) (u : UpstreamConfig) (r : UpstreamRuntimeConfig) : Type 0 where
  pub id : u.id ≡ i
  pub same : of_runtime r ≡ of_config u
  pub bounds : BoundsArePositive r

find_upstream-cases :
    (id : String) (us : List UpstreamConfig) (rs : List UpstreamRuntimeConfig)
    → map of_runtime rs ≡ map of_config us
    → All UpstreamIsSound rs
    → (find_upstream id us rs ≡ err upstream_not_found)
      ⊎ ((u : UpstreamConfig) × (r : UpstreamRuntimeConfig) × (find_upstream id us rs ≡ ok (u, r))
          × IsFound id u r)
unfolding find_upstream
find_upstream-cases id [] rs h all = inl refl
find_upstream-cases id (u ∷ us) [] h all = absurd (cc)
find_upstream-cases id (u ∷ us) (r ∷ rs) h (sound, all) =
    let head : of_runtime r ≡ of_config u = cc in
    let tail : map of_runtime rs ≡ map of_config us = cc in
    elim (Bool-cases (u.id == id)) [
      | inl this ↦ inr (
        u,
        r,
        rw this refl,
        record { id = (eq_iff u.id id).0 this; same = head; bounds = sound.bounds },
      )
      | inr other ↦ rw other (find_upstream-cases id us rs tail all)
    ]

-- The three ways to end: no such upstream, a warm-up that failed, a number of tools.
abbrev pub Ends : Result CommandError ℕ → Type 0
Ends r =
    (r ≡ err upstream_not_found)
    ⊎ ((e : ManagerError) × (r ≡ err (warmup_failed e)))
    ⊎ ((n : ℕ) × (r ≡ ok n))

-- a new manager has no cache and no load under way
new_manager-empty :
    {W : Type 0} (es : List (Entry W)) (ttl timeout : ℤ)
    → is_pos ttl ≡ true
    → is_pos timeout ≡ true
    → (m : Manager W) × (new_manager es ttl timeout ≡ ok m)
      × (m.cached ≡ none)
      × (m.loading ≡ false)
unfolding new_manager
new_manager-empty es ttl timeout t m = rw (t, m) (_, refl, refl, refl)

warmed_tools-failed :
    {W : Type 0} (now : ℕ) (r : Result ManagerError (Unit {0})) (m : Manager W) (w : W)
    (e : ManagerError)
    → r ≡ err e
    → warmed_tools now (r, m, w) ≡ err (warmup_failed e)
warmed_tools-failed now r m w e h = rw h refl

warmed_tools-listed :
    {W : Type 0} (now : ℕ) (r : Result ManagerError (Unit {0})) (m : Manager W) (w : W)
    (list : List Tool)
    → r ≡ ok tt
    → (tools_list now m).0 ≡ ok list
    → warmed_tools now (r, m, w) ≡ ok (length list)
warmed_tools-listed now r m w list h listed =
    rw h (ap (λ o. wrapped list_failed o >>= λ tools. ok (length tools)) listed)

warmed_tools-Ends :
    {W : Type 0} (later now : ℕ) (m : Manager W) (w : W)
    → m.cached ≡ none
    → m.loading ≡ false
    → Ends (warmed_tools now (warmup later m w))
warmed_tools-Ends later now m w no_cache idle = elim (warmup-cases later m w no_cache idle) [
  | inr (e, failed) ↦ inr (inl (e, warmed_tools-failed now _ _ (warmup later m w).2 e failed))
  | inl (good, ready_now) ↦
      let (list, listed) = (ready-tools_list_iff now (warmup later m w).1).0 ready_now in
      inr (inr (length list, warmed_tools-listed now _ _ (warmup later m w).2 list good listed))
]

-- a chain whose first step is a value
follow {ℓ} :
    {A : Type ℓ} {r : Result CommandError A} {a : A} (next : A → Result CommandError ℕ)
    → r ≡ ok a
    → Ends (next a)
    → Ends (r >>= next)
follow next h ends = subst (λ x. Ends (x >>= next)) (sym h) ends

module _ {N : Type 0} (sys : System) (nw : Network N) (later now : ℕ) where
  probe_upstream-Ends :
      (id : String) (u : UpstreamConfig) (r : UpstreamRuntimeConfig) (net : N)
      → IsFound id u r
      → Ends (probe_upstream sys nw later now u r net)
  unfolding probe_upstream
  probe_upstream-Ends id u r net found =
      let (c, made) =
        new_http_client-Succeeds u.id u.url u.headers r.request_timeout r.max_response_bytes
          found.bounds.request_timeout found.bounds.max_response_bytes in
      let (mgr, managed, no_cache, idle) =
        new_manager-empty
          (record { id = u.id; tool_prefix = u.tool_prefix; client = http_client nw 0 } ∷ [])
          r.tools_cache_ttl r.refresh_timeout found.bounds.tools_cache_ttl
          found.bounds.refresh_timeout in
      follow _ (ap (wrapped (λ e. start (client_refused u.id e))) made) (
        follow _ (ap (wrapped (λ e. start (manager_refused e))) managed)
          (warmed_tools-Ends later now mgr (record { clients = c ∷ []; net = net }) no_cache idle))

  find_upstream-Ends :
      (id : String) (cfg : Config) (rt : RuntimeConfig) (net : N)
      → IsRuntimeOf cfg rt
      → Ends (
          find_upstream id cfg.upstreams rt.upstreams >>= λ found.
          probe_upstream sys nw later now found.0 found.1 net)
  find_upstream-Ends id cfg rt net sound =
      elim (find_upstream-cases id cfg.upstreams rt.upstreams sound.taken sound.upstreams) [
        | inl absent ↦
            inl
              (ap (λ x. x >>= λ found. probe_upstream sys nw later now found.0 found.1 net) absent)
        | inr (u, r, found, is_found) ↦ follow _ found (probe_upstream-Ends id u r net is_found)
      ]

  -- With a configuration that is accepted, validate-upstream ends without an upstream of the id,
  -- with the error of the warm-up or with a number of tools: it takes no settings out of range, and
  -- neither the client nor the manager nor the listing after the warm-up fails.
  validate_upstream-Ends :
      (path id : String) (net : N) (cfg : Config) (rt : RuntimeConfig)
      → load_config sys path ≡ ok cfg
      → build_runtime sys.audit.parse_duration cfg ≡ ok rt
      → Ends (validate_upstream sys nw later now path id net)
  unfolding validate_upstream
  validate_upstream-Ends path id net cfg rt loaded built = follow _ (ap (wrapped start) loaded) (
      follow _ (ap (wrapped (λ e. start (config_refused e))) built) (
        find_upstream-Ends id cfg rt net
          (build_runtime-IsRuntimeOf sys.audit.parse_duration cfg rt built)))
