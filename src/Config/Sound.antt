-- ===== src/Config/Sound.antt =====
-- What pkg/config/config.go makes sure of before a runtime configuration is used.
use mcpshield.Prelude.{
  ℕ, zero, suc, String, false, Option, none, some, List, [], ◌∷◌, ◌++◌, map, ℤ, ◌≡◌, refl, sym, ap,
  ◌∙◌, subst, ok, Ensures, ensure, ensure_ok, arith, ◌==◌, inl, append-nil, append-singleton, All,
  All-append, contains, ◌||◌,
}
use mcpshield.Config.{
  UpstreamConfig, Config, UpstreamRuntimeConfig, UpstreamManagerRuntimeConfig, RuntimeConfig,
}
use mcpshield.Config.Build.{
  Building, nothing_built, check_upstream, add_upstream, merge_manager, manager_or_default,
  build_upstream, build_upstreams, build_runtime,
}
use mcpshield.Config.Settings.{
  ServerIsSound, BoundsArePositive, of_config, of_runtime, Taken, upstream_runtime-Ensures,
  build_server-Ensures,
}
use mcpshield.Config.Shared.{
  AllDistinct, contains-snoc, AllDistinct-snoc, map-snoc, min_duration-IsLeast, SharedIsSound,
  MergedSound,
}

-- An upstream that can be used: it has an id, a prefix and a URL, and its bounds are positive.
pub record UpstreamIsSound (r : UpstreamRuntimeConfig) : Type 0 where
  pub id : (r.id == "") ≡ false
  pub tool_prefix : (r.tool_prefix == "") ≡ false
  pub url : (r.url == "") ≡ false
  pub bounds : BoundsArePositive r

-- What the loop has made of the upstreams seen so far.
record LoopInvariant (us : List UpstreamConfig) (b : Building) : Type 0 where
  pub sound : All UpstreamIsSound b.built
  pub taken : map of_runtime b.built ≡ map of_config us
  pub ids : (x : String) → contains b.ids x ≡ contains (map (λ r. r.id) b.built) x
  pub prefixes :
      (x : String) → contains b.prefixes x ≡ contains (map (λ r. r.tool_prefix) b.built) x
  pub distinct_ids : AllDistinct (map (λ r. r.id) b.built)
  pub distinct_prefixes : AllDistinct (map (λ r. r.tool_prefix) b.built)
  pub shared : MergedSound b.built b.manager

-- The checks at the head of the loop's body.
record Checked (i p l : String) (b : Building) : Type 0 where
  pub id : (i == "") ≡ false
  pub tool_prefix : (p == "") ≡ false
  pub url : (l == "") ≡ false
  pub new_id : contains b.ids i ≡ false
  pub new_prefix : contains b.prefixes p ≡ false

check_upstream-Ensures :
    (i : ℕ) (u : UpstreamConfig) (b : Building)
    → Ensures (λ _. Checked u.id u.tool_prefix u.url b) (check_upstream i u b)
unfolding check_upstream
check_upstream-Ensures i u b = record {
  holds = λ a h. record {
    id = ground (arith, h);
    tool_prefix = ground (arith, h);
    url = ground (arith, h);
    new_id = ground (arith, h);
    new_prefix = ground (arith, h);
  };
}

merge_manager-MergedSound :
    (rs : List UpstreamRuntimeConfig) (r : UpstreamRuntimeConfig)
    (m : Option UpstreamManagerRuntimeConfig)
    → MergedSound rs m
    → MergedSound (rs ++ r ∷ []) (some (merge_manager m r.tools_cache_ttl r.refresh_timeout))
unfolding merge_manager
merge_manager-MergedSound rs r none h =
    rw h (((omega arith, tt), inl refl), ((omega arith, tt), inl refl))
merge_manager-MergedSound rs r (some m) (ttl, refresh) = (
  min_duration-IsLeast (λ r. r.tools_cache_ttl) rs r m.tools_cache_ttl ttl,
  min_duration-IsLeast (λ r. r.refresh_timeout) rs r m.refresh_timeout refresh,
)

-- a set with one name more is the list with the name at its end
contains-added :
    (seen : List String) (key : UpstreamRuntimeConfig → String) (rs : List UpstreamRuntimeConfig)
    (r : UpstreamRuntimeConfig)
    → ((x : String) → contains seen x ≡ contains (map key rs) x)
    → (x : String) → contains (key r ∷ seen) x ≡ contains (map key (rs ++ r ∷ [])) x
contains-added seen key rs r h x =
    ap (λ v. key r == x || v) (h x)
    ∙ sym (contains-snoc (map key rs) (key r) x)
    ∙ ap (λ ks. contains ks x) (sym (map-snoc key rs r))

AllDistinct-added :
    (seen : List String) (key : UpstreamRuntimeConfig → String) (rs : List UpstreamRuntimeConfig)
    (r : UpstreamRuntimeConfig)
    → ((x : String) → contains seen x ≡ contains (map key rs) x)
    → contains seen (key r) ≡ false
    → AllDistinct (map key rs)
    → AllDistinct (map key (rs ++ r ∷ []))
AllDistinct-added seen key rs r h fresh d =
    subst AllDistinct (sym (map-snoc key rs r))
      (AllDistinct-snoc (map key rs) (key r) (sym (h (key r)) ∙ fresh) d)

add_upstream-LoopInvariant :
    (us : List UpstreamConfig) (u : UpstreamConfig) (b : Building) (r : UpstreamRuntimeConfig)
    → LoopInvariant us b
    → Checked r.id r.tool_prefix r.url b
    → BoundsArePositive r
    → of_runtime r ≡ of_config u
    → LoopInvariant (us ++ u ∷ []) (add_upstream r b)
add_upstream-LoopInvariant us u b r inv c bounds same = record {
  sound =
      All-append UpstreamIsSound b.built (r ∷ []) inv.sound
        (record { id = c.id; tool_prefix = c.tool_prefix; url = c.url; bounds = bounds }, tt);
  taken =
      map-snoc of_runtime b.built r
      ∙ ap (λ ts. ts ++ of_runtime r ∷ []) inv.taken
      ∙ ap (λ t. map of_config us ++ t ∷ []) same
      ∙ sym (map-snoc of_config us u);
  ids = contains-added b.ids (λ r. r.id) b.built r inv.ids;
  prefixes = contains-added b.prefixes (λ r. r.tool_prefix) b.built r inv.prefixes;
  distinct_ids = AllDistinct-added b.ids (λ r. r.id) b.built r inv.ids c.new_id inv.distinct_ids;
  distinct_prefixes =
      AllDistinct-added b.prefixes (λ r. r.tool_prefix) b.built r inv.prefixes c.new_prefix
        inv.distinct_prefixes;
  shared = merge_manager-MergedSound b.built r b.manager inv.shared;
}

-- What a runtime configuration promises about the raw one it was built from.
pub record IsRuntimeOf (cfg : Config) (r : RuntimeConfig) : Type 0 where
  pub server : ServerIsSound r.server
  pub upstreams : All UpstreamIsSound r.upstreams
  pub taken : map of_runtime r.upstreams ≡ map of_config cfg.upstreams
  pub distinct_ids : AllDistinct (map (λ r. r.id) r.upstreams)
  pub distinct_prefixes : AllDistinct (map (λ r. r.tool_prefix) r.upstreams)
  pub shared : SharedIsSound r.upstreams r.upstream_manager

MergedSound-Shared :
    (rs : List UpstreamRuntimeConfig) (m : Option UpstreamManagerRuntimeConfig)
    → MergedSound rs m
    → SharedIsSound rs (manager_or_default m)
MergedSound-Shared [] none h = refl
MergedSound-Shared [] (some m) ((_, impossible), _) = absurd impossible
MergedSound-Shared (r ∷ rs) none h = absurd (cc)
MergedSound-Shared (r ∷ rs) (some m) h = h

nothing_built-LoopInvariant : LoopInvariant [] nothing_built
nothing_built-LoopInvariant = record {
  sound = tt;
  taken = refl;
  ids = λ x. refl;
  prefixes = λ x. refl;
  distinct_ids = tt;
  distinct_prefixes = tt;
  shared = refl;
}

module _ (parse_duration : String → Option ℤ) where
  build_upstream-Ensures :
      (i : ℕ) (us : List UpstreamConfig) (u : UpstreamConfig) (b : Building)
      → LoopInvariant us b
      → Ensures (LoopInvariant (us ++ u ∷ [])) (build_upstream parse_duration i u b)
  unfolding build_upstream
  build_upstream-Ensures i us u b inv = ensure (check_upstream-Ensures i u b) λ _ checked.
      ensure (upstream_runtime-Ensures parse_duration u) λ r (bounds, same). ensure_ok (
        add_upstream-LoopInvariant us u b r inv
          (subst (λ (t : Taken). Checked t.id t.tool_prefix t.url b) (sym same) checked) bounds
          same)

  build_upstreams-Ensures :
      (i : ℕ) (seen us : List UpstreamConfig) (b : Building)
      → LoopInvariant seen b
      → Ensures (LoopInvariant (seen ++ us)) (build_upstreams parse_duration i us b)
  unfolding build_upstreams
  build_upstreams-Ensures i seen [] b inv =
      ensure_ok (subst (λ us. LoopInvariant us b) (sym (append-nil seen)) inv)
  build_upstreams-Ensures i seen (u ∷ us) b inv =
      ensure (build_upstream-Ensures i seen u b inv) λ b' inv'.
        subst (λ s. Ensures (LoopInvariant s) (build_upstreams parse_duration (suc i) us b'))
          (append-singleton seen u us) (build_upstreams-Ensures (suc i) (seen ++ u ∷ []) us b' inv')

  build_runtime-Ensures :
      (cfg : Config) → Ensures (IsRuntimeOf cfg) (build_runtime parse_duration cfg)
  unfolding build_runtime
  build_runtime-Ensures cfg =
      ensure (build_server-Ensures parse_duration cfg.server) λ server sound.
        ensure
          (build_upstreams-Ensures zero [] cfg.upstreams nothing_built nothing_built-LoopInvariant)
          λ b inv. ensure_ok (record {
            server = sound;
            upstreams = inv.sound;
            taken = inv.taken;
            distinct_ids = inv.distinct_ids;
            distinct_prefixes = inv.distinct_prefixes;
            shared = MergedSound-Shared b.built b.manager inv.shared;
          })

  -- A configuration that passes has a listen address and positive bounds; its upstreams are those
  -- of the raw configuration in their order, each with an id, a prefix, a URL and positive bounds,
  -- no id and no prefix twice; and the shared cache settings are the least of the upstreams'.
  pub build_runtime-IsRuntimeOf :
      (cfg : Config) (r : RuntimeConfig)
      → build_runtime parse_duration cfg ≡ ok r
      → IsRuntimeOf cfg r
  build_runtime-IsRuntimeOf cfg r built = (build_runtime-Ensures cfg).holds r built
