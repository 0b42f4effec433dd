-- ===== src/Startup/Guarded.antt =====
-- What `serve` of cmd/mcpshield/main.go makes sure of before it listens.
use mcpshield.Prelude.{
  ℕ, suc, String, true, none, List, [], ◌∷◌, Result, ok, ◌>>=◌, ℤ, is_pos, ◌≡◌, refl, sym, ap, ◌∙◌,
  subst, All, All-imp, Any, inl, inr,
}
use mcpshield.Config.{UpstreamRuntimeConfig, UpstreamManagerRuntimeConfig}
use mcpshield.Config.Shared.{SharedIsSound}
use mcpshield.Config.Sound.{UpstreamIsSound, IsRuntimeOf}
use mcpshield.Transport.{new_http_client, validate_client, new_http_server}
use mcpshield.Upstream.{Entry, new_manager}
use mcpshield.Gateway.{Gateway, new_gateway, validate_config}
use mcpshield.Gateway
use mcpshield.Startup.{
  Network, client_refused, manager_refused, gateway_refused, server_refused, wrapped, build_entries,
}
use mcpshield.Startup.Parts.{Parts, wire_parts}

-- The result is a value.
abbrev pub Succeeds {ℓ κ} : {E : Type ℓ} {A : Type κ} → Result E A → Type (ℓ ⊔ κ)
Succeeds {A = A} r = (a : A) × (r ≡ ok a)

-- a chain succeeds if its steps do
succeed {ℓ κ μ} :
    {E : Type ℓ} {A : Type κ} {B : Type μ} {r : Result E A} {next : A → Result E B}
    → Succeeds r
    → ((a : A) → Succeeds (next a))
    → Succeeds (r >>= next)
succeed {next = next} (a, done) rest =
    let (b, last) = rest a in (b, ap (λ x. x >>= next) done ∙ last)

wrapped-Succeeds {ℓ κ μ} :
    {E : Type ℓ} {F : Type κ} {A : Type μ} (f : E → F) (r : Result E A)
    → Succeeds r
    → Succeeds (wrapped f r)
wrapped-Succeeds f r (a, done) = (a, ap (wrapped f) done)

validate_client-none :
    (timeout max : ℤ)
    → is_pos timeout ≡ true
    → is_pos max ≡ true
    → validate_client timeout max ≡ none
unfolding validate_client
validate_client-none timeout max t m = rw (t, m) refl

pub new_http_client-Succeeds :
    (id url : String) (headers : List (String × String)) (timeout max : ℤ)
    → is_pos timeout ≡ true
    → is_pos max ≡ true
    → Succeeds (new_http_client id url headers timeout max)
unfolding new_http_client
new_http_client-Succeeds id url headers timeout max t m =
    rw (new_http_client, validate_client-none timeout max t m) (_, refl)

new_http_server-Succeeds :
    (addr : String) (reading writing idle : ℤ)
    → is_pos reading ≡ true
    → is_pos writing ≡ true
    → is_pos idle ≡ true
    → Succeeds (new_http_server addr reading writing idle)
unfolding new_http_server
new_http_server-Succeeds addr reading writing idle r w i = rw (r, w, i) (_, refl)

new_manager-Succeeds :
    {W : Type 0} (es : List (Entry W)) (ttl timeout : ℤ)
    → is_pos ttl ≡ true
    → is_pos timeout ≡ true
    → Succeeds (new_manager es ttl timeout)
unfolding new_manager
new_manager-Succeeds es ttl timeout t m = rw (t, m) (_, refl)

validate_config-none :
    (cfg : Gateway.Config)
    → is_pos cfg.request_timeout ≡ true
    → is_pos cfg.max_request_bytes ≡ true
    → is_pos cfg.session_ttl ≡ true
    → is_pos cfg.session_max_entries ≡ true
    → validate_config cfg ≡ none
unfolding validate_config
validate_config-none cfg r b t n = rw (r, b, t, n) refl

new_gateway-Succeeds :
    {P U A : Type 0} (p : P) (u : U) (a : A) (cfg : Gateway.Config)
    → is_pos cfg.request_timeout ≡ true
    → is_pos cfg.max_request_bytes ≡ true
    → is_pos cfg.session_ttl ≡ true
    → is_pos cfg.session_max_entries ≡ true
    → Succeeds (new_gateway p u a cfg)
unfolding new_gateway
new_gateway-Succeeds p u a cfg r b t n =
    rw (new_gateway, validate_config-none cfg r b t n) (_, refl)

least-pos :
    (setting : UpstreamRuntimeConfig → ℤ) (rs : List UpstreamRuntimeConfig) (least : ℤ)
    → Any (λ r. setting r ≡ least) rs
    → All (λ r. is_pos (setting r) ≡ true) rs
    → is_pos least ≡ true
least-pos setting [] least h all = absurd h
least-pos setting (r ∷ rs) least (inl this) (p, all) = subst (λ z. is_pos z ≡ true) this p
least-pos setting (r ∷ rs) least (inr h) (p, all) = least-pos setting rs least h all

-- the settings that the upstreams share are positive
shared-pos :
    (rs : List UpstreamRuntimeConfig) (m : UpstreamManagerRuntimeConfig)
    → All UpstreamIsSound rs
    → SharedIsSound rs m
    → (is_pos m.tools_cache_ttl ≡ true) × (is_pos m.refresh_timeout ≡ true)
shared-pos [] m all h =
    subst
      (λ (x : UpstreamManagerRuntimeConfig).
        (is_pos x.tools_cache_ttl ≡ true) × (is_pos x.refresh_timeout ≡ true))
      (sym h) (refl, refl)
shared-pos (r ∷ rs) m all ((_, ttl), (_, refresh)) = (
  least-pos (λ r. r.tools_cache_ttl) (r ∷ rs) m.tools_cache_ttl ttl
      (All-imp (λ r s. s.bounds.tools_cache_ttl) (r ∷ rs) all),
  least-pos (λ r. r.refresh_timeout) (r ∷ rs) m.refresh_timeout refresh
      (All-imp (λ r s. s.bounds.refresh_timeout) (r ∷ rs) all),
)

module _ {N : Type 0} (nw : Network N) where
  build_entries-Succeeds :
      (i : ℕ) (us : List UpstreamRuntimeConfig)
      → All UpstreamIsSound us
      → Succeeds (build_entries nw i us)
  unfolding build_entries
  build_entries-Succeeds i [] all = (([], []), refl)
  build_entries-Succeeds i (u ∷ us) (sound, all) =
      succeed
        (wrapped-Succeeds (client_refused u.id)
          (new_http_client u.id u.url u.headers u.request_timeout u.max_response_bytes)
          (new_http_client-Succeeds u.id u.url u.headers u.request_timeout u.max_response_bytes
            sound.bounds.request_timeout sound.bounds.max_response_bytes))
        λ c. succeed (build_entries-Succeeds (suc i) us all) λ rest. (_, refl)

  -- with a runtime configuration that was built, nothing of the wiring fails
  pub wire_parts-Succeeds :
      (p : Parts) (net : N) → IsRuntimeOf p.config p.runtime → Succeeds (wire_parts nw p net)
  unfolding wire_parts
  wire_parts-Succeeds p net r =
      let (ttl, refresh) =
        shared-pos p.runtime.upstreams p.runtime.upstream_manager r.upstreams r.shared in
      succeed (build_entries-Succeeds 0 p.runtime.upstreams r.upstreams) λ built.
        succeed (wrapped-Succeeds manager_refused _ (new_manager-Succeeds built.0 _ _ ttl refresh))
          λ mgr.
            succeed
              (wrapped-Succeeds gateway_refused _ (
                new_gateway-Succeeds p.engine (mgr, record { clients = built.1; net = net }) p.audit
                  _ r.server.request_timeout r.server.max_request_bytes r.server.session_ttl
                  r.server.session_max_entries))
              λ gw.
                succeed
                  (wrapped-Succeeds server_refused _ (
                    new_http_server-Succeeds p.runtime.server.listen _ _ _ r.server.read_timeout
                      r.server.write_timeout r.server.idle_timeout))
                  λ srv. (_, refl)
