-- ===== src/Startup/Started.antt =====
-- What holds of a server that `serve` of cmd/mcpshield/main.go started.
use mcpshield.Prelude.{
  ◌≤◌, String, Bool, true, false, none, [], Result, ok, err, ◌>>=◌, ℤ, is_pos, pos_part, pos,
  negsuc, ◌≡◌, refl, sym, ap, ◌∙◌, subst, inl, inr, ◌⊎◌, arith, Ensures, ensure, ensure_ok,
  ensure_any, Option-cases,
}
use mcpshield.Config.{Config, AuthKeyConfig}
use mcpshield.Config.Sound.{build_runtime-IsRuntimeOf}
use mcpshield.Policy.RateLimit.{Buckets}
use mcpshield.Policy.Engine.{Engine}
use mcpshield.Auth.{Digest, authenticate}
use mcpshield.Auth.Listed.{Keyed}
use mcpshield.Auth.Accept.{Open, build_auth-Keyed}
use mcpshield.Audit.Open.{AuditLog}
use mcpshield.Upstream.{Manager, new_manager}
use mcpshield.Transport.{new_http_server}
use mcpshield.Gateway.{Gateway, new_gateway, validate_config}
use mcpshield.Gateway
use mcpshield.Startup.{
  System, Network, World, manager_refused, gateway_refused, server_refused, wrapped, build_entries,
}
use mcpshield.Startup.Parts.{
  Parts, Assembled, load_config, load_parts, wire_metrics, wire_parts, assemble,
}
use mcpshield.Startup.Guarded.{Succeeds, wire_parts-Succeeds}
use mcpshield.Startup.Loaded.{load_parts-IsLoaded, HasPolicy, build_engine-HasPolicy}

pos_part-positive : (z : ℤ) → is_pos z ≡ true → 1 ≤ pos_part z
pos_part-positive (pos n) h = ground (arith, h)
pos_part-positive (negsuc n) h = absurd (ground (arith, h))

validate_config-pos :
    (cfg : Gateway.Config)
    → validate_config cfg ≡ none
    → (is_pos cfg.max_request_bytes ≡ true)
      × (is_pos cfg.session_ttl ≡ true)
      × (is_pos cfg.session_max_entries ≡ true)
unfolding validate_config
validate_config-pos cfg h = (ground (arith, h), ground (arith, h), ground (arith, h))

ensure_inner {ℓ κ μ ν} :
    {E : Type ℓ} {F : Type κ} {A : Type μ} {P : A → Type ν} (f : E → F) (r : Result E A)
    → Ensures P r
    → Ensures P (wrapped f r)
ensure_inner f (err e) h = record { holds = λ a k. absurd (cc) }
ensure_inner f (ok a) h = record { holds = λ b k. h.holds b (cc) }

module _ {N : Type 0} where
  -- A gateway with the engine, and with limits that admit something.
  record HasEngine (e : Engine Buckets)
      (g : Gateway (Engine Buckets) (Manager (World N) × World N) AuditLog) : Type 0 where
    pub policy : g.policy ≡ e
    pub max_request_bytes : 1 ≤ g.max_request_bytes
    pub max_entries : 1 ≤ g.sessions.max_entries
    pub ttl : 1 ≤ g.sessions.ttl
    pub empty : g.sessions.clients ≡ []

  new_gateway-HasEngine :
      (e : Engine Buckets) (u : Manager (World N) × World N) (a : AuditLog) (cfg : Gateway.Config)
      → Ensures (HasEngine e) (new_gateway e u a cfg)
  unfolding new_gateway
  new_gateway-HasEngine e u a cfg = elim (Option-cases (validate_config cfg)) [
    | inr (bad, refused) ↦ record { holds = λ g h. absurd (ground (arith, h, refused)) }
    | inl valid ↦
        let (bytes, ttl, entries) = validate_config-pos cfg valid in
        rw (new_gateway, valid)
          (ensure_ok (record {
            policy = refl;
            max_request_bytes = pos_part-positive cfg.max_request_bytes bytes;
            max_entries = pos_part-positive cfg.session_max_entries entries;
            ttl = pos_part-positive cfg.session_ttl ttl;
            empty = refl;
          }))
  ]

  wire_metrics-HasEngine :
      (enabled include : Bool) (e : Engine Buckets)
      (g : Gateway (Engine Buckets) (Manager (World N) × World N) AuditLog)
      → HasEngine e g
      → HasEngine e (wire_metrics enabled include g)
  unfolding wire_metrics Gateway.set_metrics
  wire_metrics-HasEngine false include e g h = h
  wire_metrics-HasEngine true include e g h = record {
    policy = h.policy;
    max_request_bytes = h.max_request_bytes;
    max_entries = h.max_entries;
    ttl = h.ttl;
    empty = h.empty;
  }

  module _ (nw : Network N) where
    wire_parts-HasEngine :
        (p : Parts) (net : N)
        → Ensures
            (λ a. (a.authenticator ≡ p.authenticator) × HasEngine p.engine a.gateway)
            (wire_parts nw p net)
    unfolding wire_parts
    wire_parts-HasEngine p net =
        ensure (ensure_any (build_entries nw 0 p.runtime.upstreams)) λ built _.
          ensure (ensure_any (wrapped manager_refused (new_manager built.0 _ _))) λ mgr _.
            ensure
              (ensure_inner gateway_refused _ (
                new_gateway-HasEngine p.engine (mgr, record { clients = built.1; net = net })
                  p.audit _))
              λ g has.
                ensure (ensure_any (wrapped server_refused (new_http_server _ _ _ _))) λ srv _.
                  ensure_ok (
                    refl,
                    wire_metrics-HasEngine p.config.metrics.enabled
                        p.config.metrics.include_client_id p.engine g has,
                  )

  -- What was checked before the server of a path starts to listen.
  pub record IsGuarded (sys : System) (sum256 : String → Digest) (path : String) (a : Assembled N)
      : Type 0 where
    pub config : Config
    pub loaded : load_config sys path ≡ ok config
    pub accepts :
        (header client : String)
        → authenticate sum256 a.authenticator header ≡ ok client
        → Keyed sys.decode_hex sum256
            (λ (k : AuthKeyConfig). k.key_hash)
            (λ k. k.client_id)
            config.auth.keys
            header
            client
          ⊎ Open config.auth config.server.insecure_allow_anonymous client
    pub policy : HasPolicy sys config.policy_file a.gateway.policy
    pub limits :
        (1 ≤ a.gateway.max_request_bytes)
        × (1 ≤ a.gateway.sessions.max_entries)
        × (1 ≤ a.gateway.sessions.ttl)
    pub empty : a.gateway.sessions.clients ≡ []

  assemble-Ensures :
      (nw : Network N) (sys : System) (sum256 : String → Digest) (path : String) (net : N)
      → Ensures (IsGuarded sys sum256 path) (assemble nw sys path net)
  unfolding assemble
  assemble-Ensures nw sys sum256 path net = ensure (load_parts-IsLoaded sys path) λ p loaded.
      record {
        holds = λ a wired.
            let (same, has) = (wire_parts-HasEngine nw p net).holds a wired in
            record {
              config = p.config;
              loaded = loaded.config;
              accepts = λ header client passed.
                  build_auth-Keyed sys.decode_hex sum256 p.config.auth
                    p.config.server.insecure_allow_anonymous p.authenticator header client
                    loaded.authenticator
                    (subst (λ x. authenticate sum256 x header ≡ ok client) same passed);
              policy =
                  subst (HasPolicy sys p.config.policy_file) (sym has.policy) (
                    (build_engine-HasPolicy sys p.config.policy_file).holds p.engine loaded.engine);
              limits = (has.max_request_bytes, has.max_entries, has.ttl);
              empty = has.empty;
            };
      }

  -- A server that starts accepts a request as a client only with a token that a key of the loaded
  -- configuration has for that client, unless the configuration switches authentication off, twice;
  -- its engine has the policy of the configured file, or none if no file is configured; and its
  -- limits on requests and sessions are positive. It starts without sessions.
  pub assemble-IsGuarded :
      (nw : Network N) (sys : System) (sum256 : String → Digest) (path : String) (net : N)
      (a : Assembled N)
      → assemble nw sys path net ≡ ok a
      → IsGuarded sys sum256 path a
  assemble-IsGuarded nw sys sum256 path net a started =
      (assemble-Ensures nw sys sum256 path net).holds a started

  -- Once the configuration, the authentication, the policy and the audit log are accepted, nothing
  -- on the way to the server fails.
  pub assemble-Succeeds :
      (nw : Network N) (sys : System) (path : String) (net : N) (p : Parts)
      → load_parts sys path ≡ ok p
      → Succeeds (assemble nw sys path net)
  unfolding assemble
  assemble-Succeeds nw sys path net p loaded =
      let l = (load_parts-IsLoaded sys path).holds p loaded in
      let (a, wired) =
        wire_parts-Succeeds nw p net
          (build_runtime-IsRuntimeOf sys.audit.parse_duration p.config p.runtime l.runtime) in
      (a, ap (λ r. r >>= λ q. wire_parts nw q net) loaded ∙ wired)
