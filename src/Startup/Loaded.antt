-- ===== src/Startup/Loaded.antt =====
-- What `runServe` of cmd/mcpshield/main.go has checked once its parts are loaded.
use mcpshield.Prelude.{
  String, not, none, some, ◌==◌, Result, ok, err, ◌≡◌, refl, inl, inr, ◌⊎◌, arith, Ensures, ensure,
  ensure_ok, if-elim, eq_iff,
}
use mcpshield.Config.Build.{build_runtime}
use mcpshield.Policy.Loader.{CompiledPolicy}
use mcpshield.Policy.RateLimit.{Buckets}
use mcpshield.Policy.Engine.{Engine, new_engine}
use mcpshield.Auth.{build_auth}
use mcpshield.Audit.Open.{new_logger}
use mcpshield.Startup.{System, config_refused, auth_refused, audit_refused, wrapped}
use mcpshield.Startup.Parts.{Parts, load_config, load_from_file, load_parts, build_engine}

-- A result ensures what it is.
ensure_self {ℓ κ} : {E : Type ℓ} {A : Type κ} (r : Result E A) → Ensures (λ a. r ≡ ok a) r
ensure_self r = record { holds = λ a h. h }

ensure_wrapped {ℓ κ μ} :
    {E : Type ℓ} {F : Type κ} {A : Type μ} (f : E → F) (r : Result E A)
    → Ensures (λ a. r ≡ ok a) (wrapped f r)
ensure_wrapped f (err e) = record { holds = λ a h. absurd (cc) }
ensure_wrapped f (ok a) = record { holds = λ b h. cc }

-- What the parts were made from.
pub record IsLoaded (sys : System) (path : String) (p : Parts) : Type 0 where
  pub config : load_config sys path ≡ ok p.config
  pub runtime : build_runtime sys.audit.parse_duration p.config ≡ ok p.runtime
  pub authenticator :
      build_auth sys.decode_hex p.config.auth p.config.server.insecure_allow_anonymous
      ≡ ok p.authenticator
  pub engine : build_engine sys p.config.policy_file ≡ ok p.engine
  pub audit : new_logger sys.audit p.config.audit ≡ ok p.audit

pub load_parts-IsLoaded :
    (sys : System) (path : String) → Ensures (IsLoaded sys path) (load_parts sys path)
unfolding load_parts
load_parts-IsLoaded sys path = ensure (ensure_self (load_config sys path)) λ cfg config.
    ensure (ensure_wrapped config_refused (build_runtime sys.audit.parse_duration cfg)) λ r runtime.
      ensure
        (ensure_wrapped auth_refused
          (build_auth sys.decode_hex cfg.auth cfg.server.insecure_allow_anonymous))
        λ a authenticator. ensure (ensure_self (build_engine sys cfg.policy_file)) λ e engine.
          ensure (ensure_wrapped audit_refused (new_logger sys.audit cfg.audit)) λ l audit.
            ensure_ok (record {
              config = config;
              runtime = runtime;
              authenticator = authenticator;
              engine = engine;
              audit = audit;
            })

-- The engine has the policy of the file, or none without a file.
abbrev pub HasPolicy : System → String → Engine Buckets → Type 0
HasPolicy sys path e =
    ((path ≡ "") × (e.policy ≡ none))
    ⊎ ((p : CompiledPolicy) × (load_from_file sys path ≡ ok p) × (e.policy ≡ some p))

pub build_engine-HasPolicy :
    (sys : System) (path : String) → Ensures (HasPolicy sys path) (build_engine sys path)
unfolding build_engine new_engine
build_engine-HasPolicy sys path =
    if-elim (Ensures (HasPolicy sys path)) (not (path == ""))
      (λ given.
        ensure (ensure_self (load_from_file sys path))
          λ p loaded. ensure_ok (inr (p, loaded, refl)))
      (λ absent. ensure_ok (inl ((eq_iff path "").0 (ground (arith, absent)), refl)))
