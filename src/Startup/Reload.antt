-- ===== src/Startup/Reload.antt =====
-- cmd/mcpshield/main.go: what goes on beside the server, the reload of the policy on SIGHUP and
-- `runWarmupUntilReady`.
use mcpshield.Prelude.{
  String, some, List, [], ◌∷◌, if◌then◌else◌, ◌==◌, Result, ok, err, ◌≡◌, refl, ap, ◌∙◌, inl, inr,
  ◌⊎◌, Bool-cases,
}
use mcpshield.Policy.Loader.{CompiledPolicy}
use mcpshield.Policy.RateLimit.{Buckets, fixed_window}
use mcpshield.Policy.Engine.{Engine, swap}
use mcpshield.Startup.{System, StartError}
use mcpshield.Startup.Parts.{load_from_file}

-- the result of a load that the handler of SIGHUP made
unfoldable pub reloaded : Result StartError CompiledPolicy → Engine Buckets → Engine Buckets
unfolding swap
reloaded (err e) engine = engine
reloaded (ok p) engine = swap fixed_window (some p) engine

-- the body of the loop over the signals
unfoldable pub sighup : System → String → Engine Buckets → Engine Buckets
unfolding reloaded
sighup sys path engine = if path == "" then engine else reloaded (load_from_file sys path) engine

-- the loop; each signal finds the file system in a state of its own
unfoldable pub sighups : List System → String → Engine Buckets → Engine Buckets
unfolding sighup
sighups [] path engine = engine
sighups (sys ∷ later) path engine = sighups later path (sighup sys path engine)

-- One of the signals loaded the policy.
abbrev pub LoadedBy : List System → String → CompiledPolicy → Type 0
LoadedBy [] path p = ⊥
LoadedBy (sys ∷ later) path p = (load_from_file sys path ≡ ok p) ⊎ LoadedBy later path p

-- The policy is the one before or one that a signal loaded; the rate limits go on.
pub record IsReloaded (syss : List System) (path : String) (e e' : Engine Buckets) : Type 0 where
  pub policy :
      (e'.policy ≡ e.policy) ⊎ ((p : CompiledPolicy) × LoadedBy syss path p × (e'.policy ≡ some p))
  pub limiter : e'.limiter ≡ e.limiter

reloaded-cases :
    (r : Result StartError CompiledPolicy) (e : Engine Buckets)
    → (reloaded r e ≡ e)
      ⊎ ((p : CompiledPolicy) × (r ≡ ok p) × (reloaded r e ≡ record e { policy = some p }))
unfolding reloaded swap
reloaded-cases (err x) e = inl refl
reloaded-cases (ok p) e = inr (p, refl, refl)

pub sighup-cases :
    (sys : System) (path : String) (e : Engine Buckets)
    → (sighup sys path e ≡ e)
      ⊎ ((p : CompiledPolicy) × (load_from_file sys path ≡ ok p)
          × (sighup sys path e ≡ record e { policy = some p }))
unfolding sighup
sighup-cases sys path e = elim (Bool-cases (path == "")) [
  | inl none_ ↦ inl (rw none_ refl)
  | inr given ↦ rw (sighup, given) (reloaded-cases (load_from_file sys path) e)
]

-- After any number of signals, whatever each found in the file, the engine has the policy it had or
-- one that a signal loaded, so that a reload that fails takes no policy away, and the rate limits
-- go on as they were.
sighups-IsReloaded :
    (syss : List System) (path : String) (e : Engine Buckets)
    → IsReloaded syss path e (sighups syss path e)
unfolding sighups
sighups-IsReloaded [] path e = record { policy = inl refl; limiter = refl }
sighups-IsReloaded (sys ∷ later) path e =
    let rest = sighups-IsReloaded later path (sighup sys path e) in
    elim (sighup-cases sys path e) [
      | inl kept ↦ record {
        policy = elim rest.policy [
          | inl same ↦ inl (same ∙ ap (λ (x : Engine Buckets). x.policy) kept)
          | inr (p, by, now) ↦ inr (p, inr by, now)
        ];
        limiter = rest.limiter ∙ ap (λ (x : Engine Buckets). x.limiter) kept;
      }
      | inr (q, loaded, swapped) ↦ record {
        policy = elim rest.policy [
          | inl same ↦ inr (q, inl loaded, same ∙ ap (λ (x : Engine Buckets). x.policy) swapped)
          | inr (p, by, now) ↦ inr (p, inr by, now)
        ];
        limiter = rest.limiter ∙ ap (λ (x : Engine Buckets). x.limiter) swapped;
      }
    ]
