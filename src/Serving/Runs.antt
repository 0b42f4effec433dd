-- ===== src/Serving/Runs.antt =====
-- cmd/mcpshield/main.go: what `runServe` runs side by side, as steps on the gateway that they share:
-- the requests, the reloads on SIGHUP, the first load and the refreshes of the tools, and the writer
-- of the audit log.
use mcpshield.Prelude.{
  ℕ, String, true, false, Option, none, some, List, [], ◌∷◌, inl, inr, ◌≡◌, refl, sym, ap, ◌∙◌,
  subst, ok, ◌++◌, Any, ◌==◌, if-elim, not,
}
use mcpshield.Mcp.{ToolsCallRequest}
use mcpshield.Metrics.{Registry}
use mcpshield.Policy.Loader.{CompiledPolicy, Decision}
use mcpshield.Policy.Loader
use mcpshield.Policy.RateLimit.{Buckets, fixed_window}
use mcpshield.Policy.Engine.{Engine, evaluate_loaded, evaluate}
use mcpshield.Auth.{Authenticator}
use mcpshield.Audit.Open.{AuditLog}
use mcpshield.Audit.Hashing.{Platform}
use mcpshield.Audit.Service.{Turn}
use mcpshield.Upstream.{Manager, warmup_begin, warmup_end, bg_run}
use mcpshield.Gateway.Sessions.{Sessions}
use mcpshield.Gateway.Sessions.Invariant.{IsValid, bind_session-IsValid, resolve_session-IsValid}
use mcpshield.Gateway.Serve.{HttpRequest}
use mcpshield.Gateway.Serve.Kept.{Keeps, serve_http-Keeps}
use mcpshield.Startup.{System, World}
use mcpshield.Startup.Parts.{load_from_file}
use mcpshield.Startup.Reload.{sighup, sighup-cases}
use mcpshield.Serving.{Libraries, Moment, ServerGateway, services, authenticated, serve}

-- The system, with its files as a signal finds them.
abbrev pub at_files : System → (String → Option String) → System
at_files sys files = record sys { read_file = files }

evaluate_loaded-policy :
    (o : Option CompiledPolicy) (e : Engine Buckets) (client : String) (now : ℕ)
    (call : ToolsCallRequest)
    → (evaluate_loaded fixed_window o e client now call).1.policy ≡ e.policy
unfolding evaluate_loaded
evaluate_loaded-policy none e client now call = refl
evaluate_loaded-policy (some p) e client now call =
    if-elim (λ (r : Decision × Engine Buckets). r.1.policy ≡ e.policy)
      (not ((Loader.evaluate p call).action == "allow")) (λ _. refl) (λ _. refl)

-- A decision leaves the policy of the engine alone.
evaluate-policy :
    (e : Engine Buckets) (client : String) (now : ℕ) (call : ToolsCallRequest)
    → (evaluate fixed_window e client now call).1.policy ≡ e.policy
unfolding evaluate
evaluate-policy e client now call = evaluate_loaded-policy e.policy e client now call

counted-IsValid :
    (m : Option Registry) (g : Sessions) → IsValid g → IsValid (record g { metrics = m })
counted-IsValid m g v = record {
  positive = v.positive;
  distinct = v.distinct;
  named = v.named;
  bounded = v.bounded;
}

-- The policy was loaded from the file, as one of the reloads or the start found it.
abbrev pub ReadFrom : System → String → List (String → Option String) → CompiledPolicy → Type 0
ReadFrom sys path fs p = Any (λ files. load_from_file (at_files sys files) path ≡ ok p) fs

-- A reload that fails keeps the policy.
sighup-ReadFrom :
    (sys : System) (path : String) (files : String → Option String)
    (fs : List (String → Option String)) (e : Engine Buckets)
    → ((p : CompiledPolicy) → e.policy ≡ some p → ReadFrom sys path fs p)
    → (p : CompiledPolicy) → (sighup (at_files sys files) path e).policy ≡ some p
    → ReadFrom sys path (files ∷ fs) p
sighup-ReadFrom sys path files fs e before p now = elim (sighup-cases (at_files sys files) path e) [
  | inl kept ↦ inr (before p (ap (λ (x : Engine Buckets). x.policy) (sym kept) ∙ now))
  | inr (q, loaded, swapped) ↦
      let same : some q ≡ some p = ap (λ (x : Engine Buckets). x.policy) (sym swapped) ∙ now in
      inl (subst (λ x. load_from_file (at_files sys files) path ≡ ok x) (cc) loaded)
]

module _ {N : Type 0} (lib : Libraries) (pf : Platform) (a : Authenticator) where
  -- One step beside the reloads: a request, with a new session id that is not empty; the start and
  -- the end of a warm-up; the end of a background refresh; a turn of the audit log. A request is one
  -- step: what the code does of two requests at once is taken to be as one after the other.
  pub data Step : ServerGateway N → ServerGateway N → Type 0 where
    requested :
        (g : ServerGateway N) (t : Moment) (http : HttpRequest)
        → (t.fresh == "") ≡ false
        → Step g (serve lib a t http g).1
    warming :
        (g : ServerGateway N) (m : Manager (World N))
        → warmup_begin g.upstream.0 ≡ some m
        → Step g (record g { upstream = (m, g.upstream.1) })
    warmed :
        (g : ServerGateway N) (later : ℕ)
        → g.upstream.0.loading ≡ true
        → Step g (record g {
          upstream = (
            (warmup_end later g.upstream.0 g.upstream.1).1,
            (warmup_end later g.upstream.0 g.upstream.1).2,
          );
        })
    refreshed :
        (g : ServerGateway N) (later : ℕ)
        → g.upstream.0.bg_refresh ≡ true
        → Step g (record g { upstream = bg_run later g.upstream.0 g.upstream.1 })
    written :
        (g : ServerGateway N) (l : AuditLog) → Turn pf g.audit l → Step g (record g { audit = l })

  module _ (sys : System) (path : String) where
    -- A run, with the files as its reloads found them, the last one first.
    pub data Run : List (String → Option String) → ServerGateway N → ServerGateway N → Type 0 where
      start : (g : ServerGateway N) → Run [] g g
      then_step :
          {fs : List (String → Option String)} {g h k : ServerGateway N}
          → Run fs g h
          → Step h k
          → Run fs g k
      then_reload :
          {fs : List (String → Option String)} {g h : ServerGateway N}
          → Run fs g h
          → (files : String → Option String)
          → Run (files ∷ fs) g (record h { policy = sighup (at_files sys files) path h.policy })

    -- What holds between the steps: the sessions are valid, and the policy is one of the file.
    pub record IsSound (fs : List (String → Option String)) (g : ServerGateway N) : Type 0 where
      pub sessions : IsValid g.sessions
      pub policy : (p : CompiledPolicy) → g.policy.policy ≡ some p → ReadFrom sys path fs p

    IsSound-Keeps :
        (fs : List (String → Option String)) (t : Moment)
        → (t.fresh == "") ≡ false
        → Keeps (services lib t.log) t.fresh (IsSound fs)
    IsSound-Keeps fs t named = record {
      logged = λ e g h. record { sessions = h.sessions; policy = h.policy };
      counted =
          λ m g h. record { sessions = counted-IsValid m g.sessions h.sessions; policy = h.policy };
      resolved = λ requested client now g h. record {
        sessions = resolve_session-IsValid requested client now g.sessions h.sessions;
        policy = h.policy;
      };
      bound = λ client now later g h. record {
        sessions = bind_session-IsValid t.fresh client now later g.sessions named h.sessions;
        policy = h.policy;
      };
      evaluated = λ client now call g h. record {
        sessions = h.sessions;
        policy = λ p loaded. h.policy p (sym (evaluate-policy g.policy client now call) ∙ loaded);
      };
      listed = λ now g h. record { sessions = h.sessions; policy = h.policy };
      called = λ now call g h. record { sessions = h.sessions; policy = h.policy };
    }

    Step-IsSound :
        {fs : List (String → Option String)} {g h : ServerGateway N}
        → Step g h
        → IsSound fs g
        → IsSound fs h
    unfolding serve
    Step-IsSound {fs} (requested g t http named) s =
        serve_http-Keeps (services lib t.log) t.fresh (IsSound fs) (IsSound-Keeps fs t named)
          lib.codec (authenticated lib a) t.clock http g s
    Step-IsSound (warming g m begun) s = record { sessions = s.sessions; policy = s.policy }
    Step-IsSound (warmed g later loading) s = record { sessions = s.sessions; policy = s.policy }
    Step-IsSound (refreshed g later marked) s = record { sessions = s.sessions; policy = s.policy }
    Step-IsSound (written g l turn) s = record { sessions = s.sessions; policy = s.policy }

    pub Run-IsSound :
        {fs : List (String → Option String)} {g h : ServerGateway N}
        → Run fs g h
        → IsSound (sys.read_file ∷ []) g
        → IsSound (fs ++ sys.read_file ∷ []) h
    Run-IsSound (start g) s = s
    Run-IsSound (then_step before last) s = Step-IsSound last (Run-IsSound before s)
    Run-IsSound (then_reload {h} before files) s =
        let b = Run-IsSound before s in
        record {
          sessions = b.sessions;
          policy = sighup-ReadFrom sys path files _ h.policy b.policy;
        }
