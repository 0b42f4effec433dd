-- ===== src/Serving/Guarded.antt =====
-- cmd/mcpshield/main.go: what a server that `serve` started lets through to the upstreams, from the
-- configuration file and the policy file on.
use mcpshield.Prelude.{
  String, true, Option, none, some, List, ◌∷◌, [], inl, inr, ◌⊎◌, ◌≡◌, refl, ap, sym, ◌∙◌, subst,
  any, Any, Result, ok, err, arith, >>=-eq-ok, ok_injective, Option-cases, ◌++◌, ◌≤◌, length,
  lookup, IsMap,
}
use mcpshield.Config.{Config, AuthKeyConfig}
use mcpshield.Mcp.{Request, ToolsCallRequest}
use mcpshield.Policy.Loader.{PolicyFile, CompiledPolicy, compile, load_from_bytes}
use mcpshield.Policy.Loader.Evaluate.{IsPermitted, evaluate-IsPermitted_iff}
use mcpshield.Policy.Loader.Surface.{grants, compile_deny_by_default}
use mcpshield.Auth.{authenticate}
use mcpshield.Auth.Listed.{Keyed}
use mcpshield.Auth.Accept.{Open}
use mcpshield.Audit.Hashing.{Platform}
use mcpshield.Policy.RateLimit.{Buckets}
use mcpshield.Policy.Engine.{Engine}
use mcpshield.Gateway.Sessions.{Sessions, Binding}
use mcpshield.Gateway.Sessions.Ownership.{Owns}
use mcpshield.Gateway.Sessions.Invariant.{IsValid}
use mcpshield.Gateway.Serve.{HttpRequest}
use mcpshield.Gateway.Serve.Cases.{Carries}
use mcpshield.Gateway.Handlers.{call_params}
use mcpshield.Startup.{System, Network, policy_unreadable, policy_refused, wrapped, or_failed}
use mcpshield.Startup.Parts.{Assembled, load_config, load_from_file, assemble}
use mcpshield.Startup.Started.{IsGuarded, assemble-IsGuarded}
use mcpshield.Startup.Loaded.{HasPolicy}
use mcpshield.Serving.{Libraries, Moment, ServerGateway, services, serve}
use mcpshield.Serving.Entitled.{serve-Entitled}
use mcpshield.Serving.Runs.{at_files, Run, ReadFrom, IsSound, Run-IsSound}

-- One of the states of the files has a policy file at the path, which compiles to `p`; an allow rule
-- of it names the tool of the call.
pub record Allows (sys : System) (path : String) (fs : List (String → Option String))
    (p : CompiledPolicy) (call : ToolsCallRequest) : Type 0 where
  pub files : String → Option String
  pub found : Any (λ f. f ≡ files) fs
  pub text : String
  pub read : files path ≡ some text
  pub file : PolicyFile
  pub decoded : sys.decode_policy text ≡ some file
  pub compiled : compile sys.compile_re sys.audit.parse_duration file ≡ ok p
  pub granted : any (grants file.toolsets call.name) file.rules ≡ true

wrapped-eq-ok {ℓ κ μ} :
    {E : Type ℓ} {F : Type κ} {A : Type μ} (f : E → F) (r : Result E A) {a : A}
    → wrapped f r ≡ ok a
    → r ≡ ok a
wrapped-eq-ok f (err e) h = absurd (cc)
wrapped-eq-ok f (ok a) h = cc

or_failed-eq-ok {ℓ κ} :
    {E : Type ℓ} {A : Type κ} (e : E) (o : Option A) {a : A} → or_failed e o ≡ ok a → o ≡ some a
or_failed-eq-ok e none h = absurd (cc)
or_failed-eq-ok e (some a) h = cc

-- An element that has the property, and its place.
Any-find :
    {A : Type 0} {P : A → Type 0} (xs : List A) → Any P xs → (x : A) × Any (λ y. y ≡ x) xs × P x
Any-find [] h = absurd h
Any-find (x ∷ xs) (inl here) = (x, inl refl, here)
Any-find (x ∷ xs) (inr later) = let (y, found, h) = Any-find xs later in (y, inr found, h)

-- A table without sessions is valid.
empty-IsValid : (g : Sessions) → 1 ≤ g.max_entries → g.clients ≡ [] → IsValid g
empty-IsValid g room none_ = record {
  positive = omega arith;
  distinct = subst IsMap (sym none_) tt;
  named = ap (lookup "") none_;
  bounded = omega (arith, ap (λ (m : List (String × Binding)). length m) none_);
}

HasPolicy-ReadFrom :
    (sys : System) (path : String) (e : Engine Buckets)
    → HasPolicy sys path e
    → (p : CompiledPolicy) → e.policy ≡ some p
    → ReadFrom sys path (sys.read_file ∷ []) p
HasPolicy-ReadFrom sys path e (inl (unset, none_)) p now = absurd (ground (arith, none_, now))
HasPolicy-ReadFrom sys path e (inr (q, loaded, has)) p now =
    let same : some q ≡ some p = sym has ∙ now in
    inl (subst (λ x. load_from_file sys path ≡ ok x) (cc) loaded)

module _ (sys : System) where
  load_from_bytes-eq-ok :
      (text : String) (p : CompiledPolicy)
      → load_from_bytes sys.compile_re sys.audit.parse_duration sys.decode_policy text ≡ ok p
      → (pf : PolicyFile) × (sys.decode_policy text ≡ some pf)
        × (compile sys.compile_re sys.audit.parse_duration pf ≡ ok p)
  unfolding load_from_bytes
  load_from_bytes-eq-ok text p h = elim (Option-cases (sys.decode_policy text)) [
    | inl odd ↦ absurd (ground (arith, odd, h))
    | inr (pf, d) ↦
        let same : load_from_bytes sys.compile_re sys.audit.parse_duration sys.decode_policy text
            ≡ compile sys.compile_re sys.audit.parse_duration pf =
          rw (load_from_bytes, d) in
        (pf, d, sym same ∙ h)
  ]

  load_from_file-Allows :
      (path : String) (fs : List (String → Option String)) (files : String → Option String)
      (p : CompiledPolicy) (call : ToolsCallRequest)
      → IsPermitted p call
      → Any (λ f. f ≡ files) fs
      → load_from_file (at_files sys files) path ≡ ok p
      → Allows sys path fs p call
  unfolding load_from_file
  load_from_file-Allows path fs files p call permitted found loaded =
      let (text, read, rest) = >>=-eq-ok (or_failed policy_unreadable (files path)) _ loaded in
      let (file, decoded, compiled) =
        load_from_bytes-eq-ok text p (wrapped-eq-ok policy_refused _ rest) in
      record {
        files = files;
        found = found;
        text = text;
        read = or_failed-eq-ok policy_unreadable (files path) read;
        file = file;
        decoded = decoded;
        compiled = compiled;
        granted =
            compile_deny_by_default sys.compile_re sys.audit.parse_duration file p call compiled
              ((evaluate-IsPermitted_iff p call).1 permitted);
      }

  ReadFrom-Allows :
      (path : String) (fs : List (String → Option String)) (p : CompiledPolicy)
      (call : ToolsCallRequest)
      → IsPermitted p call
      → ReadFrom sys path fs p
      → Allows sys path fs p call
  ReadFrom-Allows path fs p call permitted h =
      let (files, found, loaded) = Any-find fs h in
      load_from_file-Allows path fs files p call permitted found loaded

-- The header has a token of a key that is configured for the client, or all are let in.
abbrev pub Credentials : System → Libraries → Config → String → String → Type 0
Credentials sys lib cfg header client =
    Keyed sys.decode_hex lib.sum256 (λ (k : AuthKeyConfig). k.key_hash) (λ k. k.client_id)
      cfg.auth.keys header client
    ⊎ Open cfg.auth cfg.server.insecure_allow_anonymous client

-- The request is a call of a tool by a client that has a key in the configuration (or all are let
-- in), that owns the live session of its header, and whose call the policy in force permits, which
-- is that of the policy file at the start or at a reload.
pub record Granted {N : Type 0} (sys : System) (lib : Libraries) (cfg : Config)
    (fs : List (String → Option String)) (t : Moment) (http : HttpRequest) (g : ServerGateway N)
    : Type 0 where
  pub client : String
  pub credentials : Credentials sys lib cfg http.authorization client
  pub owns : Owns client http.session t.clock.resolved g.sessions
  pub req : Request
  pub carried : Carries lib.codec http req
  pub named : req.method ≡ "tools/call"
  pub call : ToolsCallRequest
  pub parsed : call_params (services {N = N} lib t.log) req ≡ some call
  pub policy : CompiledPolicy
  pub loaded : g.policy.policy ≡ some policy
  pub permitted : IsPermitted policy call
  pub allows : Allows sys cfg.policy_file (fs ++ sys.read_file ∷ []) policy call

module _ {N : Type 0} (nw : Network N) (sys : System) (lib : Libraries) (pf : Platform)
    (path : String) (net : N) (cfg : Config) (s : Assembled N)
    (read : load_config sys path ≡ ok cfg) (started : assemble nw sys path net ≡ ok s) where
  started-IsGuarded : IsGuarded sys lib.sum256 path s
  started-IsGuarded = assemble-IsGuarded nw sys lib.sum256 path net s started

  started-config : started-IsGuarded.config ≡ cfg
  started-config = ok_injective (sym started-IsGuarded.loaded ∙ read)

  started-Credentials :
      (header client : String)
      → authenticate lib.sum256 s.authenticator header ≡ ok client
      → Credentials sys lib cfg header client
  started-Credentials header client passed =
      subst (λ c. Credentials sys lib c header client) started-config
        (started-IsGuarded.accepts header client passed)

  started-IsSound :
      IsSound lib pf s.authenticator sys cfg.policy_file (sys.read_file ∷ []) s.gateway
  started-IsSound = record {
    sessions = empty-IsValid s.gateway.sessions started-IsGuarded.limits.1 started-IsGuarded.empty;
    policy = HasPolicy-ReadFrom sys cfg.policy_file s.gateway.policy (
        subst (λ (c : Config). HasPolicy sys c.policy_file s.gateway.policy) started-config
          started-IsGuarded.policy);
  }

  -- At any point of any run of a server that started, a request leaves the network and the clients
  -- of the upstreams as they are, unless it is granted: a call of a tool that an allow rule of a
  -- loaded policy file names and whose validators pass, by the client of a configured key (or by
  -- anyone, if the configuration says so twice) that owns its session. The sessions are valid.
  pub started-Granted :
      {fs : List (String → Option String)} {g : ServerGateway N}
      → Run lib pf s.authenticator sys cfg.policy_file fs s.gateway g
      → (t : Moment) (http : HttpRequest)
      → IsValid g.sessions
        × (((serve lib s.authenticator t http g).1.upstream.1 ≡ g.upstream.1)
            ⊎ Granted sys lib cfg fs t http g)
  started-Granted {fs} {g} run t http =
      let sound = Run-IsSound lib pf s.authenticator sys cfg.policy_file run started-IsSound in
      (
        sound.sessions,
        elim (serve-Entitled lib s.authenticator t http g) [
          | inl same ↦ inl same
          | inr e ↦ inr (record {
            client = e.client;
            credentials = started-Credentials http.authorization e.client e.authentic;
            owns = e.owns;
            req = e.req;
            carried = e.carried;
            named = e.named;
            call = e.call;
            parsed = e.parsed;
            policy = e.policy;
            loaded = e.loaded;
            permitted = e.permitted;
            allows =
                ReadFrom-Allows sys cfg.policy_file (fs ++ sys.read_file ∷ []) e.policy e.call
                  e.permitted (sound.policy e.policy e.loaded);
          })
        ],
      )
