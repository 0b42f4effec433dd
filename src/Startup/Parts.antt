-- ===== src/Startup/Parts.antt =====
-- cmd/mcpshield/main.go: `runServe` up to the server that it starts, with `config.Load` and
-- `policy.LoadFromFile`.
use mcpshield.Prelude.{
  String, Bool, true, false, not, none, some, [], map, if◌then◌else◌, ◌==◌, Result, ok, ◌>>=◌,
}
use mcpshield.Config.{Config, RuntimeConfig}
use mcpshield.Config.Build.{build_runtime}
use mcpshield.Metrics.{Registry, new_registry}
use mcpshield.Policy.Loader.{CompiledPolicy, load_from_bytes}
use mcpshield.Policy.RateLimit.{Buckets, fixed_window}
use mcpshield.Policy.Engine.{Engine, new_engine}
use mcpshield.Auth.{Authenticator, build_auth}
use mcpshield.Audit.Open.{AuditLog, noop, stdout, sqlite, new_logger}
use mcpshield.Transport.{HttpServer, new_http_server}
use mcpshield.Transport as Transport
use mcpshield.Upstream.{Manager, new_manager}
use mcpshield.Gateway.{Gateway, new_gateway}
use mcpshield.Gateway
use mcpshield.Startup.{
  System, Network, World, StartError, config_unreadable, config_not_decoded, policy_unreadable,
  config_refused, auth_refused, policy_refused, audit_refused, manager_refused, gateway_refused,
  server_refused, wrapped, or_failed, build_entries,
}

-- What is read from files and checked.
pub record Parts : Type 0 where
  pub config : Config
  pub runtime : RuntimeConfig
  pub authenticator : Authenticator
  pub engine : Engine Buckets
  pub audit : AuditLog

-- What `runServe` runs.
pub record Assembled (N : Type 0) : Type 0 where
  pub authenticator : Authenticator
  pub gateway : Gateway (Engine Buckets) (Manager (World N) × World N) AuditLog
  pub server : HttpServer

module _ (sys : System) where
  -- `config.Load`
  unfoldable pub load_config : String → Result StartError Config
  load_config path = do
    raw ← or_failed config_unreadable (sys.read_file path)
    or_failed config_not_decoded (sys.decode_config (sys.expand_env raw))

  -- `policy.LoadFromFile`
  unfoldable pub load_from_file : String → Result StartError CompiledPolicy
  load_from_file path = do
    text ← or_failed policy_unreadable (sys.read_file path)
    wrapped policy_refused
        (load_from_bytes sys.compile_re sys.audit.parse_duration sys.decode_policy text)

  -- the policy engine of `runServe`; no file means no policy
  unfoldable pub build_engine : String → Result StartError (Engine Buckets)
  unfolding load_from_file new_engine
  build_engine path =
      if not (path == "")
      then (load_from_file path >>= λ p. ok (new_engine fixed_window (some p) []))
      else ok (new_engine fixed_window none [])

  -- `runServe` up to the audit logger
  unfoldable pub load_parts : String → Result StartError Parts
  load_parts path = do
    cfg ← load_config path
    runtime ← wrapped config_refused (build_runtime sys.audit.parse_duration cfg)
    authenticator ←
        wrapped auth_refused
          (build_auth sys.decode_hex cfg.auth cfg.server.insecure_allow_anonymous)
    engine ← build_engine cfg.policy_file
    audit ← wrapped audit_refused (new_logger sys.audit cfg.audit)
    ok (record {
      config = cfg;
      runtime = runtime;
      authenticator = authenticator;
      engine = engine;
      audit = audit;
    })

-- The metrics of the audit logger, if it is the SQLite one.
abbrev pub audit_metrics : Registry → AuditLog → AuditLog
audit_metrics reg noop = noop
audit_metrics reg (stdout l) = stdout l
audit_metrics reg (sqlite o) = sqlite (record o {
  running = record o.running { logger = record o.running.logger { metrics = some reg } };
})

module _ {N : Type 0} where
  -- the block under `if cfg.Observability.Metrics.Enabled`
  unfoldable pub wire_metrics :
      Bool
      → Bool
      → Gateway (Engine Buckets) (Manager (World N) × World N) AuditLog
      → Gateway (Engine Buckets) (Manager (World N) × World N) AuditLog
  wire_metrics false include g = g
  wire_metrics true include g =
      let reg = new_registry include in
      Gateway.set_metrics (some reg) (record g {
        audit = audit_metrics reg g.audit;
        upstream = (
          record g.upstream.0 { metrics = some reg },
          record g.upstream.1 {
            clients = map (Transport.set_metrics (some reg)) g.upstream.1.clients;
          },
        );
      })

  module _ (nw : Network N) where
    -- the rest of `runServe` up to the server
    unfoldable pub wire_parts : Parts → N → Result StartError (Assembled N)
    unfolding wire_metrics
    wire_parts p net = do
      built ← build_entries nw 0 p.runtime.upstreams
      mgr ← wrapped manager_refused (
          new_manager built.0 p.runtime.upstream_manager.tools_cache_ttl
            p.runtime.upstream_manager.refresh_timeout)
      gw ← wrapped gateway_refused (
          new_gateway p.engine (mgr, record { clients = built.1; net = net }) p.audit
            (record {
              request_timeout = p.runtime.server.request_timeout;
              max_request_bytes = p.runtime.server.max_request_bytes;
              session_ttl = p.runtime.server.session_ttl;
              session_max_entries = p.runtime.server.session_max_entries;
            }))
      srv ← wrapped server_refused (
          new_http_server p.runtime.server.listen p.runtime.server.read_timeout
            p.runtime.server.write_timeout p.runtime.server.idle_timeout)
      ok (record {
        authenticator = p.authenticator;
        gateway = wire_metrics p.config.metrics.enabled p.config.metrics.include_client_id gw;
        server = srv;
      })

    -- `runServe` up to the server
    unfoldable pub assemble : System → String → N → Result StartError (Assembled N)
    unfolding load_parts wire_parts
    assemble sys path net = load_parts sys path >>= λ p. wire_parts p net
