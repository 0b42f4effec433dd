-- ===== src/Startup/Commands.antt =====
-- cmd/mcpshield/main.go: the other commands, validate-upstream, validate-policy, audit verify, audit
-- export and replay. A command's result is what it prints, or its error.
use mcpshield.Prelude.{
  ℕ, String, false, Option, none, some, List, [], ◌∷◌, length, if◌then◌else◌, ◌==◌, Result, ok, err,
  ◌>>=◌,
}
use mcpshield.Mcp.{Object}
use mcpshield.Config.{UpstreamConfig, UpstreamRuntimeConfig}
use mcpshield.Config.Build.{build_runtime}
use mcpshield.Policy.RateLimit.{fixed_window}
use mcpshield.Policy.Engine.{new_engine, yaml_engine}
use mcpshield.Audit.Hashing.{Platform, StoredEvent, VerifyError, verify_chain}
use mcpshield.Audit.Open.{new_sqlite_store}
use mcpshield.Audit.Replay.{
  TimelineLine, DiffLine, export_jsonl, replay_read_only, replay_policy_check,
}
use mcpshield.Transport.{new_http_client}
use mcpshield.Upstream.{Manager, ManagerError, new_manager, tools_list}
use mcpshield.Startup.{
  System, Network, StartError, config_refused, client_refused, manager_refused, audit_refused,
  wrapped, http_client,
}
use mcpshield.Startup.Parts.{load_config, load_from_file}
use mcpshield.Startup.Warmup.{warmup}

pub data CommandError : Type 0 where
  start : StartError → CommandError
  upstream_not_found index_out_of_range : CommandError
  warmup_failed list_failed : ManagerError → CommandError
  chain_broken : VerifyError → CommandError
  bad_since policy_required unknown_mode : CommandError

-- What `runReplayTo` writes.
pub data Replayed : Type 0 where
  timeline : List TimelineLine → Replayed
  compared : List DiffLine → Replayed

-- the loop of `runValidateUpstream`, which takes the runtime settings at the same index
unfoldable pub find_upstream :
    String
    → List UpstreamConfig
    → List UpstreamRuntimeConfig
    → Result CommandError (UpstreamConfig × UpstreamRuntimeConfig)
find_upstream id [] rs = err upstream_not_found
find_upstream id (u ∷ us) [] =
    let rest = find_upstream id us [] in if u.id == id then err index_out_of_range else rest
find_upstream id (u ∷ us) (r ∷ rs) =
    let rest = find_upstream id us rs in if u.id == id then ok (u, r) else rest

abbrev pub chain_result : Option VerifyError → Result CommandError (Unit {0})
chain_result none = ok tt
chain_result (some e) = err (chain_broken e)

abbrev pub since_time : (String → Option ℕ) → String → Result CommandError ℕ
since_time parse_time since =
    if since == "" then ok 0 else (elim (parse_time since) [ none ↦ err bad_since | some t ↦ ok t ])

-- the end of `runValidateUpstream`, from what the warm-up came to: the number of tools
abbrev pub warmed_tools :
    {W : Type 0} → ℕ → Result ManagerError (Unit {0}) × Manager W × W → Result CommandError ℕ
warmed_tools now (r, mgr, w) = do
  _ ← wrapped warmup_failed r
  tools ← wrapped list_failed (tools_list now mgr).0
  ok (length tools)

module _ (sys : System) where
  -- `runValidatePolicy`
  unfoldable pub validate_policy : String → Result CommandError (Unit {0})
  validate_policy path = do _ ← wrapped start (load_from_file sys path); ok tt

  -- the store of the commands on an audit database, as `NewSQLiteStore` opens it
  unfoldable pub open_store : String → Result CommandError (List StoredEvent)
  open_store path =
      wrapped (λ e. start (audit_refused e))
        (new_sqlite_store sys.audit
          (record { path = path; wal = false; busy_timeout = ""; synchronous = "" }))

  -- `runAuditVerify`
  unfoldable pub audit_verify : Platform → String → Result CommandError (Unit {0})
  audit_verify pf path = open_store path >>= λ rows. chain_result (verify_chain pf rows)

  -- `runAuditExport`; `parse_time` is `time.Parse` of RFC 3339
  unfoldable pub audit_export :
      (StoredEvent → String)
      → (String → Option ℕ)
      → String
      → String
      → Result CommandError (List String)
  audit_export encode parse_time path since = do
    rows ← open_store path
    t ← since_time parse_time since
    ok (export_jsonl encode t rows)

  -- the case "policy-check" of `runReplayTo`
  unfoldable pub check_policy :
      (String → Object)
      → (ℕ → String)
      → (ℕ → ℕ)
      → String
      → String
      → List StoredEvent
      → Result CommandError Replayed
  check_policy unmarshal format clock session policy_file rows =
      if policy_file == ""
      then err policy_required
      else (wrapped start (load_from_file sys policy_file) >>= λ p. ok (
          compared (
            replay_policy_check (yaml_engine fixed_window) unmarshal format clock session rows
              (new_engine fixed_window (some p) []))))

  -- `runReplayTo`; `clock` and `format` are the readings of the clock and the format of a time stamp
  unfoldable pub replay_to :
      (String → Object)
      → (ℕ → String)
      → (ℕ → ℕ)
      → String
      → String
      → String
      → String
      → Result CommandError Replayed
  unfolding check_policy
  replay_to unmarshal format clock path session mode policy_file = open_store path >>= λ rows.
      if mode == "read-only"
      then ok (timeline (replay_read_only format session rows))
      else if mode == "policy-check"
      then check_policy unmarshal format clock session policy_file rows
      else err unknown_mode

  module _ {N : Type 0} (nw : Network N) where
    -- `runValidateUpstream` once the upstream is found: the number of its tools. `later` and `now`
    -- are the clock after the refresh and at the listing.
    unfoldable pub probe_upstream :
        ℕ → ℕ → UpstreamConfig → UpstreamRuntimeConfig → N → Result CommandError ℕ
    probe_upstream later now u r net = do
      c ←
          wrapped (λ e. start (client_refused u.id e))
            (new_http_client u.id u.url u.headers r.request_timeout r.max_response_bytes)
      mgr ←
          wrapped (λ e. start (manager_refused e))
            (new_manager
              (record { id = u.id; tool_prefix = u.tool_prefix; client = http_client nw 0 } ∷ [])
              r.tools_cache_ttl r.refresh_timeout)
      warmed_tools now (warmup later mgr (record { clients = c ∷ []; net = net }))

    -- `runValidateUpstream`
    unfoldable pub validate_upstream : ℕ → ℕ → String → String → N → Result CommandError ℕ
    validate_upstream later now path id net = do
      cfg ← wrapped start (load_config sys path)
      runtime ← wrapped (λ e. start (config_refused e)) (build_runtime sys.audit.parse_duration cfg)
      found ← find_upstream id cfg.upstreams runtime.upstreams
      probe_upstream later now found.0 found.1 net
