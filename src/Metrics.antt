-- ===== src/Metrics.antt =====
-- internal/observability/metrics.go. Prometheus is not modelled: the registry is the sequence of
-- the updates of its counters and its gauge, the last one first, each with its label values, over
-- the vectors that were registered.
pub mod Calls
pub mod Tests
use mcpshield.Prelude.{ℕ, String, Bool, Option, none, some, List, [], ◌∷◌, if◌then◌else◌}

pub data Metric : Type 0 where
  requests : String → String → String → Metric
  rate_limit_hits : List String → Metric
  policy_denies : String → Metric
  audit_dropped : String → Metric
  audit_write_fail : String → Metric
  upstream_protocol_errors : String → Metric
  upstream_response_too_large : String → Metric
  tools_refresh_fail : String → Metric
  active_sessions : ℕ → Metric
  session_rejects : String → Metric
  session_evictions : String → Metric

-- A registered counter vector or gauge: its options and the names of its labels.
pub record Vector : Type 0 where
  pub name : String
  pub help : String
  pub labels : List String

pub record Registry : Type 0 where
  pub vectors : List Vector
  pub updates : List Metric
  pub include_client_id : Bool

abbrev pub rate_limit_labels : Bool → List String
rate_limit_labels include_client_id =
    if include_client_id then "tool" ∷ "client_id" ∷ [] else "tool" ∷ []

abbrev vector : String → String → List String → Vector
vector name help labels = record { name = name; help = help; labels = labels }

-- what `NewRegistry` makes, in its order
unfoldable pub new_vectors : Bool → List Vector
new_vectors include_client_id =
    vector "mcpshield_requests_total" "Total MCP requests processed."
      ("method" ∷ "tool" ∷ "decision" ∷ [])
    ∷ vector "mcpshield_rate_limit_hits_total" "Total rate limit hits."
        (rate_limit_labels include_client_id)
    ∷ vector "mcpshield_policy_denies_total" "Total policy deny decisions." ("rule" ∷ [])
    ∷ vector "mcpshield_audit_dropped_total"
        "Total audit events dropped (queue full or DB write failure)." ("backend" ∷ [])
    ∷ vector "mcpshield_audit_write_fail_total" "Total audit batch write failures (DB errors)."
        ("backend" ∷ [])
    ∷ vector "mcpshield_upstream_protocol_errors_total"
        "Total upstream responses failing JSON-RPC 2.0 protocol validation." ("upstream_id" ∷ [])
    ∷ vector "mcpshield_upstream_response_too_large_total"
        "Total upstream responses exceeding the configured size limit." ("upstream_id" ∷ [])
    ∷ vector "mcpshield_tools_refresh_fail_total"
        "Total upstream tools/list cache refresh failures." ("upstream_id" ∷ [])
    ∷ vector "mcpshield_active_sessions"
        "Current number of live MCP HTTP sessions in the gateway cache." []
    ∷ vector "mcpshield_session_rejects_total" "Total rejected session validations." ("reason" ∷ [])
    ∷ vector "mcpshield_session_evictions_total"
        "Total expired or capacity-driven session evictions." ("reason" ∷ [])
    ∷ []

unfoldable pub new_registry : Bool → Registry
unfolding new_vectors
new_registry include_client_id = record {
  vectors = new_vectors include_client_id;
  updates = [];
  include_client_id = include_client_id;
}

-- `if g.metrics != nil { g.metrics.… }`
unfoldable pub update : Metric → Option Registry → Option Registry
update m none = none
update m (some r) = some (record r { updates = m ∷ r.updates })

-- `IncRateLimitHit`: the client is a label only where the registry says so
unfoldable pub inc_rate_limit_hit : String → String → Option Registry → Option Registry
unfolding update
inc_rate_limit_hit tool client none = none
inc_rate_limit_hit tool client (some r) =
    update (rate_limit_hits (if r.include_client_id then tool ∷ client ∷ [] else tool ∷ []))
      (some r)
