-- ===== src/Metrics/Calls.antt =====
-- internal/observability/metrics.go: the methods of `Registry`, as the label values that they give to
-- the vectors of `NewRegistry`. What the client library does with them is not modelled.
use mcpshield.Prelude.{
  ℕ, String, Bool, true, false, some, List, [], ◌∷◌, map, lookup, IsMap, if◌then◌else◌, ◌≡◌, refl,
}
use mcpshield.Metrics.{Vector, new_vectors}

-- A call of one of the methods, with its arguments.
pub data Call : Type 0 where
  inc_request : String → String → String → Call
  inc_rate_limit_hit : String → String → Call
  inc_policy_deny inc_audit_dropped inc_audit_write_fail : String → Call
  inc_upstream_protocol_error inc_upstream_response_too_large inc_tools_refresh_fail : String → Call
  set_active_sessions : ℕ → Call
  inc_session_reject inc_session_eviction : String → Call

-- The name of a vector and the values that `WithLabelValues` gets, none for the gauge.
pub record Usage : Type 0 where
  pub vector : String
  pub values : List String

abbrev uses : String → List String → Usage
uses vector values = record { vector = vector; values = values }

-- the vector and the values of each method
unfoldable pub usage : Bool → Call → Usage
usage include_client_id (inc_request method tool decision) =
    uses "mcpshield_requests_total" (method ∷ tool ∷ decision ∷ [])
usage include_client_id (inc_rate_limit_hit tool client) =
    uses "mcpshield_rate_limit_hits_total"
      (if include_client_id then tool ∷ client ∷ [] else tool ∷ [])
usage include_client_id (inc_policy_deny rule) = uses "mcpshield_policy_denies_total" (rule ∷ [])
usage include_client_id (inc_audit_dropped backend) =
    uses "mcpshield_audit_dropped_total" (backend ∷ [])
usage include_client_id (inc_audit_write_fail backend) =
    uses "mcpshield_audit_write_fail_total" (backend ∷ [])
usage include_client_id (inc_upstream_protocol_error id) =
    uses "mcpshield_upstream_protocol_errors_total" (id ∷ [])
usage include_client_id (inc_upstream_response_too_large id) =
    uses "mcpshield_upstream_response_too_large_total" (id ∷ [])
usage include_client_id (inc_tools_refresh_fail id) =
    uses "mcpshield_tools_refresh_fail_total" (id ∷ [])
usage include_client_id (set_active_sessions n) = uses "mcpshield_active_sessions" []
usage include_client_id (inc_session_reject reason) =
    uses "mcpshield_session_rejects_total" (reason ∷ [])
usage include_client_id (inc_session_eviction reason) =
    uses "mcpshield_session_evictions_total" (reason ∷ [])

-- What each method says of its update, by the names of the labels. The client is said only where
-- the configuration includes it.
abbrev pub labelled : Bool → Call → List (String × String)
labelled include_client_id (inc_request method tool decision) =
    ("method", method) ∷ ("tool", tool) ∷ ("decision", decision) ∷ []
labelled include_client_id (inc_rate_limit_hit tool client) =
    ("tool", tool) ∷ (if include_client_id then ("client_id", client) ∷ [] else [])
labelled include_client_id (inc_policy_deny rule) = ("rule", rule) ∷ []
labelled include_client_id (inc_audit_dropped backend) = ("backend", backend) ∷ []
labelled include_client_id (inc_audit_write_fail backend) = ("backend", backend) ∷ []
labelled include_client_id (inc_upstream_protocol_error id) = ("upstream_id", id) ∷ []
labelled include_client_id (inc_upstream_response_too_large id) = ("upstream_id", id) ∷ []
labelled include_client_id (inc_tools_refresh_fail id) = ("upstream_id", id) ∷ []
labelled include_client_id (set_active_sessions n) = []
labelled include_client_id (inc_session_reject reason) = ("reason", reason) ∷ []
labelled include_client_id (inc_session_eviction reason) = ("reason", reason) ∷ []

-- the registered names, each with its labels
abbrev pub registered : Bool → List (String × List String)
registered include_client_id =
    map (λ (v : Vector). (v.name, v.labels)) (new_vectors include_client_id)

-- The vector is registered with the labels of the pairs, and gets their values, in their order.
pub record IsLabelled (include_client_id : Bool) (u : Usage) (pairs : List (String × String))
    : Type 0 where
  pub labels :
      lookup u.vector (registered include_client_id)
      ≡ some (map (λ (p : String × String). p.0) pairs)
  pub values : u.values ≡ map (λ (p : String × String). p.1) pairs

-- No name is registered twice.
registered-IsMap : (include_client_id : Bool) → IsMap (registered include_client_id)
unfolding new_vectors
registered-IsMap true =
    (refl, (refl, (refl, (refl, (refl, (refl, (refl, (refl, (refl, (refl, (refl, tt)))))))))))
registered-IsMap false =
    (refl, (refl, (refl, (refl, (refl, (refl, (refl, (refl, (refl, (refl, (refl, tt)))))))))))

usage-IsLabelled_lem :
    (include_client_id : Bool) (c : Call)
    → IsLabelled include_client_id (usage include_client_id c) (labelled include_client_id c)
unfolding usage new_vectors
usage-IsLabelled_lem true (inc_request method tool decision) = record {
  labels = refl;
  values = refl;
}
usage-IsLabelled_lem true c = record { labels = refl; values = refl }
usage-IsLabelled_lem false (inc_request method tool decision) = record {
  labels = refl;
  values = refl;
}
usage-IsLabelled_lem false c = record { labels = refl; values = refl }

-- `NewRegistry` registers no name twice, and each method gives the vector that it counts on as many
-- values as that has labels, each at the place of its own label, also with the client's label on or
-- off.
pub usage-IsLabelled :
    (include_client_id : Bool) (c : Call)
    → IsMap (registered include_client_id)
      × IsLabelled include_client_id (usage include_client_id c) (labelled include_client_id c)
usage-IsLabelled include_client_id c =
    (registered-IsMap include_client_id, usage-IsLabelled_lem include_client_id c)
