-- ===== src/Gateway/Sessions.antt =====
-- The session table of internal/gateway/gateway.go: binding, lookup and eviction, under its lock.
-- A clock reading is an argument, one for each call of `timeNow`.
pub mod Evict
pub mod Invariant
pub mod Lifetime
pub mod Ownership
pub mod Capacity
use mcpshield.Prelude.{
  ℕ, zero, suc, ◌+◌, ◌-◌, String, Bool, not, Option, none, some, List, [], ◌∷◌, lookup, insert,
  delete, length, leb, ltb, if◌then◌else◌, ◌==◌, Result, ok, err, ℤ,
}
use mcpshield.Mcp.{code_invalid_request, code_unauthorized}
use mcpshield.Metrics.{Registry, active_sessions, session_rejects, session_evictions, update}

pub record Binding : Type 0 where
  pub client_id : String
  pub expires_at : ℕ

-- The fields of `Gateway` that the session functions read and write.
pub record Sessions : Type 0 where
  pub clients : List (String × Binding)
  pub ttl : ℕ
  pub max_entries : ℕ
  pub metrics : Option Registry

pub record SessionError : Type 0 where
  pub code : ℤ
  pub message : String

abbrev pub record_reject : String → Sessions → Sessions
record_reject reason g = record g { metrics = update (session_rejects reason) g.metrics }

abbrev pub record_eviction : String → Option Registry → Option Registry
record_eviction reason = update (session_evictions reason)

-- updateActiveSessionsMetricLocked
abbrev pub update_active : Sessions → Sessions
update_active g = record g { metrics = update (active_sessions (length g.clients)) g.metrics }

-- `!binding.expiresAt.After(now)`
abbrev pub is_expired : ℕ → Binding → Bool
is_expired now b = leb b.expires_at now

-- the metric of one round of the loop
abbrev pub note_expired : ℕ → Binding → Option Registry → Option Registry
note_expired now b m = if is_expired now b then record_eviction "expired" m else m

-- the loop of `evictExpiredLocked`
unfoldable pub sweep :
    ℕ → List (String × Binding) → Option Registry → List (String × Binding) × Option Registry
sweep now [] m = ([], m)
sweep now ((id, b) ∷ rest) m =
    let (kept, m') = sweep now rest (note_expired now b m) in
    (if is_expired now b then kept else (id, b) ∷ kept, m')

unfoldable pub evict_expired : ℕ → Sessions → Sessions
unfolding sweep
evict_expired now g =
    let (kept, m) = sweep now g.clients g.metrics in
    update_active (record g { clients = kept; metrics = m })

-- the inner loop of `evictOldestLocked`, from the oldest seen so far
unfoldable pub oldest_from : Option (String × ℕ) → List (String × Binding) → Option (String × ℕ)
oldest_from best [] = best
oldest_from none ((id, b) ∷ rest) = oldest_from (some (id, b.expires_at)) rest
oldest_from (some (old, t)) ((id, b) ∷ rest) =
    oldest_from (if ltb b.expires_at t then some (id, b.expires_at) else some (old, t)) rest

abbrev pub oldest : List (String × Binding) → Option (String × ℕ)
oldest = oldest_from none

unfoldable pub evict_oldest : ℕ → String → Sessions → Sessions
unfolding oldest_from
evict_oldest zero reason g = update_active g
evict_oldest (suc n) reason g = elim (oldest g.clients) [
  | none ↦ g
  | some (id, t) ↦
      let rest =
        evict_oldest n reason (record g {
          clients = delete id g.clients;
          metrics = record_eviction reason g.metrics;
        }) in
      if id == "" then g else rest
]

-- the capacity check of `bindSession`
unfoldable pub make_room : Sessions → Sessions
make_room g =
    if leb g.max_entries (length g.clients)
    then evict_oldest (length g.clients - g.max_entries + 1) "capacity" g
    else g

-- `bindSession`; the clock is read twice
unfoldable pub bind_session : String → String → ℕ → ℕ → Sessions → Sessions
unfolding make_room
bind_session id client now later g =
    let roomy = make_room (evict_expired now g) in
    update_active (record roomy {
      clients =
          insert id (record { client_id = client; expires_at = later + roomy.ttl }) roomy.clients;
    })

-- `lookupSessionClient`
unfoldable pub lookup_session : String → ℕ → Sessions → Option String × Sessions
lookup_session id now g = elim (lookup id g.clients) [
  | none ↦ (none, g)
  | some b ↦
      if is_expired now b
      then (
        none,
        update_active (record g {
          clients = delete id g.clients;
          metrics = record_eviction "expired" g.metrics;
        }),
      )
      else (
        some b.client_id,
        record g { clients = insert id (record b { expires_at = now + g.ttl }) g.clients },
      )
]

abbrev pub missing_header : SessionError
missing_header = record { code = code_invalid_request; message = "missing session header" }

abbrev pub unknown_session : SessionError
unknown_session = record { code = code_invalid_request; message = "unknown session" }

abbrev pub wrong_client : SessionError
wrong_client = record { code = code_unauthorized; message = "session does not belong to client" }

-- the checks of `resolveSession` on what the lookup returns
unfoldable pub check_owner :
    String → String → Option String × Sessions → Result SessionError String × Sessions
check_owner requested client (none, g) = (err unknown_session, record_reject "unknown" g)
check_owner requested client (some bound, g) =
    if not (bound == client)
    then (err wrong_client, record_reject "cross_client" g)
    else (ok requested, g)

-- `resolveSession`
unfoldable pub resolve_session :
    String → String → ℕ → Sessions → Result SessionError String × Sessions
unfolding lookup_session check_owner
resolve_session requested client now g =
    if requested == ""
    then (err missing_header, record_reject "missing" g)
    else check_owner requested client (lookup_session requested now g)
