-- ===== src/Audit/Hashing.antt =====
-- internal/audit/hashchain.go: what is hashed, and `VerifyChain`. What SHA-256, `json.Marshal` and
-- SQLite do is in `Platform`.
use Prim.Native.String
use mcpshield.Prelude.{ℕ, String, Bool, not, Option, none, some, List, [], ◌∷◌, if◌then◌else◌, ◌==◌}

-- canonicalPayload: what the hash covers
pub record CanonicalPayload : Type 0 where
  pub event_id : String
  pub ts_unix_nano : ℕ
  pub trace_id : String
  pub span_id : String
  pub session_id : String
  pub request_id : String
  pub client_id : String
  pub method : String
  pub tool_name : String
  pub upstream_id : String
  pub decision : String
  pub policy_rule : String
  pub reason : String
  pub arguments_json : String
  pub response_json : String
  pub error_json : String
  pub duration_us : ℕ

-- StoredEvent: its first columns are those of the payload.
pub record StoredEvent : Type 0 where
  pub payload : CanonicalPayload
  pub prev_hash : String
  pub event_hash : String

-- the hex digest, the JSON text of a payload, and the order of the ids in SQLite
pub record Platform : Type 0 where
  pub sha256 : String → String
  pub marshal : CanonicalPayload → String
  pub id_before : String → String → Bool

pub data VerifyError : Type 0 where
  prev_hash_mismatch hash_mismatch : String → VerifyError

-- `LastHash`: the hash of the last row of the scan order
unfoldable pub hash_after : String → List StoredEvent → String
hash_after tip [] = tip
hash_after tip (e ∷ es) = hash_after e.event_hash es

abbrev pub stored_last_hash : List StoredEvent → String
stored_last_hash = hash_after ""

module _ (pf : Platform) where
  -- `ComputeHash`
  unfoldable pub compute_hash : String → CanonicalPayload → String
  compute_hash prev p = pf.sha256 (String.◌++◌ prev (pf.marshal p))

  -- the body of the loop of `VerifyChain`: the error, if any
  unfoldable pub verify_event : String → StoredEvent → Option VerifyError
  unfolding compute_hash
  verify_event prev e =
      if not (e.prev_hash == prev)
      then some (prev_hash_mismatch e.payload.event_id)
      else if not (e.event_hash == compute_hash prev e.payload)
      then some (hash_mismatch e.payload.event_id)
      else none

  unfoldable pub verify_from : String → List StoredEvent → Option VerifyError
  unfolding verify_event
  verify_from prev [] = none
  verify_from prev (e ∷ es) =
      let rest = verify_from e.event_hash es in
      elim (verify_event prev e) [ some err_ ↦ some err_ | none ↦ rest ]

  -- `VerifyChain`
  abbrev pub verify_chain : List StoredEvent → Option VerifyError
  verify_chain = verify_from ""

  -- the row for a payload after the hash `prev`
  abbrev pub sealed : String → CanonicalPayload → StoredEvent
  sealed prev p = record { payload = p; prev_hash = prev; event_hash = compute_hash prev p }
