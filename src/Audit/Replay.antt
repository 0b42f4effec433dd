-- ===== src/Audit/Replay.antt =====
-- internal/audit: the scans of sqlite_store.go, export.go and replay.go. The encoders and decoders of
-- JSON and the format of a time stamp are parameters; a line that is printed is a record or a text.
use mcpshield.Prelude.{ℕ, suc, leb, String, Bool, not, List, [], ◌∷◌, map, if◌then◌else◌, ◌==◌}
use mcpshield.Mcp.{Object, ToolsCallRequest}
use mcpshield.Policy.Loader.{Decision}
use mcpshield.Policy.Engine.{PolicyEngine}
use mcpshield.Audit.Hashing.{CanonicalPayload, StoredEvent}

-- The rows with a property, in their order.
abbrev pub filter {ℓ} : {A : Type ℓ} → (A → Bool) → List A → List A
filter p [] = []
filter p (x ∷ xs) = let rest = filter p xs in if p x then x ∷ rest else rest

-- `Scan`; the zero time is 0
unfoldable pub scan : ℕ → List StoredEvent → List StoredEvent
scan since = filter (λ e. leb since e.payload.ts_unix_nano)

-- `ScanSession`
unfoldable pub scan_session : String → List StoredEvent → List StoredEvent
scan_session session = filter (λ e. e.payload.session_id == session)

-- `ExportJSONL`: the lines
unfoldable pub export_jsonl : (StoredEvent → String) → ℕ → List StoredEvent → List String
unfolding scan
export_jsonl encode since rows = map encode (scan since rows)

-- A line of `ReplayReadOnly`.
pub record TimelineLine : Type 0 where
  pub ts : String
  pub method : String
  pub session_id : String
  pub client_id : String
  pub tool : String
  pub decision : String
  pub upstream_id : String
  pub duration_us : ℕ
  pub has_error : String

-- A line of `ReplayPolicyCheck`.
pub record DiffLine : Type 0 where
  pub ts : String
  pub tag : String
  pub tool : String
  pub old : String
  pub new : String
  pub rule : String
  pub reason : String

abbrev pub timeline_line : (ℕ → String) → CanonicalPayload → TimelineLine
timeline_line format e = record {
  ts = format e.ts_unix_nano;
  method = e.method;
  session_id = e.session_id;
  client_id = e.client_id;
  tool = e.tool_name;
  decision = e.decision;
  upstream_id = e.upstream_id;
  duration_us = e.duration_us;
  has_error = if not (e.error_json == "") then "error" else "ok";
}

-- `ReplayReadOnly`
unfoldable pub replay_read_only : (ℕ → String) → String → List StoredEvent → List TimelineLine
unfolding scan_session
replay_read_only format session rows =
    map (λ e. timeline_line format e.payload) (scan_session session rows)

-- the line for a row and what the engine decided
abbrev pub diff_line : (ℕ → String) → CanonicalPayload → Decision → DiffLine
diff_line format e d = record {
  ts = format e.ts_unix_nano;
  tag = if not (d.action == e.decision) then "CHANGED" else "=";
  tool = e.tool_name;
  old = e.decision;
  new = d.action;
  rule = d.rule;
  reason = d.reason;
}

-- the call that a row records; arguments that do not decode are empty, like absent ones
abbrev pub recorded_call : (String → Object) → CanonicalPayload → ToolsCallRequest
recorded_call unmarshal e = record {
  name = e.tool_name;
  arguments = if not (e.arguments_json == "") then unmarshal e.arguments_json else [];
}

module _ {S : Type 0} (engine : PolicyEngine S) (unmarshal : String → Object)
    (format : ℕ → String) where
  -- the loop over the rows, from the engine's state `s` on; `clock n` is its n-th reading
  unfoldable pub replay_rows : (ℕ → ℕ) → List StoredEvent → S → List DiffLine
  replay_rows clock [] s = []
  replay_rows clock (e ∷ es) s =
      let skip = replay_rows clock es s in
      let (d, s') =
        engine.evaluate s e.payload.client_id (clock 0) (recorded_call unmarshal e.payload) in
      let rest = replay_rows (λ n. clock (suc n)) es s' in
      if not (e.payload.method == "tools/call") then skip else diff_line format e.payload d ∷ rest

  -- `ReplayPolicyCheck`
  unfoldable pub replay_policy_check : (ℕ → ℕ) → String → List StoredEvent → S → List DiffLine
  unfolding scan_session replay_rows
  replay_policy_check clock session rows s = replay_rows clock (scan_session session rows) s
