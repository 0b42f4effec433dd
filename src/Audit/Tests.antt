-- ===== src/Audit/Tests.antt =====
-- A platform whose digest is the text itself, and logs of one or two rows.
use Prim.Native.String
use mcpshield.Prelude.{
  ℕ, ◌*◌, length, String, Bool, true, false, some, none, List, [], ◌∷◌, ◌≡◌, ◌≢◌, refl, eq_iff,
  arith,
}
use mcpshield.Audit.Hashing.{
  CanonicalPayload, StoredEvent, Platform, compute_hash, verify_event, verify_from, verify_chain,
  hash_after,
}
use mcpshield.Audit.Logger.{SqliteLogger, WriteMode}
use mcpshield.Audit.Logger.{fail_closed}
use mcpshield.Audit.Writer.{seal_batch, flush_batch, Retention}
use mcpshield.Audit.Table.{trim_to_size}
use mcpshield.Audit.Chain.{verify_chain-tampered}
use mcpshield.Audit.Flush.{IsIntact, InOrder, flush_batch-IsIntact}
use mcpshield.Audit.Trim.{Trimmed, trim_to_size-Trimmed}

abbrev pub plain : Platform
plain = record {
  sha256 = λ s. s;
  marshal = λ p. String.◌++◌ p.event_id p.tool_name;
  id_before = λ a b. false;
}

abbrev pub event : String → ℕ → String → CanonicalPayload
event id ts tool = record {
  event_id = id;
  ts_unix_nano = ts;
  trace_id = "";
  span_id = "";
  session_id = "";
  request_id = "";
  client_id = "ann";
  method = "tools/call";
  tool_name = tool;
  upstream_id = "";
  decision = "allow";
  policy_rule = "";
  reason = "";
  arguments_json = "";
  response_json = "";
  error_json = "";
  duration_us = 3;
}

abbrev pub first_row : StoredEvent
first_row = record { payload = event "1" 5 "read"; prev_hash = ""; event_hash = "1read" }

abbrev pub second_row : StoredEvent
second_row = record { payload = event "2" 8 "stat"; prev_hash = "1read"; event_hash = "1read2stat" }

two_rows-verify : verify_chain plain (first_row ∷ second_row ∷ []) ≡ none
unfolding verify_from verify_event compute_hash
two_rows-verify = refl

hashes-differ :
    compute_hash plain (hash_after "" []) (event "1" 5 "write")
    ≢ compute_hash plain (hash_after "" []) (event "1" 5 "read")
unfolding compute_hash hash_after
hashes-differ h = ground (arith, (eq_iff "1write" "1read").1 h)

verify_chain-tampered_example :
    verify_chain plain (record first_row { payload = event "1" 5 "write" } ∷ second_row ∷ []) ≢ none
verify_chain-tampered_example =
    verify_chain-tampered plain [] (second_row ∷ []) first_row (event "1" 5 "write") two_rows-verify
      hashes-differ

abbrev pub logging : WriteMode → Bool → SqliteLogger
logging mode failed = record {
  rows = first_row ∷ [];
  last_hash = "1read";
  queue = [];
  channel_size = 2;
  mode = mode;
  hash_chain = true;
  dropped = 0;
  writes = 1;
  failures = 0;
  db_failed = failed;
  metrics = none;
}

first_row-IsIntact : IsIntact plain (logging fail_closed false)
unfolding verify_from verify_event compute_hash hash_after
first_row-IsIntact = record { verifies = refl; tip = refl }

abbrev batch : List CanonicalPayload
batch = event "2" 8 "stat" ∷ []

batch-InOrder : InOrder plain (first_row ∷ []) (seal_batch plain "1read" batch).0
unfolding seal_batch
batch-InOrder = ((refl, tt), tt)

flush_batch-IsIntact_example :
    IsIntact plain (flush_batch plain true batch (logging fail_closed false))
flush_batch-IsIntact_example =
    flush_batch-IsIntact plain true batch (logging fail_closed false) refl first_row-IsIntact
      batch-InOrder

abbrev ten_each : List StoredEvent → ℕ
ten_each rows = 10 * length rows

abbrev retention : Retention
retention = record { cutoff = some 6; max_size = some 5 }

-- The DELETE of the second round fails.
trim_to_size-Trimmed_example :
    Trimmed ten_each 5
      (some 1)
      (first_row ∷ second_row ∷ [])
      (trim_to_size ten_each 5 (some 1) (first_row ∷ second_row ∷ []))
trim_to_size-Trimmed_example =
    trim_to_size-Trimmed ten_each 5 (some 1) (first_row ∷ second_row ∷ [])
