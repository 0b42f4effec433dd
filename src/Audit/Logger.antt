-- ===== src/Audit/Logger.antt =====
-- internal/audit/logger.go: the write modes, the counters, and `Log`.
use mcpshield.Prelude.{
  ℕ, zero, suc, ◌+◌, String, Bool, true, false, Option, none, some, List, [], ◌∷◌, ◌++◌, length,
  ltb, if◌then◌else◌, ◌==◌,
}
use mcpshield.Metrics.{Registry, Metric, update, audit_dropped, audit_write_fail}
use mcpshield.Audit.Hashing.{CanonicalPayload, StoredEvent}

pub data WriteMode : Type 0 where
  unknown block fail_closed best_effort drop : WriteMode

-- `none` is the error
unfoldable pub parse_sqlite_write_mode : String → Option WriteMode
parse_sqlite_write_mode val =
    if val == "block"
    then some block
    else if val == "fail_closed"
    then some fail_closed
    else if val == "best_effort"
    then some best_effort
    else if val == "drop"
    then some drop
    else none

unfoldable pub mode_string : WriteMode → String
mode_string block = "block"
mode_string best_effort = "best_effort"
mode_string fail_closed = "fail_closed"
mode_string drop = "drop"
mode_string unknown = "unknown"

-- The fields of `SQLiteAuditLogger` and its store; the queue is the buffered channel, and a queued
-- event is one that `eventToStored` has turned into its columns.
pub record SqliteLogger : Type 0 where
  pub rows : List StoredEvent
  pub last_hash : String
  pub queue : List CanonicalPayload
  pub channel_size : ℕ
  pub mode : WriteMode
  pub hash_chain : Bool
  pub dropped : ℕ
  pub writes : ℕ
  pub failures : ℕ
  pub db_failed : Bool
  pub metrics : Option Registry

-- What a blocking `select` of `Log` comes to.
pub data Selected : Type 0 where
  sent context_done timer_fired : Selected

-- the counter of a metric, `n` times
unfoldable pub update_times : ℕ → Metric → Option Registry → Option Registry
update_times zero m r = r
update_times (suc n) m r = update_times n m (update m r)

unfoldable pub report_drop : ℕ → SqliteLogger → SqliteLogger
unfolding update_times
report_drop n l = record l {
  dropped = l.dropped + n;
  metrics = update_times n (audit_dropped "sqlite") l.metrics;
}

unfoldable pub report_write_fail : ℕ → SqliteLogger → SqliteLogger
unfolding update_times
report_write_fail n l = record l {
  dropped = l.dropped + n;
  failures = l.failures + 1;
  db_failed = true;
  metrics = update_times n (audit_dropped "sqlite") (update (audit_write_fail "sqlite") l.metrics);
}

abbrev pub enqueue : CanonicalPayload → SqliteLogger → SqliteLogger
enqueue e l = record l { queue = l.queue ++ e ∷ [] }

-- `select` on the send, the context and the timer
unfoldable pub select_send : Selected → Bool → CanonicalPayload → SqliteLogger → Bool × SqliteLogger
unfolding report_drop
select_send sent on_drop e l = (true, enqueue e l)
select_send context_done on_drop e l = (on_drop, report_drop 1 l)
select_send timer_fired on_drop e l = (on_drop, report_drop 1 l)

-- the default case of `Log`, by whether the last write failed
unfoldable pub log_strict : Bool → Selected → CanonicalPayload → SqliteLogger → Bool × SqliteLogger
unfolding select_send
log_strict true s e l = (false, l)
log_strict false s e l = select_send s false e l

-- the `select` with a default of the mode `drop`, by whether the channel has room
unfoldable pub log_or_drop : Bool → CanonicalPayload → SqliteLogger → Bool × SqliteLogger
unfolding report_drop
log_or_drop true e l = (true, enqueue e l)
log_or_drop false e l = (true, report_drop 1 l)

unfoldable pub log_in : WriteMode → Selected → CanonicalPayload → SqliteLogger → Bool × SqliteLogger
unfolding select_send log_strict log_or_drop
log_in block s e l = (true, enqueue e l)
log_in best_effort s e l = select_send s true e l
log_in drop s e l = log_or_drop (ltb (length l.queue) l.channel_size) e l
log_in fail_closed s e l = log_strict l.db_failed s e l
log_in unknown s e l = log_strict l.db_failed s e l

-- `Log` from the switch on, of an event that has its time and id: whether it returns nil. The id, or
-- the failure to make one, is in `log_sqlite` of Service. The blocking `select` comes to `s`; there
-- is no timer in the mode `best_effort`, where both other outcomes are the same.
unfoldable pub log_event : Selected → CanonicalPayload → SqliteLogger → Bool × SqliteLogger
unfolding log_in
log_event s e l = log_in l.mode s e l
