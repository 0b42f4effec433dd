-- ===== src/Audit/Service.antt =====
-- internal/audit/logger.go: `Log` of each logger, of the event that the gateway gives it, and
-- the turns of the loggers' goroutines.
use mcpshield.Prelude.{ℕ, String, Bool, false, Option, none, some, List, ◌∷◌, ◌≡◌}
use mcpshield.Gateway.{Event, Logger}
use mcpshield.Audit.Logger.{Selected, log_event}
use mcpshield.Audit.Console.{StdoutLogger, log_noop, log_stdout, print_event, close_stdout}
use mcpshield.Audit.Hashing.{CanonicalPayload, StoredEvent, Platform}
use mcpshield.Audit.Writer.{Retention, Faults}
use mcpshield.Audit.Loop.{flush_pending, receive, retain, close_logger}
use mcpshield.Audit.Open.{Opened, AuditLog, noop, stdout, sqlite}
use mcpshield.Audit.Stored.{Marshal, event_to_stored}

-- What one call of `Log` finds: the id of `uuid.NewV7`, or `none` where that fails, and what its
-- blocking `select` comes to.
pub record LogCall : Type 0 where
  pub event_id : Option String
  pub selected : Selected

-- `SQLiteAuditLogger.Log`, from the id on; the gateway's events have their time, and no trace
unfoldable pub log_sqlite : Marshal → Option String → Selected → Event → Opened → Bool × Opened
unfolding log_event
log_sqlite m none s e o = (false, o)
log_sqlite m (some id) s e o =
    let (ok, l) = log_event s (event_to_stored m id "" "" e) o.running.logger in
    (ok, record o { running = record o.running { logger = l } })

-- `Log` of what `NewLogger` returned
unfoldable pub log_to : Marshal → LogCall → Event → AuditLog → Bool × AuditLog
unfolding log_sqlite log_stdout log_noop
log_to m c e noop = (log_noop e, noop)
log_to m c e (stdout l) = let (ok, l') = log_stdout e l in (ok, stdout l')
log_to m c e (sqlite o) = let (ok, o') = log_sqlite m c.event_id c.selected e o in (ok, sqlite o')

-- the logger as the gateway sees it during one request
abbrev pub audit_service : Marshal → LogCall → Logger AuditLog
audit_service m c = record { log = log_to m c }

-- `Close` of what `NewLogger` returned, once its callers are done; `healthy n` is whether the
-- database takes the transaction at the n-th event that is left
unfoldable pub close_audit : Platform → (ℕ → Bool) → AuditLog → AuditLog
unfolding close_stdout
close_audit pf healthy noop = noop
close_audit pf healthy (stdout l) = stdout (close_stdout l)
close_audit pf healthy (sqlite o) =
    sqlite (record o { running = close_logger pf healthy o.running })

-- A turn of the goroutine that `NewLogger` started: of the SQLite writer with an event, a tick of
-- the batch or of the retention, or of the printer.
pub data Turn (pf : Platform) : AuditLog → AuditLog → Type 0 where
  received :
      (o : Opened) (healthy : Bool) (e : CanonicalPayload) (rest : List CanonicalPayload)
      → o.running.logger.queue ≡ e ∷ rest
      → Turn pf (sqlite o) (sqlite (record o { running = receive pf healthy e rest o.running }))
  ticked :
      (o : Opened) (healthy : Bool)
      → Turn pf (sqlite o) (sqlite (record o { running = flush_pending pf healthy o.running }))
  retained :
      (o : Opened) (healthy : Bool) (size : List StoredEvent → ℕ) (r : Retention) (f : Faults)
      → Turn pf (sqlite o) (sqlite (record o { running = retain pf healthy size r f o.running }))
  printed :
      (l : StdoutLogger) (e : Event) (rest : List Event)
      → l.queue ≡ e ∷ rest
      → Turn pf (stdout l) (stdout (print_event e rest l))
