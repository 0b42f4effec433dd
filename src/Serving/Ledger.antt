-- ===== src/Serving/Ledger.antt =====
-- cmd/mcpshield/main.go: that a result which the server gives is an event that its SQLite audit log
-- took in.
use mcpshield.Prelude.{
  ℕ, ◌+◌, ◌≤◌, String, Bool, true, false, Option, none, some, length, ◌≡◌, refl, sym, ap, ◌∙◌,
  arith, if◌then◌else◌,
}
use mcpshield.Mcp.{Json}
use mcpshield.Auth.{Authenticator}
use mcpshield.Audit.Logger.{Selected, log_event}
use mcpshield.Audit.Taken.{log_in-length, log_in-taken}
use mcpshield.Audit.Accounts.{pending}
use mcpshield.Audit.Open.{Opened, AuditLog, noop, stdout, sqlite}
use mcpshield.Audit.Stored.{Marshal}
use mcpshield.Audit.Service.{LogCall, log_sqlite, log_to}
use mcpshield.Gateway.{
  Event, Body, no_body, not_found_page, metrics_page, result, error, Payload, Response,
}
use mcpshield.Gateway.Serve.{HttpRequest}
use mcpshield.Gateway.Serve.Kept.{Keeps, serve_http-Keeps}
use mcpshield.Gateway.Serve.Audited.{Stored, serve_http-Audited}
use mcpshield.Serving.{Libraries, Moment, ServerGateway, services, authenticated, serve}

-- The audit log is the one of the backend sqlite.
abbrev pub is_sqlite : AuditLog → Bool
is_sqlite noop = false
is_sqlite (stdout l) = false
is_sqlite (sqlite o) = true

-- The rows of the table, the events counted as dropped, and those that wait for the writer.
abbrev pub row_count : AuditLog → ℕ
row_count noop = 0
row_count (stdout l) = 0
row_count (sqlite o) = length o.running.logger.rows

abbrev pub dropped_count : AuditLog → ℕ
dropped_count noop = 0
dropped_count (stdout l) = 0
dropped_count (sqlite o) = o.running.logger.dropped

abbrev pub waiting : AuditLog → ℕ
waiting noop = 0
waiting (stdout l) = 0
waiting (sqlite o) = pending o.running

abbrev pub unwritten : AuditLog → ℕ
unwritten a = dropped_count a + waiting a

log_sqlite_mono :
    (m : Marshal) (id : Option String) (s : Selected) (e : Event) (o : Opened)
    → unwritten (sqlite o) ≤ unwritten (sqlite (log_sqlite m id s e o).1)
unfolding log_sqlite log_event
log_sqlite_mono m none s e o = omega arith
log_sqlite_mono m (some id) s e o =
    omega (arith, log_in-length o.running.logger.mode s _ o.running.logger)

log_sqlite-taken :
    (m : Marshal) (id : Option String) (s : Selected) (e : Event) (o : Opened)
    → (log_sqlite m id s e o).0 ≡ true
    → unwritten (sqlite (log_sqlite m id s e o).1) ≡ unwritten (sqlite o) + 1
unfolding log_sqlite log_event
log_sqlite-taken m none s e o h = absurd (ground (arith, h))
log_sqlite-taken m (some id) s e o h =
    omega (arith, log_in-taken o.running.logger.mode s _ o.running.logger h)

-- The log is still of SQLite, and has taken in at least `n` events.
pub record Grown (n : ℕ) (a : AuditLog) : Type 0 where
  pub on_sqlite : is_sqlite a ≡ true
  pub at_least : n ≤ unwritten a

log_to-Grown :
    (m : Marshal) (c : LogCall) (e : Event) (n : ℕ) (a : AuditLog)
    → Grown n a
    → Grown n (log_to m c e a).1
unfolding log_to
log_to-Grown m c e n noop g = absurd (ground (arith, g.on_sqlite))
log_to-Grown m c e n (stdout l) g = absurd (ground (arith, g.on_sqlite))
log_to-Grown m c e n (sqlite o) g = record {
  on_sqlite = refl;
  at_least = omega (arith, g.at_least, log_sqlite_mono m c.event_id c.selected e o);
}

log_to-taken :
    (m : Marshal) (c : LogCall) (e : Event) (a after : AuditLog)
    → is_sqlite a ≡ true
    → log_to m c e a ≡ (true, after)
    → unwritten after ≡ unwritten a + 1
unfolding log_to
log_to-taken m c e noop after s h = absurd (ground (arith, s))
log_to-taken m c e (stdout l) after s h = absurd (ground (arith, s))
log_to-taken m c e (sqlite o) after s h =
    let taken : (log_sqlite m c.event_id c.selected e o).0 ≡ true = ap (λ r. r.0) h in
    ap (λ (r : Bool × AuditLog). unwritten r.1) (sym h)
    ∙ log_sqlite-taken m c.event_id c.selected e o taken

-- A response with a result.
abbrev pub has_result : Body → Bool
has_result no_body = false
has_result not_found_page = false
has_result (metrics_page r) = false
has_result (result id p) = true
has_result (error id f) = false

abbrev pub results_in : Response → ℕ
results_in r = if has_result r.body then 1 else 0

module _ {N : Type 0} (lib : Libraries) where
  Grown-Keeps :
      (t : Moment) (n : ℕ) → Keeps (services {N = N} lib t.log) t.fresh (λ g. Grown n g.audit)
  Grown-Keeps t n = record {
    logged = λ e g h. log_to-Grown lib.marshal t.log e n g.audit h;
    counted = λ m g h. h;
    resolved = λ requested client now g h. h;
    bound = λ client now later g h. h;
    evaluated = λ client now call g h. h;
    listed = λ now g h. h;
    called = λ now call g h. h;
  }

  -- one request: a result is one event more
  body-Grown :
      (t : Moment) (body : Body) (a after : AuditLog)
      → is_sqlite a ≡ true
      → Grown (unwritten a) after
      → ((id : Option Json) (p : Payload)
          → body ≡ result id p
          → Stored (services {N = N} lib t.log) a after p)
      → Grown (unwritten a + (if has_result body then 1 else 0)) after
  body-Grown t (result id p) a after s g stored =
      let taken =
        log_to-taken lib.marshal t.log (stored id p refl).event a after s
          (stored id p refl).stored in
      record { on_sqlite = g.on_sqlite; at_least = omega (arith, taken) }
  body-Grown t no_body a after s g stored = record {
    on_sqlite = g.on_sqlite;
    at_least = omega (arith, g.at_least);
  }
  body-Grown t not_found_page a after s g stored = record {
    on_sqlite = g.on_sqlite;
    at_least = omega (arith, g.at_least);
  }
  body-Grown t (metrics_page r) a after s g stored = record {
    on_sqlite = g.on_sqlite;
    at_least = omega (arith, g.at_least);
  }
  body-Grown t (error id f) a after s g stored = record {
    on_sqlite = g.on_sqlite;
    at_least = omega (arith, g.at_least);
  }

  -- a request keeps the account of the log: a result that it gives is one event more
  pub serve-Grown :
      (a : Authenticator) (t : Moment) (http : HttpRequest) (g : ServerGateway N)
      → is_sqlite g.audit ≡ true
      → Grown
          (unwritten g.audit + results_in (serve lib a t http g).0)
          (serve lib a t http g).1.audit
  unfolding serve
  serve-Grown a t http g s =
      let srv = services {N = N} lib t.log in
      body-Grown t (serve lib a t http g).0.body g.audit (serve lib a t http g).1.audit s
        (serve_http-Keeps srv t.fresh (λ g'. Grown (unwritten g.audit) g'.audit)
          (Grown-Keeps t (unwritten g.audit)) lib.codec (authenticated lib a) t.clock http g
          (record { on_sqlite = s; at_least = omega arith }))
        (serve_http-Audited srv lib.codec (authenticated lib a) t.clock t.fresh http g)
