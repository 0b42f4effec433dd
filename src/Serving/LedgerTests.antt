-- ===== src/Serving/LedgerTests.antt =====
-- A run of a server with the audit log in SQLite: a request for a session, a turn of the writer, and
-- the closing of the log.
use mcpshield.Prelude.{ℕ, ◌+◌, ◌-◌, ◌≤◌, true, none, some, [], ◌≡◌, refl, pos}
use mcpshield.Mcp.{num}
use mcpshield.Audit.Tests.{plain}
use mcpshield.Audit.LoopTests.{one_batched}
use mcpshield.Audit.Open.{Opened, sqlite}
use mcpshield.Audit.Logger.{log_event, log_in, log_strict, select_send}
use mcpshield.Audit.Service.{close_audit, log_to, log_sqlite}
use mcpshield.Auth.{allow_all, authenticate}
use mcpshield.Gateway.Tests as GatewayTests
use mcpshield.Gateway.Handlers.{handle_initialize, logged}
use mcpshield.Gateway.Serve.{serve_http}
use mcpshield.Serving.{Libraries, ServerGateway, serve}
use mcpshield.Serving.Runs.{start, then_step, requested, Run}
use mcpshield.Serving.Tests.{libraries, moment, post, policed, started}
use mcpshield.Serving.Ledger.{row_count, dropped_count, waiting}
use mcpshield.Serving.Settled.{results, rows, close_audit-results}

abbrev initializing : Libraries
initializing = record libraries {
  codec = record GatewayTests.codec {
    unmarshal_request = λ f. some (GatewayTests.request (some (num "1")) "initialize" none);
  };
}

abbrev opened : Opened
opened = record { running = one_batched; batch_max_delay = pos 1; retention = none }

abbrev on_sqlite : ServerGateway ℕ
on_sqlite = record started.0.gateway {
  audit = sqlite opened;
  max_request_bytes = 9;
  sessions = GatewayTests.one_session;
}

abbrev answered : ServerGateway ℕ
answered = (serve initializing allow_all moment post on_sqlite).1

abbrev answered_run : Run initializing plain allow_all policed "policy.yaml" [] on_sqlite answered
answered_run = then_step (start on_sqlite) (requested on_sqlite moment post refl)

-- the request has a result
one_result : results initializing plain allow_all policed "policy.yaml" answered_run ≡ 1
unfolding serve serve_http authenticate handle_initialize logged log_to log_sqlite log_event log_in
    log_strict select_send
one_result = refl

close_audit-results_example :
    (waiting (close_audit plain (λ n. true) answered.audit) ≡ 0)
    × (results initializing plain allow_all policed "policy.yaml" answered_run
        ≤ rows initializing plain allow_all policed "policy.yaml" answered_run
          + (row_count (close_audit plain (λ n. true) answered.audit) - row_count answered.audit)
          + dropped_count (close_audit plain (λ n. true) answered.audit))
close_audit-results_example =
    close_audit-results initializing plain allow_all policed "policy.yaml" answered_run (λ n. true)
      refl
