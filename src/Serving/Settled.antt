-- ===== src/Serving/Settled.antt =====
-- cmd/mcpshield/main.go: what becomes of the results that a running server gives, in the SQLite audit
-- log that its requests share with the writer, up to `Close`.
use mcpshield.Prelude.{ℕ, ◌+◌, ◌-◌, ◌≤◌, String, Bool, true, Option, List, length, ◌≡◌, refl, arith}
use mcpshield.Auth.{Authenticator}
use mcpshield.Audit.Hashing.{Platform}
use mcpshield.Audit.Loop
use mcpshield.Audit.Loop.{flush_pending, receive}
use mcpshield.Audit.Ledger.{Step-balance, close_logger-settles}
use mcpshield.Audit.Open.{AuditLog, noop, stdout, sqlite}
use mcpshield.Audit.Service.{close_audit, Turn, received, ticked, retained, printed}
use mcpshield.Startup.{System}
use mcpshield.Serving.{Libraries, ServerGateway, serve}
use mcpshield.Serving.Runs.{
  Step, Run, start, then_step, then_reload, requested, warming, warmed, refreshed, written,
}
use mcpshield.Serving.Ledger.{
  is_sqlite, row_count, dropped_count, waiting, unwritten, results_in, serve-Grown,
}

module _ (pf : Platform) where
  -- the rows that a turn adds, before the retention deletes any
  abbrev pub rows_added : {a b : AuditLog} → Turn pf a b → ℕ
  rows_added (received o healthy e rest h) =
      length (receive pf healthy e rest o.running).logger.rows - length o.running.logger.rows
  rows_added (ticked o healthy) =
      length (flush_pending pf healthy o.running).logger.rows - length o.running.logger.rows
  rows_added (retained o healthy size r f) =
      length (flush_pending pf healthy o.running).logger.rows - length o.running.logger.rows
  rows_added (printed l e rest h) = 0

  Turn-balance :
      {a b : AuditLog} (turn : Turn pf a b)
      → is_sqlite a ≡ true
      → (is_sqlite b ≡ true) × (unwritten b + rows_added turn ≡ unwritten a)
  Turn-balance (received o healthy e rest h) s =
      (refl, omega (arith, Step-balance pf (Loop.received o.running e rest healthy h)))
  Turn-balance (ticked o healthy) s =
      (refl, omega (arith, Step-balance pf (Loop.ticked o.running healthy)))
  Turn-balance (retained o healthy size r f) s =
      (refl, omega (arith, Step-balance pf (Loop.retained o.running healthy size r f)))
  Turn-balance (printed l e rest h) s = absurd (ground (arith, s))

  -- Close hands every event on that waits: each is a row more or counted as dropped.
  close_audit-settles :
      (healthy : ℕ → Bool) (a : AuditLog)
      → (waiting (close_audit pf healthy a) ≡ 0)
        × (row_count (close_audit pf healthy a) + dropped_count (close_audit pf healthy a)
            ≡ row_count a + unwritten a)
  unfolding close_audit
  close_audit-settles healthy noop = (refl, refl)
  close_audit-settles healthy (stdout l) = (refl, refl)
  close_audit-settles healthy (sqlite o) =
      let (none_, total) = close_logger-settles pf healthy o.running in
      (none_, omega (arith, total))

module _ {N : Type 0} (lib : Libraries) (pf : Platform) (a : Authenticator) where
  -- The results that one step gives to the clients, and the rows that it adds to the table.
  abbrev pub step_results : {g h : ServerGateway N} → Step lib pf a g h → ℕ
  step_results (requested g t http named) = results_in (serve lib a t http g).0
  step_results (warming g m begun) = 0
  step_results (warmed g later loading) = 0
  step_results (refreshed g later marked) = 0
  step_results (written g l turn) = 0

  abbrev pub step_rows : {g h : ServerGateway N} → Step lib pf a g h → ℕ
  step_rows (requested g t http named) = 0
  step_rows (warming g m begun) = 0
  step_rows (warmed g later loading) = 0
  step_rows (refreshed g later marked) = 0
  step_rows (written g l turn) = rows_added pf turn

  Step-results :
      {g h : ServerGateway N} (step : Step lib pf a g h)
      → is_sqlite g.audit ≡ true
      → (is_sqlite h.audit ≡ true)
        × (unwritten g.audit + step_results step ≤ unwritten h.audit + step_rows step)
  Step-results (requested g t http named) s =
      let k = serve-Grown lib a t http g s in (k.on_sqlite, omega (arith, k.at_least))
  Step-results (warming g m begun) s = (s, omega arith)
  Step-results (warmed g later loading) s = (s, omega arith)
  Step-results (refreshed g later marked) s = (s, omega arith)
  Step-results (written g l turn) s =
      let (s', balance) = Turn-balance pf turn s in (s', omega (arith, balance))

  module _ (sys : System) (path : String) where
    -- The results and the rows of a whole run.
    abbrev pub results :
        {fs : List (String → Option String)} {g h : ServerGateway N}
        → Run lib pf a sys path fs g h
        → ℕ
    results (start g) = 0
    results (then_step before step) = results before + step_results step
    results (then_reload before files) = results before

    abbrev pub rows :
        {fs : List (String → Option String)} {g h : ServerGateway N}
        → Run lib pf a sys path fs g h
        → ℕ
    rows (start g) = 0
    rows (then_step before step) = rows before + step_rows step
    rows (then_reload before files) = rows before

    Run-results :
        {fs : List (String → Option String)} {g h : ServerGateway N}
        (run : Run lib pf a sys path fs g h)
        → is_sqlite g.audit ≡ true
        → (is_sqlite h.audit ≡ true)
          × (unwritten g.audit + results run ≤ unwritten h.audit + rows run)
    Run-results (start g) s = (s, omega arith)
    Run-results (then_step before step) s =
        let (s', sum) = Run-results before s in
        let (s'', more) = Step-results step s' in (s'', omega (arith, sum, more))
    Run-results (then_reload before files) s =
        let (s', sum) = Run-results before s in (s', omega (arith, sum))

    -- When the SQLite audit log is closed after a run of the server, no event waits any more, and
    -- the results that the requests of the run were given are at most the rows that the run and the
    -- closing added to the table and the events that are counted as dropped.
    pub close_audit-results :
        {fs : List (String → Option String)} {g h : ServerGateway N}
        (run : Run lib pf a sys path fs g h) (healthy : ℕ → Bool)
        → is_sqlite g.audit ≡ true
        → (waiting (close_audit pf healthy h.audit) ≡ 0)
          × (results run
              ≤ rows run
                + (row_count (close_audit pf healthy h.audit) - row_count h.audit)
                + dropped_count (close_audit pf healthy h.audit))
    close_audit-results {h} run healthy s =
        let (s', sum) = Run-results run s in
        let (none_, total) = close_audit-settles pf healthy h.audit in
        (none_, omega (arith, sum, total))
