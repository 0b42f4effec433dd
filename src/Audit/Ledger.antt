-- ===== src/Audit/Ledger.antt =====
-- What becomes of the events that the logger of internal/audit/logger.go takes in, over whole runs
-- and at `Close`.
use mcpshield.Prelude.{ℕ, ◌+◌, Bool, ◌&&◌, List, length, ◌≡◌, refl, ap, arith, if-elim}
use mcpshield.Audit.Hashing.{StoredEvent, Platform}
use mcpshield.Audit.Logger.{SqliteLogger, log_event}
use mcpshield.Audit.Writer.{Retention, Faults, retain_age, retain_size, reseal_if, run_retention}
use mcpshield.Audit.Loop.{
  Running, flush_pending, retain, close_logger, Step, logged, received, ticked, retained, Run,
  start, then_step,
}
use mcpshield.Audit.Taken.{log_in-length}
use mcpshield.Audit.Accounts.{pending, flush_pending-IsTurned, receive-Balanced, drain-Balanced}

module _ (pf : Platform) where
  -- Close hands every event on that is in the channel or in the batch: none is left, and each is a
  -- row of the table more or counted as dropped, however the database answers on the way.
  pub close_logger-settles :
      (healthy : ℕ → Bool) (s : Running)
      → (pending (close_logger pf healthy s) ≡ 0)
        × (length (close_logger pf healthy s).logger.rows
              + (close_logger pf healthy s).logger.dropped
            ≡ length s.logger.rows + s.logger.dropped + pending s)
  close_logger-settles healthy s =
      let (balanced, nothing) = drain-Balanced pf healthy s.logger.queue s refl in
      (nothing, omega (arith, balanced.total, nothing))

  -- The retention deletes rows alone.
  record LeavesEvents (l l' : SqliteLogger) : Type 0 where
    pub queue : l'.queue ≡ l.queue
    pub dropped : l'.dropped ≡ l.dropped

  reseal_if-LeavesEvents :
      (deleted fails : Bool) (kept : List StoredEvent) (l : SqliteLogger)
      → LeavesEvents l (reseal_if pf deleted fails kept l)
  unfolding reseal_if
  reseal_if-LeavesEvents deleted fails kept l =
      if-elim (LeavesEvents l) (deleted && l.hash_chain)
        (λ _.
          if-elim (LeavesEvents l) fails (λ _. record { queue = refl; dropped = refl })
            (λ _. record { queue = refl; dropped = refl }))
        (λ _. record { queue = refl; dropped = refl })

  run_retention-LeavesEvents :
      (size : List StoredEvent → ℕ) (r : Retention) (f : Faults) (l : SqliteLogger)
      → LeavesEvents l (run_retention pf size r f l)
  unfolding run_retention
  run_retention-LeavesEvents size r f l =
      let aged = retain_age r.cutoff f.delete_fails l.rows in
      let kept = retain_size size r.max_size f.trim_fails aged.0 aged.1 in
      reseal_if-LeavesEvents kept.1 f.reseal_fails kept.0 l

  -- One step keeps the account: dropped and waiting events, and rows added, against those taken in.
  pub Step-balance :
      {s u : Running} {i j : ℕ}
      → Step pf s i j u
      → u.logger.dropped + pending u + j ≡ s.logger.dropped + pending s + i
  unfolding log_event retain
  Step-balance (logged s sel e room) = omega (arith, log_in-length s.logger.mode sel e s.logger)
  Step-balance (received s e rest healthy h) =
      let (b, _) = receive-Balanced pf healthy e rest s h in omega (arith, b.total, b.kept)
  Step-balance (ticked s healthy) =
      let b = (flush_pending-IsTurned pf healthy s).balanced in omega (arith, b.total, b.kept)
  Step-balance (retained s healthy size r f) =
      let s' = flush_pending pf healthy s in
      let b = (flush_pending-IsTurned pf healthy s).balanced in
      let k = run_retention-LeavesEvents size r f s'.logger in
      omega (arith, b.total, b.kept, ap length k.queue, k.dropped)

  -- In every run, the events that are counted as dropped, that wait, and that became rows are
  -- together those there were at the start and those that `Log` took in since.
  pub Run-balance :
      {s u : Running} {taken stored : ℕ}
      → Run pf s taken stored u
      → u.logger.dropped + pending u + stored ≡ s.logger.dropped + pending s + taken
  Run-balance (start s) = omega arith
  Run-balance (then_step before step) = omega (arith, Run-balance before, Step-balance step)
