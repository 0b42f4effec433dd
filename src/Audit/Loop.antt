-- ===== src/Audit/Loop.antt =====
-- internal/audit/logger.go: `run`, the loop of the writer, with the callers of `Log` beside it, as
-- steps on their common state, and `Close`.
use mcpshield.Prelude.{
  ℕ, suc, ◌+◌, ◌-◌, ◌≤◌, Bool, true, false, ◌&&◌, List, [], ◌∷◌, ◌++◌, length, leb, is_empty,
  if◌then◌else◌, ◌≡◌,
}
use mcpshield.Audit.Hashing.{CanonicalPayload, StoredEvent, Platform}
use mcpshield.Audit.Logger.{
  SqliteLogger, Selected, WriteMode, log_event, unknown, block, fail_closed, best_effort, drop,
}
use mcpshield.Audit.Writer.{Retention, Faults, flush_batch, run_retention}

-- The logger and the locals of `run`.
pub record Running : Type 0 where
  pub logger : SqliteLogger
  pub batch : List CanonicalPayload
  pub batch_max : ℕ

-- Whether `Log` counts an event that it does not queue: a failed last write refuses it uncounted.
abbrev pub is_strict : WriteMode → Bool
is_strict block = false
is_strict best_effort = false
is_strict drop = false
is_strict fail_closed = true
is_strict unknown = true

abbrev pub takes_part : SqliteLogger → ℕ
takes_part l = if is_strict l.mode && l.db_failed then 0 else 1

module _ (pf : Platform) where
  -- `flush`
  unfoldable pub flush_pending : Bool → Running → Running
  flush_pending healthy s =
      if is_empty s.batch
      then s
      else record s { logger = flush_batch pf healthy s.batch s.logger; batch = [] }

  -- the case of an event `e` from the channel, which leaves `rest` in it
  unfoldable pub receive : Bool → CanonicalPayload → List CanonicalPayload → Running → Running
  unfolding flush_pending
  receive healthy e rest s =
      let s' = record s { logger = record s.logger { queue = rest }; batch = s.batch ++ e ∷ [] } in
      if leb s.batch_max (length s.batch + 1) then flush_pending healthy s' else s'

  -- the case of the retention ticker
  unfoldable pub retain : Bool → (List StoredEvent → ℕ) → Retention → Faults → Running → Running
  unfolding flush_pending
  retain healthy size r f s =
      let s' = flush_pending healthy s in record s' { logger = run_retention pf size r f s'.logger }

  -- What `run` does once `Close` has closed the channel, with no tick in between: it takes what is
  -- left, then flushes.
  -- `healthy n` is whether the database takes the transaction at the n-th event.
  unfoldable pub drain : (ℕ → Bool) → List CanonicalPayload → Running → Running
  unfolding flush_pending receive
  drain healthy [] s = flush_pending (healthy 0) s
  drain healthy (e ∷ rest) s = drain (λ n. healthy (suc n)) rest (receive (healthy 0) e rest s)

  -- `Close` of a logger whose callers are done
  abbrev pub close_logger : (ℕ → Bool) → Running → Running
  close_logger healthy s = drain healthy s.logger.queue s

  -- One step: a call of `Log`, which waits for room in the channel, or a turn of the loop. Its two
  -- numbers are the events that it takes in and the rows that it adds to the table.
  pub data Step : Running → ℕ → ℕ → Running → Type 0 where
    logged :
        (s : Running) (sel : Selected) (e : CanonicalPayload)
        → length (log_event sel e s.logger).1.queue ≤ s.logger.channel_size
        → Step s (takes_part s.logger) 0 (record s { logger = (log_event sel e s.logger).1 })
    received :
        (s : Running) (e : CanonicalPayload) (rest : List CanonicalPayload) (healthy : Bool)
        → s.logger.queue ≡ e ∷ rest
        → Step s 0
            (length (receive healthy e rest s).logger.rows - length s.logger.rows)
            (receive healthy e rest s)
    ticked :
        (s : Running) (healthy : Bool)
        → Step s 0
            (length (flush_pending healthy s).logger.rows - length s.logger.rows)
            (flush_pending healthy s)
    retained :
        (s : Running) (healthy : Bool) (size : List StoredEvent → ℕ) (r : Retention) (f : Faults)
        → Step s 0
            (length (flush_pending healthy s).logger.rows - length s.logger.rows)
            (retain healthy size r f s)

  -- A run, with the events taken in and the rows added by all its steps.
  pub data Run : Running → ℕ → ℕ → Running → Type 0 where
    start : (s : Running) → Run s 0 0 s
    then_step :
        {s t u : Running} {m n i j : ℕ} → Run s m n t → Step t i j u → Run s (m + i) (n + j) u
