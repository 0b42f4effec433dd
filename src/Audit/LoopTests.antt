-- ===== src/Audit/LoopTests.antt =====
-- A run of the logger with one event in the batch: a second event arrives, then the ticker fires.
use mcpshield.Prelude.{◌+◌, ◌-◌, true, false, [], ◌∷◌, length, ◌≡◌, arith, ◌≤◌}
use mcpshield.Audit.Logger.{fail_closed, sent, log_event, log_in, log_strict, select_send}
use mcpshield.Audit.Loop.{Running, flush_pending, takes_part, logged, ticked, Run, start, then_step}
use mcpshield.Audit.Accounts.{pending}
use mcpshield.Audit.Ledger.{Run-balance}
use mcpshield.Audit.Tests.{plain, event, logging}

abbrev pub one_batched : Running
one_batched = record {
  logger = logging fail_closed false;
  batch = event "2" 8 "stat" ∷ [];
  batch_max = 10;
}

abbrev one_queued : Running
one_queued = record one_batched {
  logger = (log_event sent (event "3" 9 "read") (logging fail_closed false)).1;
}

room : length one_queued.logger.queue ≤ one_batched.logger.channel_size
unfolding log_event log_in log_strict select_send
room = omega arith

two_steps :
    Run plain one_batched
      (0 + takes_part (logging fail_closed false) + 0)
      (0
        + 0
        + (length (flush_pending plain true one_queued).logger.rows
            - length one_queued.logger.rows))
      (flush_pending plain true one_queued)
two_steps =
    then_step (then_step (start one_batched) (logged one_batched sent (event "3" 9 "read") room))
      (ticked one_queued true)

Run-balance_example :
    (flush_pending plain true one_queued).logger.dropped
      + pending (flush_pending plain true one_queued)
      + (0
          + 0
          + (length (flush_pending plain true one_queued).logger.rows
              - length one_queued.logger.rows))
    ≡ 0 + pending one_batched + (0 + takes_part (logging fail_closed false) + 0)
Run-balance_example = Run-balance plain two_steps
