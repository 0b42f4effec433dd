-- ===== src/Audit/LogTests.antt =====
-- Calls of `Log` in the mode fail_closed.
use mcpshield.Prelude.{none, pos}
use mcpshield.Audit.Open.{Opened}
use mcpshield.Audit.LoopTests.{one_batched}

abbrev strict : Opened
strict = record { running = one_batched; batch_max_delay = pos 1; retention = none }
