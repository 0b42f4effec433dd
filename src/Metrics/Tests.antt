-- ===== src/Metrics/Tests.antt =====
-- A method of a registry with client labels.
use mcpshield.Prelude.{true, IsMap}
use mcpshield.Metrics.Calls.{
  inc_rate_limit_hit, usage, labelled, registered, IsLabelled, usage-IsLabelled,
}

usage-IsLabelled_example :
    IsMap (registered true)
    × IsLabelled true
        (usage true (inc_rate_limit_hit "fs.read" "ann"))
        (labelled true (inc_rate_limit_hit "fs.read" "ann"))
usage-IsLabelled_example = usage-IsLabelled true (inc_rate_limit_hit "fs.read" "ann")
