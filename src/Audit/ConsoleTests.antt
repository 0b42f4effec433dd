-- ===== src/Audit/ConsoleTests.antt =====
-- A run of the stdout logger: two events come, the first one is printed.
use mcpshield.Prelude.{◌≤◌, [], ◌∷◌, length, ◌≡◌, refl}
use mcpshield.Audit.Console.{
  StdoutLogger, new_stdout_logger, log_stdout, print_event, close_stdout, logged, printed, start,
  then_step, Run, with_room, close_stdout-IsInOrder,
}
use mcpshield.Audit.ReplayTests.{read_event}

abbrev both_waiting : StdoutLogger
both_waiting = record { queue = read_event ∷ read_event ∷ []; printed = [] }

abbrev one_printed : StdoutLogger
one_printed = record { queue = read_event ∷ []; printed = read_event ∷ [] }

two_logged : Run new_stdout_logger ((read_event, 0) ∷ (read_event, 1) ∷ []) both_waiting
unfolding log_stdout
two_logged =
    then_step (then_step (start new_stdout_logger) (logged new_stdout_logger read_event))
      (logged (record { queue = read_event ∷ []; printed = [] }) read_event)

one_left : Run new_stdout_logger ((read_event, 0) ∷ (read_event, 1) ∷ []) one_printed
unfolding print_event
one_left = then_step two_logged (printed both_waiting read_event (read_event ∷ []) refl)

close_stdout-IsInOrder_example :
    ((close_stdout one_printed).printed ≡ with_room ((read_event, 0) ∷ (read_event, 1) ∷ []))
    × (length one_printed.queue ≤ 256)
close_stdout-IsInOrder_example = close_stdout-IsInOrder one_printed one_left
