-- ===== src/Tests/LoggerTests.antt =====
-- The logger with one line, and the arguments of a run.
use order_matching_engine.Prelude.{◌≡◌, refl, true, some, List, [], ◌∷◌, ◌++◌, length}
use order_matching_engine.Prelude.Bytes.{Bytes}
use order_matching_engine.Logger.{
  info, debug, error, Logger, new_logger, Event, log, work, set_exit, notify_exit, dozing, asleep,
  joining, flagged, relocking, stopped, Runs, done, then_step, step, process_logs, log_internal,
}
use order_matching_engine.Logger.Lines.{accepted, in_hand, in_order}
use order_matching_engine.Logger.Exit.{Ends, written_at_end, process_logs-Ends, missed_exit, missed}
use order_matching_engine.Logger.Flush.{flush, taken_out, flush_lem, flush-IsEarly}
use order_matching_engine.Config.{
  parse_args, parse_args-arguments, arguments, configured, default_config, Setting, port,
  replay_mode,
}

abbrev hello : Bytes
hello = 104 ∷ 105 ∷ []

-- A line of level DEBUG is dropped; one of level ERROR is written; the destructor runs.
abbrev history : List Event
history = log debug [] ∷ log error hello ∷ work ∷ work ∷ set_exit ∷ []

abbrev before_end : Logger
before_end = record (new_logger true) {
  file = hello ∷ [];
  exit_flag = true;
  worker = relocking;
  closing = flagged;
}

history-Runs : Runs (new_logger true) history before_end
unfolding step process_logs log_internal
history-Runs =
    then_step _ refl
      (then_step _ refl (then_step _ refl (then_step _ refl (then_step _ refl done))))

in_order_example :
    before_end.file ++ (in_hand before_end.worker ++ before_end.log_queue) ≡ accepted info history
in_order_example = in_order history before_end history-Runs

last_step : step work before_end ≡ some (record before_end { worker = stopped })
unfolding step process_logs
last_step = refl

written_at_end_example :
    (before_end.file ≡ accepted info history)
    × (before_end.log_queue ≡ [])
    × (before_end.exit_flag ≡ true)
written_at_end_example =
    written_at_end history before_end (record before_end { worker = stopped }) history-Runs
      last_step refl

abbrev two_left : Logger
two_left = record (new_logger true) { log_queue = hello ∷ hello ∷ []; exit_flag = true }

process_logs-Ends_example :
    Ends two_left (two_left.file ++ (in_hand two_left.worker ++ two_left.log_queue))
process_logs-Ends_example = process_logs-Ends two_left refl refl tt

abbrev dozes : Logger
dozes = record (new_logger true) { worker = dozing }

-- Another thread logs, but its call has not notified yet.
abbrev later : Logger
later = record (missed dozes) { log_queue = hello ∷ [] }

later-Runs : Runs (missed dozes) (log error hello ∷ []) later
unfolding step log_internal
later-Runs = then_step _ refl done

missed_exit_example :
    Runs dozes (set_exit ∷ notify_exit ∷ work ∷ []) (missed dozes)
    × (later.worker ≡ asleep)
    × (later.closing ≡ joining)
missed_exit_example =
    missed_exit dozes later (log error hello ∷ []) refl refl ((λ h. cc), tt) later-Runs

abbrev settings : List (Setting (λ (text : Bytes). some (length text)))
settings = replay_mode ∷ port hello ∷ []

parse_args-arguments_example :
    parse_args
      (λ (text : Bytes). some (length text))
      (arguments (λ (text : Bytes). some (length text)) settings)
      (default_config 8080)
    ≡ configured (λ (text : Bytes). some (length text)) settings (default_config 8080)
parse_args-arguments_example =
    parse_args-arguments (λ (text : Bytes). some (length text)) settings (default_config 8080)

before_end-flush : flush before_end ≡ true
unfolding flush
before_end-flush = refl

flush_lem_example : before_end.file ++ in_hand before_end.worker ≡ accepted info history
flush_lem_example = flush_lem history before_end history-Runs before_end-flush

flush-IsEarly_example :
    Runs (new_logger true) (log error hello ∷ work ∷ []) (taken_out hello (new_logger true))
    × (flush (taken_out hello (new_logger true)) ≡ true)
    × ((taken_out hello (new_logger true)).file ≡ (new_logger true).file)
flush-IsEarly_example = flush-IsEarly hello (new_logger true) refl refl
