-- ===== src/Logger/Flush.antt =====
-- Logger::flush (logging/logger.hpp): what the file has when it returns.
use mathlib.Core.List.{append-nil}
use order_matching_engine.Prelude.{
  ◌≡◌, refl, sym, ap, ◌∙◌, Bool, true, false, not, some, List, [], ◌∷◌, ◌++◌, ltb,
}
use order_matching_engine.Prelude.Bytes.{Bytes}
use order_matching_engine.Logger.{
  LogLevel, info, error, debug, warn, ready, writing, Logger, new_logger, Event, log, work, step,
  process_logs, log_internal, holds_mutex, Runs, done, then_step, level_code,
}
use order_matching_engine.Logger.Lines.{accepted, in_hand, in_order}

-- Whether `flush`, once it is awake, can return: with the mutex, it tests that the queue is empty.
unfoldable pub flush : Logger → Bool
flush l = elim l.log_queue [ [] ↦ not (holds_mutex l.worker) | line ∷ lines ↦ false ]

flush-queue : (l : Logger) → flush l ≡ true → l.log_queue ≡ []
unfolding flush
flush-queue l h = go l.log_queue refl h
  where
    go :
        (q : List Bytes)
        → l.log_queue ≡ q
        → (elim q [ [] ↦ not (holds_mutex l.worker) | line ∷ lines ↦ false ]) ≡ true
        → q ≡ []
    go [] is h = refl
    go (line ∷ lines) is h = cc

-- From a new logger with an open file, whatever the threads do in whatever order: when `flush` can
-- return, the lines in the file and the one in the worker's hand are the lines of the calls that
-- were not below the level, so at most one line is not in the file.
pub flush_lem :
    (es : List Event) (l : Logger)
    → Runs (new_logger true) es l
    → flush l ≡ true
    → l.file ++ in_hand l.worker ≡ accepted info es
flush_lem es l r h =
    ap (λ (lines : List Bytes). l.file ++ lines)
      (sym (append-nil (in_hand l.worker))
        ∙ ap (λ (q : List Bytes). in_hand l.worker ++ q) (sym (flush-queue l h)))
    ∙ in_order es l r

-- The worker has taken the line.
abbrev pub taken_out : Bytes → Logger → Logger
taken_out line l = record l { log_queue = []; worker = writing line }

never_below : (level : LogLevel) → ltb (level_code error) (level_code level) ≡ false
never_below debug = refl
never_below info = refl
never_below warn = refl
never_below error = refl

-- When nothing is queued and the worker is about to look, a line of level ERROR can be logged and
-- taken out by the worker, and then `flush` can return while the file is as it was before.
pub flush-IsEarly :
    (line : Bytes) (l : Logger)
    → l.worker ≡ ready
    → l.log_queue ≡ []
    → Runs l (log error line ∷ work ∷ []) (taken_out line l)
      × (flush (taken_out line l) ≡ true)
      × ((taken_out line l).file ≡ l.file)
unfolding flush step process_logs log_internal
flush-IsEarly line l is q =
    (then_step (log error line) logged (then_step work taken done), refl, refl)
  where
    logged : step (log error line) l ≡ some (record l { log_queue = line ∷ [] })
    logged = rw (never_below l.min_level, is, q) refl

    taken : step work (record l { log_queue = line ∷ [] }) ≡ some (taken_out line l)
    taken = rw is refl
