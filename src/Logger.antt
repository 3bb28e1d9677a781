-- ===== src/Logger.antt =====
-- logging/logger.hpp and logging/logger.cpp: the queue of lines between the threads that log and the
-- thread that writes the file. A critical section is one step. A line is given as `std::format` made
-- it.
pub mod Lines
pub mod Exit
pub mod Flush
pub mod Streams
use order_matching_engine.Prelude.{
  ℕ, ◌≡◌, Bool, true, false, not, Option, none, some, List, [], ◌∷◌, ◌++◌, ltb, if◌then◌else◌,
}
use order_matching_engine.Prelude.Bytes.{Bytes, bytes_eq}

pub data LogLevel : Type 0 where
  debug info warn error : LogLevel

-- The number of the enumerator.
abbrev pub level_code : LogLevel → ℕ
level_code debug = 0
level_code info = 1
level_code warn = 2
level_code error = 3

-- Where `processLogs` is: asleep in `cv_.wait`; about to test what it waits for; still with the mutex
-- when the test has failed; with a line in its hand and without the mutex; about to lock again behind
-- that; and at its end.
pub data Worker : Type 0 where
  asleep ready dozing relocking stopped : Worker
  writing : Bytes → Worker

-- Where the destructor is: not called, behind `exit_flag_ = true`, and behind `cv_.notify_all()`.
pub data Closing : Type 0 where
  running flagged joining : Closing

pub record Logger : Type 0 where
  pub min_level : LogLevel
  pub file : List Bytes
  pub file_is_open : Bool
  pub log_queue : List Bytes
  pub exit_flag : Bool
  pub worker : Worker
  pub closing : Closing

abbrev pub new_logger : Bool → Logger
new_logger file_is_open = record {
  min_level = info;
  file = [];
  file_is_open = file_is_open;
  log_queue = [];
  exit_flag = false;
  worker = ready;
  closing = running;
}

unfoldable pub should_log : LogLevel → Logger → Bool
should_log level l = not (ltb (level_code level) (level_code l.min_level))

-- The names that `setMinLevel` knows.
abbrev pub level_name : LogLevel → Bytes
level_name debug = b'D' ∷ b'E' ∷ b'B' ∷ b'U' ∷ b'G' ∷ []
level_name info = b'I' ∷ b'N' ∷ b'F' ∷ b'O' ∷ []
level_name warn = b'W' ∷ b'A' ∷ b'R' ∷ b'N' ∷ []
level_name error = b'E' ∷ b'R' ∷ b'R' ∷ b'O' ∷ b'R' ∷ []

-- `setMinLevel` of a string: a name that it does not know changes nothing.
unfoldable pub set_min_level_named : Bytes → Logger → Logger
set_min_level_named name l =
    if bytes_eq name (level_name debug)
    then record l { min_level = debug }
    else if bytes_eq name (level_name info)
    then record l { min_level = info }
    else if bytes_eq name (level_name warn)
    then record l { min_level = warn }
    else if bytes_eq name (level_name error)
    then record l { min_level = error }
    else l

-- What happens: a thread logs, a thread sets the level, somebody wakes the worker (or nobody does, as
-- condition variables may), the worker goes on, and the two steps of the destructor.
pub data Event : Type 0 where
  log : LogLevel → Bytes → Event
  set_min_level : LogLevel → Event
  wake work set_exit notify_exit : Event

abbrev pub holds_mutex : Worker → Bool
holds_mutex dozing = true
holds_mutex asleep = false
holds_mutex ready = false
holds_mutex relocking = false
holds_mutex stopped = false
holds_mutex (writing line) = false

abbrev pub woken : Worker → Worker
woken asleep = ready
woken ready = ready
woken dozing = dozing
woken relocking = relocking
woken stopped = stopped
woken (writing line) = writing line

-- The next step of `processLogs`: `idle` is where it goes with nothing to write and no exit.
abbrev pub next_line : Worker → List Bytes → Logger → Logger
next_line idle [] l = record l { worker = if l.exit_flag then stopped else idle }
next_line idle (line ∷ lines) l = record l { log_queue = lines; worker = writing line }

unfoldable pub process_logs : Worker → Logger → Option Logger
process_logs asleep l = none
process_logs ready l = some (next_line dozing l.log_queue l)
process_logs dozing l = some (record l { worker = asleep })
process_logs relocking l = some (next_line ready l.log_queue l)
process_logs stopped l = none
process_logs (writing line) l =
    some (record l {
      file = if l.file_is_open then l.file ++ line ∷ [] else l.file;
      worker = relocking;
    })

-- `log_internal` up to the end of its critical section.
unfoldable pub log_internal : LogLevel → Bytes → Logger → Option Logger
log_internal level line l =
    if ltb (level_code level) (level_code l.min_level)
    then some l
    else if holds_mutex l.worker
    then none
    else some (record l { log_queue = l.log_queue ++ line ∷ [] })

abbrev pub close : Closing → Event → Logger → Option Logger
close running set_exit l = some (record l { exit_flag = true; closing = flagged })
close flagged notify_exit l = some (record l { worker = woken l.worker; closing = joining })
close c e l = none

-- `none` is a step that cannot be taken now.
unfoldable pub step : Event → Logger → Option Logger
step (log level line) l = log_internal level line l
step (set_min_level level) l = some (record l { min_level = level })
step wake l = some (record l { worker = woken l.worker })
step work l = process_logs l.worker l
step set_exit l = close l.closing set_exit l
step notify_exit l = close l.closing notify_exit l

-- A sequence of steps.
pub data Runs : Logger → List Event → Logger → Type 0 where
  done : {l : Logger} → Runs l [] l
  then_step :
      {l l1 l2 : Logger} {es : List Event} (e : Event)
      → step e l ≡ some l1
      → Runs l1 es l2
      → Runs l (e ∷ es) l2
