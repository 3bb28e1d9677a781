-- ===== src/Logger/Streams.antt =====
-- LogStream and the macros LOG_DEBUG, LOG_INFO, LOG_WARN and LOG_ERROR (logging/logger.hpp).
use order_matching_engine.Prelude.{
  ◌≡◌, refl, Bool-cases, inl, inr, Option, some, List, [], ◌∷◌, ◌++◌, ltb, if◌then◌else◌,
}
use order_matching_engine.Prelude.Bytes.{Bytes}
use order_matching_engine.Logger.{LogLevel, level_code, Logger, should_log, log_internal}

-- `ss_` when the values, given as their texts, were written to it.
abbrev streamed : List Bytes → Bytes
streamed [] = []
streamed (value ∷ values) = value ++ streamed values

-- A macro with the values behind it: the stream's destructor logs. `format` makes the line of a text. Nobody
-- sets the level between the macro's test and the destructor.
unfoldable log_stream : (LogLevel → Bytes → Bytes) → LogLevel → List Bytes → Logger → Option Logger
log_stream format level values l =
    if should_log level l then log_internal level (format level (streamed values)) l else some l

-- The test of the macro is that of `log_internal`: it drops no line that would have been logged.
log_stream-log_internal :
    (format : LogLevel → Bytes → Bytes) (level : LogLevel) (values : List Bytes) (l : Logger)
    → log_stream format level values l ≡ log_internal level (format level (streamed values)) l
unfolding log_stream log_internal should_log
log_stream-log_internal format level values l =
    elim (Bool-cases (ltb (level_code level) (level_code l.min_level))) [
      | inl below ↦ rw below refl
      | inr above ↦ rw above refl
    ]
