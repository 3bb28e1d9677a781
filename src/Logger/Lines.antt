-- ===== src/Logger/Lines.antt =====
-- The lines of the logger (logging/logger.cpp): none is lost, doubled or moved.
use mathlib.Core.List.{append_assoc, append-nil}
use order_matching_engine.Prelude.{
  ◌≡◌, refl, sym, ap, subst, ◌∙◌, Bool-cases, inl, inr, true, none, some, List, [], ◌∷◌, ◌++◌, ltb,
  if◌then◌else◌, none-ne-some, some-inj,
}
use order_matching_engine.Prelude.Bytes.{Bytes}
use order_matching_engine.Logger.{
  LogLevel, info, level_code, Worker, Closing, running, flagged, joining, asleep, ready, dozing,
  relocking, stopped, writing, Logger, new_logger, Event, log, set_min_level, wake, work, set_exit,
  notify_exit, holds_mutex, woken, process_logs, log_internal, close, step, Runs, done, then_step,
  next_line,
}

-- The lines of the calls that are not below the level.
abbrev pub accepted : LogLevel → List Event → List Bytes
accepted least [] = []
accepted least (log level line ∷ es) =
    let rest = accepted least es in
    if ltb (level_code level) (level_code least) then rest else line ∷ rest
accepted least (set_min_level level ∷ es) = accepted level es
accepted least (wake ∷ es) = accepted least es
accepted least (work ∷ es) = accepted least es
accepted least (set_exit ∷ es) = accepted least es
accepted least (notify_exit ∷ es) = accepted least es

abbrev pub in_hand : Worker → List Bytes
in_hand asleep = []
in_hand ready = []
in_hand dozing = []
in_hand relocking = []
in_hand stopped = []
in_hand (writing line) = line ∷ []

-- In the file, in the worker's hand, and in the queue.
abbrev pub every_line : Logger → List Bytes
every_line l = l.file ++ (in_hand l.worker ++ l.log_queue)

in_hand-woken : (w : Worker) → in_hand (woken w) ≡ in_hand w
in_hand-woken asleep = refl
in_hand-woken ready = refl
in_hand-woken dozing = refl
in_hand-woken relocking = refl
in_hand-woken stopped = refl
in_hand-woken (writing line) = refl

-- The lines are as they were, and the level too.
abbrev pub IsQuiet : Logger → Logger → Type 0
IsQuiet l l1 =
    (every_line l1 ≡ every_line l) × (l1.min_level ≡ l.min_level) × (l1.file_is_open ≡ true)

next_line-IsQuiet :
    (w idle : Worker) (lines : List Bytes) (l : Logger)
    → l.file_is_open ≡ true
    → l.worker ≡ w
    → in_hand w ≡ []
    → in_hand idle ≡ []
    → l.log_queue ≡ lines
    → IsQuiet l (next_line idle lines l)
next_line-IsQuiet w idle [] l open' is none_now none_then q = elim (Bool-cases l.exit_flag) [
  | inl over ↦ (rw (over, is, none_now) refl, refl, open')
  | inr not_over ↦ (rw (not_over, is, none_now, none_then) refl, refl, open')
]
next_line-IsQuiet w idle (line ∷ lines) l open' is none_now none_then q =
    (rw (is, none_now, q) refl, refl, open')

pub process_logs-IsQuiet :
    (w : Worker) (l l1 : Logger)
    → l.file_is_open ≡ true
    → l.worker ≡ w
    → process_logs w l ≡ some l1
    → IsQuiet l l1
unfolding process_logs
process_logs-IsQuiet asleep l l1 open' is h = absurd (none-ne-some h)
process_logs-IsQuiet ready l l1 open' is h =
    subst (IsQuiet l) (some-inj h)
      (next_line-IsQuiet ready dozing l.log_queue l open' is refl refl refl)
process_logs-IsQuiet dozing l l1 open' is h =
    subst (IsQuiet l) (some-inj h) (rw is refl, refl, open')
process_logs-IsQuiet relocking l l1 open' is h =
    subst (IsQuiet l) (some-inj h)
      (next_line-IsQuiet relocking ready l.log_queue l open' is refl refl refl)
process_logs-IsQuiet stopped l l1 open' is h = absurd (none-ne-some h)
process_logs-IsQuiet (writing line) l l1 open' is h =
    subst (IsQuiet l) (some-inj h)
      (rw (open', is) (append_assoc l.file (line ∷ []) l.log_queue), refl, open')

-- A step and the steps behind it.
abbrev Passes : Event → List Event → Logger → Logger → Type 0
Passes e es l l1 =
    (every_line l1 ++ accepted l1.min_level es ≡ every_line l ++ accepted l.min_level (e ∷ es))
    × (l1.file_is_open ≡ true)

quiet_lem :
    (es : List Event) (l l1 : Logger)
    → IsQuiet l l1
    → every_line l1 ++ accepted l1.min_level es ≡ every_line l ++ accepted l.min_level es
quiet_lem es l l1 (lines, same, _) = rw (lines, same) refl

-- A line at the end of the queue.
pushed_lem :
    (f h q r : List Bytes) (x : Bytes)
    → (f ++ (h ++ (q ++ x ∷ []))) ++ r ≡ (f ++ (h ++ q)) ++ (x ∷ r)
pushed_lem f h q r x =
    ap (λ (k : List Bytes). (f ++ k) ++ r) (sym (append_assoc h q (x ∷ [])))
    ∙ ap (λ (k : List Bytes). k ++ r) (sym (append_assoc f (h ++ q) (x ∷ [])))
    ∙ append_assoc (f ++ (h ++ q)) (x ∷ []) r

log_internal-Passes :
    (level : LogLevel) (line : Bytes) (es : List Event) (l l1 : Logger)
    → l.file_is_open ≡ true
    → log_internal level line l ≡ some l1
    → Passes (log level line) es l l1
unfolding log_internal
log_internal-Passes level line es l l1 open' h =
    elim (Bool-cases (ltb (level_code level) (level_code l.min_level))) [
      | inl below ↦
          let is : some l ≡ some l1 = rw below at h in
          let here : Passes (log level line) es l l = (rw below refl, open') in
          subst (Passes (log level line) es l) (some-inj is) here
      | inr above ↦ elim (Bool-cases (holds_mutex l.worker)) [
        | inl held ↦ let is : none ≡ some l1 = rw (above, held) at h in absurd (none-ne-some is)
        | inr free ↦
            let l2 = record l { log_queue = l.log_queue ++ line ∷ [] } in
            let is : some l2 ≡ some l1 = rw (above, free) at h in
            let here : Passes (log level line) es l l2 = (
              rw above
                  (pushed_lem l.file (in_hand l.worker) l.log_queue (accepted l.min_level es) line),
              open',
            ) in
            subst (Passes (log level line) es l) (some-inj is) here
      ]
    ]

close-Passes :
    (c : Closing) (es : List Event) (l l1 : Logger)
    → l.file_is_open ≡ true
    → (close c set_exit l ≡ some l1 → Passes set_exit es l l1)
      × (close c notify_exit l ≡ some l1 → Passes notify_exit es l l1)
close-Passes running es l l1 open' =
    ((λ h. subst (Passes set_exit es l) (some-inj h) (refl, open')), (λ h. absurd (none-ne-some h)))
close-Passes flagged es l l1 open' = (
  (λ h. absurd (none-ne-some h)),
  (λ h. subst (Passes notify_exit es l) (some-inj h) (rw (in_hand-woken l.worker) refl, open')),
)
close-Passes joining es l l1 open' =
    ((λ h. absurd (none-ne-some h)), (λ h. absurd (none-ne-some h)))

step-Passes :
    (e : Event) (es : List Event) (l l1 : Logger)
    → l.file_is_open ≡ true
    → step e l ≡ some l1
    → Passes e es l l1
unfolding step
step-Passes (log level line) es l l1 open' h = log_internal-Passes level line es l l1 open' h
step-Passes (set_min_level level) es l l1 open' h =
    subst (Passes (set_min_level level) es l) (some-inj h) (refl, open')
step-Passes wake es l l1 open' h =
    subst (Passes wake es l) (some-inj h) (rw (in_hand-woken l.worker) refl, open')
step-Passes work es l l1 open' h =
    let q = process_logs-IsQuiet l.worker l l1 open' refl h in (quiet_lem es l l1 q, q.2)
step-Passes set_exit es l l1 open' h = (close-Passes l.closing es l l1 open').0 h
step-Passes notify_exit es l l1 open' h = (close-Passes l.closing es l l1 open').1 h

-- From any state with an open file, whatever the threads do in whatever order.
pub every_line-Runs :
    {l l' : Logger} (es : List Event)
    → l.file_is_open ≡ true
    → Runs l es l'
    → every_line l' ≡ every_line l ++ accepted l.min_level es
every_line-Runs {l} es open' done = sym (append-nil (every_line l))
every_line-Runs {l} {l'} _ open' (then_step {l1 = l1} {es = es} e h r) =
    let (lines, still) = step-Passes e es l l1 open' h in every_line-Runs es still r ∙ lines

pub Runs-file_is_open :
    {l l' : Logger} (es : List Event)
    → l.file_is_open ≡ true
    → Runs l es l'
    → l'.file_is_open ≡ true
Runs-file_is_open es open' done = open'
Runs-file_is_open {l} _ open' (then_step {l1 = l1} {es = es} e h r) =
    Runs-file_is_open es (step-Passes e es l l1 open' h).1 r

-- From a new logger with an open file, whatever the threads do in whatever order: the lines in the
-- file, then the one in the worker's hand, then those in the queue are the lines of the calls that
-- were not below the level of their time, in the order of the calls, none lost and none doubled.
pub in_order :
    (es : List Event) (l : Logger)
    → Runs (new_logger true) es l
    → l.file ++ (in_hand l.worker ++ l.log_queue) ≡ accepted info es
in_order es l r = every_line-Runs es refl r
