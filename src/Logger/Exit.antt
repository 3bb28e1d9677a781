-- ===== src/Logger/Exit.antt =====
-- The end of the logger: Logger::~Logger and the last lines of Logger::processLogs.
use mathlib.Core.List.{append_assoc, append-nil}
use order_matching_engine.Prelude.{
  ◌≡◌, ◌≢◌, refl, sym, ap, subst, ◌∙◌, ◌⊎◌, Bool-cases, inl, inr, true, some, List, [], ◌∷◌, ◌++◌,
  none-ne-some, some-inj, All, ltb,
}
use order_matching_engine.Prelude.Bytes.{Bytes}
use order_matching_engine.Logger.{
  info, level_code, Worker, running, flagged, joining, asleep, ready, dozing, relocking, stopped,
  writing, Logger, new_logger, Event, log, set_min_level, wake, work, set_exit, notify_exit,
  process_logs, log_internal, step, Runs, done, then_step, next_line,
}
use order_matching_engine.Logger.Lines.{
  accepted, in_hand, every_line, in_order, Runs-file_is_open, process_logs-IsQuiet,
}

-- Nothing is left to write and the exit flag is set.
abbrev IsOver : Logger → Type 0
IsOver l = (l.log_queue ≡ []) × (l.exit_flag ≡ true)

next_line-IsOver :
    (idle : Worker) (lines : List Bytes) (l : Logger)
    → idle ≢ stopped
    → l.log_queue ≡ lines
    → (next_line idle lines l).worker ≡ stopped
    → IsOver (next_line idle lines l)
next_line-IsOver idle [] l apart q h = elim (Bool-cases l.exit_flag) [
  | inl over ↦ (q, over)
  | inr not_over ↦ absurd (apart (rw not_over at h))
]
next_line-IsOver idle (line ∷ lines) l apart q h = cc

process_logs-IsOver :
    (w : Worker) (l l1 : Logger) → process_logs w l ≡ some l1 → l1.worker ≡ stopped → IsOver l1
unfolding process_logs
process_logs-IsOver asleep l l1 h end = absurd (none-ne-some h)
process_logs-IsOver ready l l1 h end =
    subst (λ (k : Logger). k.worker ≡ stopped → IsOver k) (some-inj h)
      (next_line-IsOver dozing l.log_queue l (λ e. cc) refl) end
process_logs-IsOver dozing l l1 h end =
    let no : asleep ≡ stopped = ap (λ (k : Logger). k.worker) (some-inj h) ∙ end in cc
process_logs-IsOver relocking l l1 h end =
    subst (λ (k : Logger). k.worker ≡ stopped → IsOver k) (some-inj h)
      (next_line-IsOver ready l.log_queue l (λ e. cc) refl) end
process_logs-IsOver stopped l l1 h end = absurd (none-ne-some h)
process_logs-IsOver (writing line) l l1 h end =
    let no : relocking ≡ stopped = ap (λ (k : Logger). k.worker) (some-inj h) ∙ end in cc

-- When the worker of a logger with an open file ends, the exit flag is set, nothing is left in the
-- queue, and the file has the lines of all calls so far that were not below the level.
pub written_at_end :
    (es : List Event) (l l1 : Logger)
    → Runs (new_logger true) es l
    → step work l ≡ some l1
    → l1.worker ≡ stopped
    → (l1.file ≡ accepted info es) × (l1.log_queue ≡ []) × (l1.exit_flag ≡ true)
unfolding step
written_at_end es l l1 r h end =
    let (queue, flag) = process_logs-IsOver l.worker l l1 h end in
    let (same, _, _) = process_logs-IsQuiet l.worker l l1 (Runs-file_is_open es refl r) refl h in
    let file : every_line l1 ≡ l1.file = rw (end, queue) (append-nil l1.file) in
    (sym file ∙ same ∙ in_order es l r, queue, flag)

-- Steps of the worker alone that end it.
abbrev pub Ends : Logger → List Bytes → Type 0
Ends l lines =
    (es : List Event) × (l' : Logger) × All (λ e. e ≡ work) es
    × Runs l es l'
    × (l'.worker ≡ stopped)
    × (l'.file ≡ lines)

writes :
    (l : Logger) (line : Bytes) (rest : List Bytes)
    → l.worker ≡ writing line
    → l.file_is_open ≡ true
    → Ends (record l { file = l.file ++ line ∷ []; worker = relocking }) rest
    → Ends l rest
unfolding step process_logs
writes l line rest is open' (es, l', works, r, end, file) =
    (work ∷ es, l', (refl, works), then_step work (rw (is, open') refl) r, end, file)

-- Awake, not asleep nor about to be, with no line in the hand.
abbrev AtQueue : Worker → Type 0
AtQueue w = (w ≡ ready) ⊎ (w ≡ relocking)

empties :
    (lines : List Bytes) (l : Logger)
    → AtQueue l.worker
    → l.log_queue ≡ lines
    → l.file_is_open ≡ true
    → l.exit_flag ≡ true
    → Ends l (l.file ++ lines)
unfolding step process_logs
empties [] l at q open' flag = (
  work ∷ [],
  record l { worker = stopped },
  (refl, tt),
  then_step work (last at) done,
  refl,
  sym (append-nil l.file),
)
  where
    last : AtQueue l.worker → step work l ≡ some (record l { worker = stopped })
    last (inl is) = rw (is, q, flag) refl
    last (inr is) = rw (is, q, flag) refl
empties (line ∷ lines) l at q open' flag =
    let l1 = record l { log_queue = lines; worker = writing line } in
    let l2 = record l1 { file = l.file ++ line ∷ []; worker = relocking } in
    let rest =
      subst (Ends l2) (append_assoc l.file (line ∷ []) lines)
        (empties lines l2 (inr refl) refl open' flag) in
    let (es, l', works, r, end, file) = writes l1 line (l.file ++ line ∷ lines) refl open' rest in
    (work ∷ es, l', (refl, works), then_step work (first at) r, end, file)
  where
    first :
        AtQueue l.worker
        → step work l ≡ some (record l { log_queue = lines; worker = writing line })
    first (inl is) = rw (is, q) refl
    first (inr is) = rw (is, q) refl

abbrev pub IsAwake : Worker → Type 0
IsAwake asleep = ⊥
IsAwake ready = Unit
IsAwake dozing = ⊥
IsAwake relocking = Unit
IsAwake stopped = ⊥
IsAwake (writing line) = Unit

-- When the exit flag is set, the file is open and the worker is awake, steps of the worker alone
-- lead to its end, and the file then has the line in its hand and those in the queue behind the
-- ones that it had.
pub process_logs-Ends :
    (l : Logger)
    → l.file_is_open ≡ true
    → l.exit_flag ≡ true
    → IsAwake l.worker
    → Ends l (l.file ++ (in_hand l.worker ++ l.log_queue))
process_logs-Ends l open' flag = go l.worker refl
  where
    go : (w : Worker) → l.worker ≡ w → IsAwake w → Ends l (l.file ++ (in_hand w ++ l.log_queue))
    go asleep is awake = elim awake [ ]
    go ready is awake = empties l.log_queue l (inl is) refl open' flag
    go dozing is awake = elim awake [ ]
    go relocking is awake = empties l.log_queue l (inr is) refl open' flag
    go stopped is awake = elim awake [ ]
    go (writing line) is awake = writes l line (l.file ++ (line ∷ l.log_queue)) is open' (
        subst (Ends (record l { file = l.file ++ line ∷ []; worker = relocking }))
          (append_assoc l.file (line ∷ []) l.log_queue)
          (empties l.log_queue (record l { file = l.file ++ line ∷ []; worker = relocking })
            (inr refl) refl open' flag))

-- The worker sleeps and the destructor waits for its end.
abbrev Waits : Logger → Type 0
Waits l = (l.worker ≡ asleep) × (l.closing ≡ joining)

step-Waits : (e : Event) (l l1 : Logger) → e ≢ wake → Waits l → step e l ≡ some l1 → Waits l1
unfolding step process_logs log_internal
step-Waits (log level line) l l1 other (w, c) h =
    elim (Bool-cases (ltb (level_code level) (level_code l.min_level))) [
      | inl below ↦ let is : some l ≡ some l1 = rw below at h in subst Waits (some-inj is) (w, c)
      | inr above ↦
          let is : some (record l { log_queue = l.log_queue ++ line ∷ []; worker = asleep })
              ≡ some l1 =
            rw (above, w) at h in
          subst Waits (some-inj is) (refl, c)
    ]
step-Waits (set_min_level level) l l1 other (w, c) h = subst Waits (some-inj h) (w, c)
step-Waits wake l l1 other _ h = absurd (other refl)
step-Waits work l l1 other (w, c) h = absurd (none-ne-some (rw w at h))
step-Waits set_exit l l1 other (w, c) h = absurd (none-ne-some (rw c at h))
step-Waits notify_exit l l1 other (w, c) h = absurd (none-ne-some (rw c at h))

Runs-Waits :
    {l l' : Logger} (es : List Event) → All (λ e. e ≢ wake) es → Waits l → Runs l es l' → Waits l'
Runs-Waits es h w done = w
Runs-Waits {l} _ h w (then_step {l1 = l1} {es = es} e is r) =
    Runs-Waits es (h.1) (step-Waits e l l1 (h.0) w is) r

-- The worker has gone to sleep while the destructor set the flag and notified.
abbrev pub missed : Logger → Logger
missed l = record l { exit_flag = true; closing = joining; worker = asleep }

-- When the worker has found nothing to do but does not sleep yet, the destructor can set the flag,
-- notify nobody and wait while the worker falls asleep; from there on, whatever happens but that
-- somebody wakes the worker, it sleeps and the destructor waits.
pub missed_exit :
    (l l2 : Logger) (es : List Event)
    → l.worker ≡ dozing
    → l.closing ≡ running
    → All (λ e. e ≢ wake) es
    → Runs (missed l) es l2
    → Runs l (set_exit ∷ notify_exit ∷ work ∷ []) (missed l)
      × (l2.worker ≡ asleep)
      × (l2.closing ≡ joining)
unfolding step process_logs
missed_exit l l2 es dozes runs h r =
    let l1 = record l { exit_flag = true; closing = flagged; worker = dozing } in
    let (sleeps, waits) = Runs-Waits es h (refl, refl) r in
    (
      then_step {l1 = l1} set_exit (rw (dozes, runs) refl) (
          then_step {l1 = record l1 { closing = joining }} notify_exit refl
            (then_step {l1 = missed l} work refl done)),
      sleeps,
      waits,
    )
