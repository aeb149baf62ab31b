-- ===== src/Jobs/Sink.antt =====
-- daemon/jobs/sink.go: the sink that writes a job's events to the store and publishes them. An error
-- of the store is only logged there, so the results of its statements are dropped, and a statement that
-- fails leaves the store as it was; what is published is a list, in order. Times are in nanoseconds.
pub mod Throttle
pub mod Done
pub mod Quiet
use disc_echo_dd.Common.{
  ℕ, zero, suc, ◌+◌, ◌-◌, Bool, true, false, not, List, [], ◌∷◌, ◌++◌, Option, none, some, Text,
  text_eq, is_empty, codes, if◌then◌else◌, ltb, GoError, error_text,
}
use disc_echo_dd.State.Types.{StepId, step_eq, JobStepState, LogLevel, Note}
use disc_echo_dd.State.Rows.{Db, LogLine}
use disc_echo_dd.State.Events
use disc_echo_dd.State.Events.{Event}
use disc_echo_dd.State.Store.Jobs.{
  update_job_progress, update_job_sub_step, set_active_step, record_output_bytes,
}
use disc_echo_dd.State.Store.Steps.{update_job_step_state, append_job_step_notes, append_log_line}

-- progressInterval
abbrev pub progress_interval : ℕ
progress_interval = 1_000_000_000

pub record PendingProgress : Type 0 where
  pub step : StepId
  pub pct : ℕ
  pub spd : Text
  pub eta : ℕ

pub record Sink : Type 0 where
  pub job_id : Text
  pub store : Db
  pub published : List Event
  pub last_progress_at : Option ℕ
  pub pending_progress : Option PendingProgress
  pub current_step : Option StepId
  -- Which of the next statements the database refuses; beyond the end of the list, none.
  pub refused : List Bool

abbrev pub publish : Event → Sink → Sink
publish e s = record s { published = s.published ++ e ∷ [] }

abbrev pub stored : List Bool → (Db → Db) → Db → Db
stored [] f db = f db
stored (false ∷ r) f db = f db
stored (true ∷ r) f db = db

abbrev pub later : List Bool → List Bool
later [] = []
later (b ∷ r) = r

-- A statement whose error is only logged. One that the code skips, since it has nothing to write, takes
-- its turn as well.
abbrev pub write : (Db → Db) → Sink → Sink
write f s = record s { store = stored s.refused f s.store; refused = later s.refused }

unfoldable pub flush_progress : PendingProgress → Sink → Sink
flush_progress p s =
    publish (Event.job_progress s.job_id p.step p.pct p.spd p.eta)
      (write (λ db. (update_job_progress s.job_id p.step p.pct p.spd p.eta db).1) s)

unfoldable pub on_step_start : ℕ → StepId → Sink → Sink
on_step_start now step s =
    let s1 = write (λ db. (update_job_step_state now s.job_id step JobStepState.running db).1) s in
    let s2 = write (λ db. set_active_step s.job_id step db) s1 in
    let s3 = write (λ db. (update_job_progress s.job_id step 0 [] 0 db).1) s2 in
    record s3 {
      last_progress_at = none;
      pending_progress = none;
      current_step = some step;
      published =
          s3.published
          ++ (Event.job_step s.job_id step JobStepState.running []
              ∷ Event.job_progress s.job_id step 0 [] 0
              ∷ []);
    }

-- `since < progressInterval`, where the zero time lies far in the past.
abbrev pub is_throttled : Option ℕ → ℕ → Bool
is_throttled none now = false
is_throttled (some last) now = ltb (now - last) progress_interval

unfoldable pub on_progress : ℕ → PendingProgress → Sink → Sink
unfolding flush_progress
on_progress now p s =
    if is_throttled s.last_progress_at now
    then record s { pending_progress = some p }
    else flush_progress p (record s { pending_progress = none; last_progress_at = some now })

-- `if pending != nil { s.flushProgress(*pending) }`
abbrev pub flush_pending : Option PendingProgress → Sink → Sink
flush_pending none s = s
flush_pending (some p) s = flush_progress p s

unfoldable pub flush : ℕ → Sink → Sink
unfolding flush_progress
flush now s =
    flush_pending s.pending_progress
      (record s { pending_progress = none; last_progress_at = some now })

unfoldable pub on_sub_step : Text → Sink → Sink
on_sub_step name s =
    publish (Event.job_substep s.job_id name)
      (write (λ db. (update_job_sub_step s.job_id name db).1) s)

-- `message` is the formatted line.
unfoldable pub on_log : ℕ → LogLevel → Text → Sink → Sink
on_log now level message s =
    let line : LogLine = record {
      job_id = s.job_id;
      time = now;
      step = s.current_step;
      level = level;
      message = message;
    } in
    publish (Event.job_log s.job_id s.current_step level message) (write (append_log_line line) s)

-- `notes[key]`
unfoldable pub lookup_note : Text → List (Text × Note) → Option Note
lookup_note k [] = none
lookup_note k ((i, v) ∷ m) = if text_eq i k then some v else lookup_note k m

abbrev pub single_path : Option Note → List Text
single_path (some (Note.text p)) = if is_empty p then [] else p ∷ []
single_path _ = []

abbrev pub path_list : Option Note → List Text
path_list (some (Note.texts ps)) = ps
path_list _ = []

-- `stat` gives the size of a file, and `none` where os.Stat fails.
unfoldable pub sum_sizes : (Text → Option ℕ) → List Text → ℕ
sum_sizes stat [] = 0
sum_sizes stat (p ∷ ps) = elim (stat p) [ none ↦ 0 | some n ↦ n ] + sum_sizes stat ps

unfoldable pub sum_move_path_bytes : (Text → Option ℕ) → List (Text × Note) → ℕ
unfolding lookup_note sum_sizes
sum_move_path_bytes stat notes = sum_sizes stat (
    single_path (lookup_note (codes "path") notes) ++ path_list (lookup_note (codes "paths") notes))

abbrev pub is_move : StepId → Bool
is_move StepId.move = true
is_move _ = false

-- `if s.currentStep == step { s.currentStep = "" }`
abbrev pub clear_current : StepId → Option StepId → Option StepId
clear_current step none = none
clear_current step (some c) = if step_eq c step then none else some c

unfoldable pub record_move : (Text → Option ℕ) → StepId → List (Text × Note) → Text → Db → Db
record_move stat step notes id db =
    let bytes = sum_move_path_bytes stat notes in
    if is_move step then (if ltb 0 bytes then (record_output_bytes id bytes db).1 else db) else db

unfoldable pub on_step_done : ℕ → (Text → Option ℕ) → StepId → List (Text × Note) → Sink → Sink
unfolding flush record_move
on_step_done now stat step notes s =
    let s1 = write (λ db. (update_job_sub_step s.job_id [] db).1) s in
    let s2 = flush now s1 in
    let s3 =
      publish (Event.job_progress s.job_id step 100 [] 0)
        (write (λ db. (update_job_progress s.job_id step 100 [] 0 db).1) s2) in
    let s4 = record s3 { current_step = clear_current step s3.current_step } in
    let s5 = write (λ db. (update_job_step_state now s.job_id step JobStepState.done db).1) s4 in
    let s6 = write (λ db. (append_job_step_notes s.job_id step notes db).1) s5 in
    let s7 = write (record_move stat step notes s.job_id) s6 in
    publish (Event.job_step s.job_id step JobStepState.done notes) s7

unfoldable pub on_step_failed : ℕ → StepId → GoError → Sink → Sink
on_step_failed now step e s =
    let s1 = record s { current_step = clear_current step s.current_step } in
    publish (Event.job_step_failed s.job_id step (error_text e))
      (write (λ db. (update_job_step_state now s.job_id step JobStepState.failed db).1) s1)
