-- ===== src/Jobs/World.antt =====
-- What the orchestrator (daemon/jobs/orchestrator.go) and the compute pool (daemon/jobs/compute.go)
-- share: the store, the spool, the published events, the queues and the cancel maps; the handlers of
-- daemon/pipelines/handler.go as parameters; and the failures of the database and the file system.
pub mod Play
use disc_echo_dd.Common.{
  ℕ, Bool, true, false, List, [], ◌∷◌, ◌++◌, Option, none, some, Text, text_eq, if◌then◌else◌,
  GoError, Result, ok, err,
}
use disc_echo_dd.State.Types.{DiscType, DriveState, JobState, JobStepState, LogLevel, Note, StepId}
use disc_echo_dd.State.Rows.{Candidate, Db, Disc, Drive, Profile}
use disc_echo_dd.State.Events.{Event}
use disc_echo_dd.Spool.{Entry, Spool}
use disc_echo_dd.Jobs.Sink.{
  Sink, PendingProgress, on_step_start, on_progress, on_sub_step, on_log, on_step_done,
  on_step_failed,
}

-- A call that a handler makes on its sink, with the time of the call.
pub data SinkCall : Type 0 where
  step_start : ℕ → StepId → SinkCall
  progress : ℕ → PendingProgress → SinkCall
  sub_step : Text → SinkCall
  log : ℕ → LogLevel → Text → SinkCall
  step_done : ℕ → StepId → List (Text × Note) → SinkCall
  step_failed : ℕ → StepId → GoError → SinkCall

unfoldable pub play : (Text → Option ℕ) → List SinkCall → Sink → Sink
play stat [] s = s
play stat (step_start now step ∷ calls) s = play stat calls (on_step_start now step s)
play stat (progress now p ∷ calls) s = play stat calls (on_progress now p s)
play stat (sub_step name ∷ calls) s = play stat calls (on_sub_step name s)
play stat (log now level message ∷ calls) s = play stat calls (on_log now level message s)
play stat (step_done now step notes ∷ calls) s =
    play stat calls (on_step_done now stat step notes s)
play stat (step_failed now step e ∷ calls) s = play stat calls (on_step_failed now step e s)

-- StepPlan: a step and its skip flag.
abbrev pub Plan : Type 0
Plan = List (StepId × Bool)

-- SplittableHandler. A run yields the calls that it made on its sink, and its result. RunRip writes
-- below the path that it gets, and also yields the bytes that are there in the end. RunTranscode may
-- read, write and move anything in the staging area: it gets its entries and yields those that it
-- leaves, beside the disc as it identified it.
pub record SplittableHandler : Type 0 where
  pub plan_transcode : Disc → Profile → Plan
  pub run_rip : Drive → Disc → Profile → Text → List SinkCall × Result Text × ℕ
  pub run_transcode :
      Text → Disc → Profile → List Entry → List SinkCall × Option GoError × Disc × List Entry

-- TitleScanner. The result is the disc's metadata with the scan merged in, as encoding/json prints it.
pub record TitleScanner : Type 0 where
  pub scan_titles : Drive → Disc → Profile → List SinkCall × Result Text

-- Handler, with the optional interfaces that it also implements.
pub record Handler : Type 0 where
  pub plan : Disc → Profile → Plan
  pub run : Drive → Disc → Profile → List SinkCall × Option GoError
  pub splittable : Option SplittableHandler
  pub scanner : Option TitleScanner

-- pipelines.Registry, and os.Stat. `splits` says that a compute pool and a spool are configured.
pub record Config : Type 0 where
  pub handlers : DiscType → Option Handler
  pub stat : Text → Option ℕ
  pub splits : Bool

-- For each call that may fail beyond what the tables decide, the failure, if there is one. A failing
-- statement changes nothing. Those made on a job's own context also fail once the job is cancelled.
pub record Faults : Type 0 where
  pub get_job : Option GoError
  pub get_disc : Option GoError
  pub get_drive : Option GoError
  pub get_profile : Option GoError
  pub set_running : Option GoError
  pub set_ripping : Option GoError
  pub set_failed : Option GoError
  pub set_final : Option GoError
  pub set_idle : Option GoError
  pub spool_create : Option GoError
  pub spool_cleanup : Option GoError
  pub create_child : Option GoError
  pub set_metadata : Option GoError
  pub set_candidates : Option GoError
  pub create_job : Option GoError
  pub list_active : Option GoError
  pub cancel_active : Option GoError

pub record World : Type 0 where
  pub db : Db
  pub spool : Spool
  pub published : List Event
  -- The transcode jobs that wait in the compute queue.
  pub queue : List Text
  -- The keys of the cancel maps of the orchestrator and of the compute pool.
  pub cancels : List Text
  pub compute_cancels : List Text
  -- The calls of sendTerminalNotification that go on to send, with the job's final state.
  pub notified : List (Text × JobState)
  pub stopped : Bool
  -- The jobs that wait in the queues of the drives, each with its drive, in the order of their arrival.
  pub drive_queue : List (Text × Text)
  -- Close of the orchestrator has begun.
  pub closed : Bool
  -- The jobs whose contexts were cancelled.
  pub signalled : List Text
  -- Which of the next statements that the sinks run the database refuses.
  pub refused : List Bool

abbrev pub publish : Event → World → World
publish e w = record w { published = w.published ++ e ∷ [] }

-- `_, err := f(…)` under a failure, and the state after it.
abbrev pub faulty {ℓ} : {A : Type ℓ} → Option GoError → Result A → Result A
faulty none r = r
faulty (some e) r = err e

-- A statement under a failure.
abbrev pub exec {ℓ} :
    {A : Type ℓ} → Option GoError → (Db → Result A × Db) → World → Result A × World
exec none f w = let (r, db) = f w.db in (r, record w { db = db })
exec (some e) f w = (err e, w)

-- NewPersistentSink for a job, the calls on it, and what they leave in the store and publish.
unfoldable pub with_sink : (Text → Option ℕ) → Text → List SinkCall → World → World
unfolding play
with_sink stat id calls w =
    let start : Sink = record {
      job_id = id;
      store = w.db;
      published = w.published;
      last_progress_at = none;
      pending_progress = none;
      current_step = none;
      refused = w.refused;
    } in
    let s = play stat calls start in
    record w { db = s.store; published = s.published; refused = s.refused }

-- sendTerminalNotification: only a done or a failed job is announced.
unfoldable pub send_terminal_notification : Text → JobState → World → World
send_terminal_notification id JobState.done w = record w {
  notified = w.notified ++ (id, JobState.done) ∷ [];
}
send_terminal_notification id JobState.failed w = record w {
  notified = w.notified ++ (id, JobState.failed) ∷ [];
}
send_terminal_notification id _ w = w

-- The steps of a plan with their states.
unfoldable pub planned_steps : Plan → List (StepId × JobStepState)
planned_steps [] = []
planned_steps ((s, skip) ∷ plan) =
    (s, if skip then JobStepState.skipped else JobStepState.pending) ∷ planned_steps plan

-- delete(m, k)
unfoldable pub forget : Text → List Text → List Text
forget k [] = []
forget k (x ∷ xs) = let rest = forget k xs in if text_eq x k then rest else x ∷ rest
