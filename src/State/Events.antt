-- ===== src/State/Events.antt =====
-- The events that the daemon publishes (daemon/state/broadcaster.go), one constructor for each name
-- with its payload.
use disc_echo_dd.Common.{ℕ, Bool, List, Option, Text}
use disc_echo_dd.State.Types.{DriveState, Job, JobState, JobStepState, LogLevel, Note, StepId}

pub data Event : Type 0 where
  job_created : Job → Event
  job_started : Text → Event
  job_done : Text → Event
  -- `state` is set for a cancelled job, `error` for a failed one.
  job_failed : Text → Option JobState → Option Text → Event
  job_step : Text → StepId → JobStepState → List (Text × Note) → Event
  job_step_failed : Text → StepId → Text → Event
  job_progress : Text → StepId → ℕ → Text → ℕ → Event
  job_substep : Text → Text → Event
  job_log : Text → Option StepId → LogLevel → Text → Event
  drive_changed : Text → DriveState → Event
  disc_identified : Text → Text → ℕ → Text → Event
  disc_metadata : Text → Text → Event
  spool_changed : ℕ → ℕ → Bool → Event

-- The event that ends a job for the clients.
abbrev pub is_final : Event → Bool
is_final (job_done _) = Bool.true
is_final (job_failed _ _ _) = Bool.true
is_final _ = Bool.false
