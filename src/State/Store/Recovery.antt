-- ===== src/State/Store/Recovery.antt =====
-- daemon/state/store.go: what recovers jobs after a crash or a failure, and the spool directories
-- that the jobs still refer to.
pub mod Startup
pub mod Retry
pub mod Bases
use disc_echo_dd.Common.{
  ℕ, zero, suc, ◌+◌, Bool, true, false, not, ◌&&◌, ◌||◌, List, [], ◌∷◌, ◌++◌, map, Option, none,
  some, Text, text_eq, is_empty, codes, ◌==◌, if◌then◌else◌, keep_if, any_of, Result, ok, err,
  not_found, invalid_job_kind_for_retry, invalid_job_state_for_retry, ltb,
}
use disc_echo_dd.State.Types.{
  JobState, JobKind, JobStepState, StepId, step_eq, is_active, Job, JobStep, Note, canonical_steps,
  canonical_transcode_steps, canonical_scan_steps,
}
use disc_echo_dd.State.Rows.{Db, LogLine}
use disc_echo_dd.State.Store.Table.{select, update_where, count_where, affected}
use disc_echo_dd.State.Store.Jobs.{has_id, get_job, update_jobs, update_steps, first_time}

-- The reset of a job row, and of a step row.
unfoldable pub requeued : Job → Job
requeued j = record j {
  state = JobState.queued;
  active_step = none;
  active_substep = [];
  progress = 0;
  speed = [];
  eta_seconds = 0;
  elapsed_seconds = 0;
  started_at = none;
  finished_at = none;
  error_message = [];
}

unfoldable pub step_requeued : JobStep → JobStep
step_requeued s = record s {
  state = JobStepState.pending;
  started_at = none;
  finished_at = none;
  attempt_count = s.attempt_count + 1;
}

abbrev pub is_skipped_state : JobStepState → Bool
is_skipped_state JobStepState.skipped = true
is_skipped_state _ = false

abbrev pub is_transcode : JobKind → Bool
is_transcode JobKind.transcode = true
is_transcode _ = false

abbrev pub is_retryable : JobState → Bool
is_retryable JobState.failed = true
is_retryable JobState.interrupted = true
is_retryable _ = false

abbrev pub swap_profile : Text → Job → Job
swap_profile p j = if is_empty p then j else record j { profile_id = p }

unfoldable pub reset_transcode_job : Text → Text → Db → Result (Unit {0}) × Db
unfolding requeued step_requeued
reset_transcode_job id profile db = elim (get_job db id) [
  | err e ↦ (err e, db)
  | ok j ↦
      if not (is_transcode j.kind)
      then (err invalid_job_kind_for_retry, db)
      else if not (is_retryable j.state)
      then (err invalid_job_state_for_retry, db)
      else (
        ok tt,
        update_steps (λ s. text_eq s.job_id id && not (is_skipped_state s.state)) step_requeued
            (update_jobs (has_id id) (λ r. swap_profile profile (requeued r)) db),
      )
]

abbrev pub is_running_step : JobStepState → Bool
is_running_step JobStepState.running = true
is_running_step _ = false

abbrev pub is_interrupted : JobState → Bool
is_interrupted JobState.interrupted = true
is_interrupted _ = false

-- job_id IN (SELECT id FROM jobs WHERE state = 'interrupted')
abbrev pub of_interrupted : List Job → JobStep → Bool
of_interrupted jobs s = any_of (λ j. is_interrupted j.state && text_eq s.job_id j.id) jobs

unfoldable pub mark_interrupted_jobs : ℕ → Db → ℕ × Db
mark_interrupted_jobs now db =
    let n = count_where (λ (j : Job). is_active j.state) db.jobs in
    let marked =
      update_jobs (λ j. is_active j.state)
        (λ j. record j { state = JobState.interrupted; finished_at = some now }) db in
    (
      n,
      update_steps (λ s. is_running_step s.state && of_interrupted marked.jobs s)
          (λ s. record s { state = JobStepState.failed; finished_at = some now }) marked,
    )

-- The part of a path behind its last slash or backslash.
unfoldable pub base_from : Text → Text → Text
base_from [] base = base
base_from (c ∷ p) base = base_from p (if (c == b'/') || (c == b'\\') then p else base)

unfoldable pub basename_of : Text → Text
unfolding base_from
basename_of p = base_from p p

unfoldable pub nonempty_bases : List Text → List Text
unfolding basename_of
nonempty_bases ps = keep_if (λ b. not (is_empty b)) (map basename_of ps)

abbrev pub is_rip_row : JobKind → Bool
is_rip_row JobKind.rip = true
is_rip_row _ = false

abbrev pub owns_spool : Job → Bool
owns_spool j = is_rip_row j.kind && is_active j.state

abbrev pub reads_spool : Job → Bool
reads_spool j =
    is_transcode j.kind
    && not (is_empty j.spool_path)
    && (is_active j.state || is_retryable j.state)

-- The rip jobs' identifiers and the transcode jobs' directory names.
unfoldable pub active_spool_references : Db → List Text × List Text
unfolding nonempty_bases
active_spool_references db = (
  map (λ (j : Job). j.id) (keep_if owns_spool db.jobs),
  nonempty_bases (map (λ (j : Job). j.spool_path) (keep_if reads_spool db.jobs)),
)
