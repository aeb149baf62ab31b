-- ===== src/State/Store/Jobs.antt =====
-- daemon/state/store.go: the statements on `jobs`. `now` is the time of the call. A statement runs
-- whole or, where SQLite fails, leaves the tables as they were; that failure is an argument of the
-- code that calls these functions.
pub mod States
pub mod Keeps
use disc_echo_dd.Common.{
  ℕ, zero, suc, ◌+◌, Bool, true, false, not, ◌&&◌, ◌||◌, List, [], ◌∷◌, ◌++◌, map, Option, none,
  some, Text, text_eq, is_empty, codes, ◌==◌, if◌then◌else◌, keep_if, any_of, Result, ok, err,
  not_found, invalid_job_kind_for_retry, invalid_job_state_for_retry, ltb,
}
use disc_echo_dd.State.Types.{
  JobState, JobKind, JobStepState, StepId, step_eq, is_active, Job, JobStep, Note, canonical_steps,
  canonical_transcode_steps, canonical_scan_steps,
}
use disc_echo_dd.State.Rows.{Db, LogLine}
use disc_echo_dd.State.Store.Table.{select, update_where, count_where, affected}

abbrev pub has_id : Text → Job → Bool
has_id id j = text_eq j.id id

-- `sql.ErrNoRows` becomes ErrNotFound.
abbrev pub row_result {ℓ} : {A : Type ℓ} → Option A → Result A
row_result none = err not_found
row_result (some x) = ok x

unfoldable pub get_job : Db → Text → Result Job
get_job db id = row_result (select (has_id id) db.jobs)

-- COALESCE(NULLIF(started_at, ''), ?)
abbrev pub first_time : Option ℕ → ℕ → Option ℕ
first_time none now = some now
first_time (some t) now = some t

unfoldable pub with_state : JobState → ℕ → Text → Job → Job
with_state JobState.running now msg j = record j {
  state = JobState.running;
  started_at = first_time j.started_at now;
}
with_state JobState.done now msg j = record j { state = JobState.done; finished_at = some now }
with_state JobState.failed now msg j = record j {
  state = JobState.failed;
  finished_at = some now;
  error_message = msg;
}
with_state JobState.cancelled now msg j = record j {
  state = JobState.cancelled;
  finished_at = some now;
}
with_state JobState.interrupted now msg j = record j {
  state = JobState.interrupted;
  finished_at = some now;
}
with_state st now msg j = record j { state = st }

abbrev pub update_jobs : (Job → Bool) → (Job → Job) → Db → Db
update_jobs p f db = record db { jobs = update_where p f db.jobs }

abbrev pub update_steps : (JobStep → Bool) → (JobStep → JobStep) → Db → Db
update_steps p f db = record db { steps = update_where p f db.steps }

unfoldable pub update_job_state : ℕ → Text → JobState → Text → Db → Result (Unit {0}) × Db
unfolding with_state
update_job_state now id st msg db =
    (affected (count_where (has_id id) db.jobs), update_jobs (has_id id) (with_state st now msg) db)

-- state NOT IN ('done','failed','cancelled','interrupted')
abbrev pub is_terminal : JobState → Bool
is_terminal JobState.done = true
is_terminal JobState.failed = true
is_terminal JobState.cancelled = true
is_terminal JobState.interrupted = true
is_terminal _ = false

unfoldable pub cancel_job_if_active : ℕ → Text → Db → Db
cancel_job_if_active now id db =
    update_jobs (λ j. has_id id j && not (is_terminal j.state))
      (λ j. record j { state = JobState.cancelled; finished_at = some now }) db

unfoldable pub update_job_progress : Text → StepId → ℕ → Text → ℕ → Db → Result (Unit {0}) × Db
update_job_progress id step pct speed eta db = (
  affected (count_where (has_id id) db.jobs),
  update_jobs (has_id id)
      (λ j. record j { active_step = some step; progress = pct; speed = speed; eta_seconds = eta })
      db,
)

unfoldable pub update_job_sub_step : Text → Text → Db → Result (Unit {0}) × Db
update_job_sub_step id substep db = (
  affected (count_where (has_id id) db.jobs),
  update_jobs (has_id id) (λ j. record j { active_substep = substep }) db,
)

unfoldable pub set_active_step : Text → StepId → Db → Db
set_active_step id step db = update_jobs (has_id id) (λ j. record j { active_step = some step }) db

unfoldable pub record_output_bytes : Text → ℕ → Db → Result (Unit {0}) × Db
record_output_bytes id bytes db = (
  affected (count_where (has_id id) db.jobs),
  update_jobs (has_id id) (λ j. record j { output_bytes = bytes }) db,
)

-- The skip set of the steps that the caller plans.
unfoldable pub is_skipped : List (StepId × JobStepState) → StepId → Bool
is_skipped [] s = false
is_skipped ((t, JobStepState.skipped) ∷ plan) s = step_eq t s || is_skipped plan s
is_skipped ((t, _) ∷ plan) s = is_skipped plan s

unfoldable pub steps_of_kind : JobKind → List StepId
unfolding canonical_steps canonical_transcode_steps canonical_scan_steps
steps_of_kind JobKind.transcode = canonical_transcode_steps
steps_of_kind JobKind.scan = canonical_scan_steps
steps_of_kind _ = canonical_steps

unfoldable pub new_step : Text → List (StepId × JobStepState) → StepId → JobStep
unfolding is_skipped
new_step id plan s = record {
  job_id = id;
  step = s;
  state = if is_skipped plan s then JobStepState.skipped else JobStepState.pending;
  attempt_count = 0;
  started_at = none;
  finished_at = none;
  notes = [];
}

-- `if j.Kind == "" { j.Kind = JobKindRip }`
abbrev pub stored_kind : JobKind → JobKind
stored_kind JobKind.legacy = JobKind.rip
stored_kind k = k

-- `fresh` stands for NewID and `now` for the clock, where the caller leaves the fields empty; a
-- creation time of 0 is the zero time. A kind outside the enumeration has no value here.
unfoldable pub create_job : ℕ → Text → Job → List (StepId × JobStepState) → Db → Job × Db
unfolding steps_of_kind new_step
create_job now fresh j plan db =
    let row = record j {
      id = if is_empty j.id then fresh else j.id;
      kind = stored_kind j.kind;
      created_at = if j.created_at == 0 then now else j.created_at;
    } in
    (
      row,
      record db {
        jobs = db.jobs ++ row ∷ [];
        steps = db.steps ++ map (new_step row.id plan) (steps_of_kind row.kind);
      },
    )

unfoldable pub disc_has_active_job : Text → Db → Bool
disc_has_active_job disc db =
    if is_empty disc
    then false
    else ltb 0 (count_where (λ j. text_eq j.disc_id disc && is_active j.state) db.jobs)

unfoldable pub has_active_job_on_drive : Text → Db → Bool
has_active_job_on_drive drive db =
    if is_empty drive
    then false
    else ltb 0 (count_where (λ j. text_eq j.drive_id drive && is_active j.state) db.jobs)

unfoldable pub list_active_job_ids : Db → List Text
list_active_job_ids db = map (λ (j : Job). j.id) (keep_if (λ (j : Job). is_active j.state) db.jobs)
