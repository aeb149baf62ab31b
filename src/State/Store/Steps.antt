-- ===== src/State/Store/Steps.antt =====
-- daemon/state/store.go: the statements on `job_steps` and `log_lines`.
use disc_echo_dd.Common.{
  ℕ, ◌+◌, Bool, ◌&&◌, List, [], ◌∷◌, ◌++◌, some, Text, text_eq, if◌then◌else◌, Result, ok,
}
use disc_echo_dd.State.Types.{JobStepState, StepId, step_eq, JobStep, Note}
use disc_echo_dd.State.Rows.{Db, LogLine}
use disc_echo_dd.State.Store.Table.{count_where, affected}
use disc_echo_dd.State.Store.Jobs.{update_steps, first_time}

abbrev pub is_step : Text → StepId → JobStep → Bool
is_step id step s = text_eq s.job_id id && step_eq s.step step

unfoldable pub with_step_state : JobStepState → ℕ → JobStep → JobStep
with_step_state JobStepState.running now s = record s {
  state = JobStepState.running;
  started_at = first_time s.started_at now;
  attempt_count = s.attempt_count + 1;
}
with_step_state JobStepState.pending now s = record s { state = JobStepState.pending }
with_step_state st now s = record s { state = st; finished_at = some now }

unfoldable pub update_job_step_state :
    ℕ → Text → StepId → JobStepState → Db → Result (Unit {0}) × Db
unfolding with_step_state
update_job_step_state now id step st db = (
  affected (count_where (is_step id step) db.steps),
  update_steps (is_step id step) (with_step_state st now) db,
)

-- `merged[k] = v`
unfoldable pub put_note : Text → Note → List (Text × Note) → List (Text × Note)
put_note k v [] = (k, v) ∷ []
put_note k v ((i, w) ∷ m) = if text_eq i k then (k, v) ∷ m else (i, w) ∷ put_note k v m

unfoldable pub merge_notes : List (Text × Note) → List (Text × Note) → List (Text × Note)
unfolding put_note
merge_notes m [] = m
merge_notes m ((k, v) ∷ extra) = merge_notes (put_note k v m) extra

unfoldable pub append_job_step_notes :
    Text → StepId → List (Text × Note) → Db → Result (Unit {0}) × Db
unfolding merge_notes
append_job_step_notes id step [] db = (ok tt, db)
append_job_step_notes id step (n ∷ extra) db = (
  affected (count_where (is_step id step) db.steps),
  update_steps (is_step id step) (λ s. record s { notes = merge_notes s.notes (n ∷ extra) }) db,
)

unfoldable pub append_log_line : LogLine → Db → Db
append_log_line l db = record db { logs = db.logs ++ l ∷ [] }
