-- ===== src/State/Store/Recovery/Startup.antt =====
-- `MarkInterruptedJobs` of daemon/state/store.go leaves no job and no step running.
use disc_echo_dd.Common.{
  ℕ, ◌≡◌, refl, Bool, true, false, ◌&&◌, List, some, Text, if◌then◌else◌, ok, Bool-cases, inl, inr,
  ◌⊎◌, All,
}
use disc_echo_dd.State.Types.{JobState, JobStepState, Job, JobStep, is_active}
use disc_echo_dd.State.Rows.{Db}
use disc_echo_dd.State.Store.Table.{update_where, update_row, All-update_where}
use disc_echo_dd.State.Store.Jobs.{get_job}
use disc_echo_dd.State.Store.Jobs.States.{get-update_jobs}
use disc_echo_dd.State.Store.Recovery.{mark_interrupted_jobs, is_running_step, of_interrupted}

-- After the startup pass no job is active, and no step of an interrupted job is running.
pub mark_interrupted_jobs-settled :
    (now : ℕ) (db : Db)
    → let db' = (mark_interrupted_jobs now db).1 in
      All (λ (j : Job). is_active j.state ≡ false) db'.jobs
      × All
          (λ (s : JobStep). (is_running_step s.state && of_interrupted db'.jobs s) ≡ false)
          db'.steps
unfolding mark_interrupted_jobs
mark_interrupted_jobs-settled now db = (
  All-update_where (λ (j : Job). is_active j.state ≡ false) (λ j. is_active j.state) mark db.jobs
      (λ j. job_settled j (Bool-cases (is_active j.state))),
  All-update_where (λ (s : JobStep). (is_running_step s.state && of_interrupted marked s) ≡ false)
      stale fail db.steps (λ s. step_settled s (Bool-cases (stale s))),
)
  where
    mark : Job → Job
    mark j = record j { state = JobState.interrupted; finished_at = some now }

    marked : List Job
    marked = update_where (λ j. is_active j.state) mark db.jobs

    stale : JobStep → Bool
    stale s = is_running_step s.state && of_interrupted marked s

    fail : JobStep → JobStep
    fail s = record s { state = JobStepState.failed; finished_at = some now }

    job_settled :
        (j : Job)
        → (is_active j.state ≡ true) ⊎ (is_active j.state ≡ false)
        → is_active (update_row (λ k. is_active k.state) mark j).state ≡ false
    job_settled j (inl t) = rw t
    job_settled j (inr f) = rw f f

    step_settled :
        (s : JobStep)
        → (stale s ≡ true) ⊎ (stale s ≡ false)
        → stale (update_row stale fail s) ≡ false
    step_settled s (inl t) = rw t
    step_settled s (inr f) = rw f f

-- The startup pass interrupts exactly the jobs that were active and keeps every other job whole.
pub get-mark_interrupted_jobs :
    (now : ℕ) (id : Text) (db : Db) (j : Job)
    → get_job db id ≡ ok j
    → get_job (mark_interrupted_jobs now db).1 id
      ≡ ok (
          if is_active j.state
          then record j { state = JobState.interrupted; finished_at = some now }
          else j)
unfolding mark_interrupted_jobs get_job
get-mark_interrupted_jobs now id db j e =
    get-update_jobs (λ r. is_active r.state)
      (λ r. record r { state = JobState.interrupted; finished_at = some now }) db id j (λ x. refl) e
