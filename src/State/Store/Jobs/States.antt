-- ===== src/State/Store/Jobs/States.antt =====
-- What the statements of daemon/state/store.go do to the state of a job.
use disc_echo_dd.Common.{
  ℕ, ◌≡◌, refl, ap, ◌∙◌, Bool, not, ◌&&◌, Option, none, some, Text, text_eq, text_eq_iff,
  if◌then◌else◌, ok,
}
use disc_echo_dd.State.Types.{JobState, Job}
use disc_echo_dd.State.Rows.{Db}
use disc_echo_dd.State.Store.Table.{
  select, update_row, select-update_where, select-true, affected_found,
}
use disc_echo_dd.State.Store.Jobs.{
  has_id, get_job, row_result, with_state, update_job_state, is_terminal, cancel_job_if_active,
  update_jobs,
}

pub select_of_get :
    (db : Db) (id : Text) {j : Job} → get_job db id ≡ ok j → select (has_id id) db.jobs ≡ some j
unfolding get_job
select_of_get db id {j} e = go (select (has_id id) db.jobs) e
  where
    go : (o : Option Job) → row_result o ≡ ok j → o ≡ some j
    go none h = absurd cc
    go (some k) h = cc

-- The job found after an update that keeps identifiers is the job found before it, updated.
pub get-update_jobs :
    (p : Job → Bool) (f : Job → Job) (db : Db) (id : Text) (j : Job)
    → ((x : Job) → (f x).id ≡ x.id)
    → get_job db id ≡ ok j
    → get_job (update_jobs p f db) id ≡ ok (update_row p f j)
unfolding get_job
get-update_jobs p f db id j keeps e =
    rw (select-update_where (has_id id) p f db.jobs (λ x. ap (λ i. text_eq i id) (keeps x)))
      (rw (select_of_get db id e))

pub get_job-id : (db : Db) (id : Text) {j : Job} → get_job db id ≡ ok j → j.id ≡ id
get_job-id db id {j} e =
    (text_eq_iff j.id id).0 (select-true (has_id id) db.jobs (select_of_get db id e))

pub with_state-id :
    (st : JobState) (now : ℕ) (msg : Text) (j : Job) → (with_state st now msg j).id ≡ j.id
unfolding with_state
with_state-id JobState.running now msg j = refl
with_state-id _ now msg j = refl

pub with_state-state :
    (st : JobState) (now : ℕ) (msg : Text) (j : Job) → (with_state st now msg j).state ≡ st
unfolding with_state
with_state-state JobState.running now msg j = refl
with_state-state _ now msg j = refl

-- A transition of an existing job succeeds, and gives that job alone the new state.
pub get-update_job_state :
    (now : ℕ) (id k : Text) (st : JobState) (msg : Text) (db : Db) (j i : Job)
    → get_job db id ≡ ok i
    → get_job db k ≡ ok j
    → let (r, db') = update_job_state now id st msg db in
      (r ≡ ok tt) × (get_job db' k ≡ ok (if text_eq j.id id then with_state st now msg j else j))
unfolding update_job_state
get-update_job_state now id k st msg db j i ei ej = (
  affected_found (has_id id) db.jobs (select_of_get db id ei),
  get-update_jobs (has_id id) (with_state st now msg) db k j (with_state-id st now msg) ej,
)

-- A cancel that comes late never overwrites a job that has ended; an active job becomes cancelled
-- and is stamped; every other job is as it was.
pub get-cancel_job_if_active :
    (now : ℕ) (id k : Text) (db : Db) (j : Job)
    → get_job db k ≡ ok j
    → get_job (cancel_job_if_active now id db) k
      ≡ ok (
          if text_eq j.id id && not (is_terminal j.state)
          then record j { state = JobState.cancelled; finished_at = some now }
          else j)
unfolding cancel_job_if_active
get-cancel_job_if_active now id k db j e =
    get-update_jobs (λ r. has_id id r && not (is_terminal r.state))
      (λ r. record r { state = JobState.cancelled; finished_at = some now }) db k j (λ x. refl) e

-- An update of one job by its identifier.
pub get-update_own :
    (f : Job → Job) (db : Db) (id : Text) (j : Job)
    → ((x : Job) → (f x).id ≡ x.id)
    → get_job db id ≡ ok j
    → get_job (update_jobs (has_id id) f db) id ≡ ok (f j)
get-update_own f db id j keeps e = get-update_jobs (has_id id) f db id j keeps e ∙ ap ok own
  where
    own : update_row (has_id id) f j ≡ f j
    own = rw ((text_eq_iff j.id id).1 (get_job-id db id e))
