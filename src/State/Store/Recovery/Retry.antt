-- ===== src/State/Store/Recovery/Retry.antt =====
-- `ResetTranscodeJob` of daemon/state/store.go: what may be retried, and what a retry resets.
use disc_echo_dd.Common.{
  ◌≡◌, true, not, ◌&&◌, Text, arith, text_eq, if◌then◌else◌, ok, err, ◌↔◌, GoError,
}
use disc_echo_dd.State.Types.{Job}
use disc_echo_dd.State.Rows.{Db}
use disc_echo_dd.State.Store.Jobs.{has_id, get_job, update_jobs, update_steps}
use disc_echo_dd.State.Store.Jobs.States.{get-update_jobs}
use disc_echo_dd.State.Store.Recovery.{
  reset_transcode_job, requeued, step_requeued, swap_profile, is_transcode, is_retryable,
  is_skipped_state,
}

-- A refused retry, whatever the reason, changes nothing.
pub reset_refused :
    (id profile : Text) (db : Db) {e : GoError}
    → (reset_transcode_job id profile db).0 ≡ err e
    → (reset_transcode_job id profile db).1 ≡ db
unfolding reset_transcode_job
reset_refused id profile db h = ground arith

-- A retry of a known job goes through exactly for a transcode job that failed or was interrupted.
pub reset_accepted_iff :
    (id profile : Text) (db : Db) (j : Job)
    → get_job db id ≡ ok j
    → ((reset_transcode_job id profile db).0 ≡ ok tt)
      ↔ ((is_transcode j.kind ≡ true) × (is_retryable j.state ≡ true))
unfolding reset_transcode_job
reset_accepted_iff id profile db j e = (λ h. ground arith, λ h. ground arith)

reset_done :
    (id profile : Text) (db : Db) (j : Job)
    → get_job db id ≡ ok j
    → is_transcode j.kind ≡ true
    → is_retryable j.state ≡ true
    → reset_transcode_job id profile db ≡ (
      ok tt,
      update_steps
          (λ s. text_eq s.job_id id && not (is_skipped_state s.state))
          step_requeued
          (update_jobs (has_id id) (λ r. swap_profile profile (requeued r)) db),
    )
unfolding reset_transcode_job
reset_done id profile db j e t u = ground arith

-- An accepted retry queues the job again with its progress, times and error cleared, on the new
-- profile if one is named, and touches no other job.
pub get-reset_transcode_job :
    (id profile k : Text) (db : Db) (j r : Job)
    → get_job db id ≡ ok j
    → is_transcode j.kind ≡ true
    → is_retryable j.state ≡ true
    → get_job db k ≡ ok r
    → get_job (reset_transcode_job id profile db).1 k
      ≡ ok (if text_eq r.id id then swap_profile profile (requeued r) else r)
unfolding get_job requeued
get-reset_transcode_job id profile k db j r e t u f =
    rw (reset_done id profile db j e t u)
      (get-update_jobs (has_id id) (λ x. swap_profile profile (requeued x)) db k r keeps_id f)
  where
    keeps_id : (x : Job) → (swap_profile profile (requeued x)).id ≡ x.id
    keeps_id x = ground arith
