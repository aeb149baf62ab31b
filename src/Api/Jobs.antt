-- ===== src/Api/Jobs.antt =====
-- daemon/api/jobs.go: the handlers that read, cancel, retry and delete jobs. A failure of the store or
-- of the spool is an argument.
pub mod Retry
pub mod Delete
use disc_echo_dd.Common.{
  ℕ, Bool, true, false, not, ◌&&◌, ◌||◌, List, [], ◌∷◌, ◌++◌, Option, none, some, Text, text_eq,
  is_empty, codes, ◌==◌, if◌then◌else◌, GoError, not_found, context_canceled, deadline_exceeded,
  stopped, invalid_job_kind_for_retry, invalid_job_state_for_retry, message, wrapped, error_text,
  Result, ok, err, error_of,
}
use disc_echo_dd.State.Types.{JobState, job_state_text, Job, disc_type_eq}
use disc_echo_dd.State.Rows.{Db, Disc, Profile}
use disc_echo_dd.State.Store.Jobs.{get_job, is_terminal}
use disc_echo_dd.State.Store.Lookups.{get_disc, get_profile}
use disc_echo_dd.State.Store.Recovery.{reset_transcode_job, is_transcode, is_retryable}
use disc_echo_dd.State.Store.History.{delete_job_and_orphans}
use disc_echo_dd.Spool.{Spool, cleanup}
use disc_echo_dd.Jobs.World.{Faults, World, faulty, exec}
use disc_echo_dd.Jobs.Orchestrator.{compute_enqueue}
use disc_echo_dd.Jobs.Cancel.{cancel, cancel_all}

pub data Refusal : Type 0 where
  missing conflict gone unprocessable internal unavailable : Refusal

unfoldable pub refusal_status : Refusal → ℕ
refusal_status missing = 404
refusal_status conflict = 409
refusal_status gone = 410
refusal_status unprocessable = 422
refusal_status internal = 500
refusal_status unavailable = 503

-- What a handler answers; a refusal comes with its error text.
pub data Response : Type 0 where
  accepted no_content : Response
  job_detail : Job → Disc → Response
  cancelled_count : ℕ → Response
  refused : Refusal → Text → Response

unfoldable pub status : Response → ℕ
unfolding refusal_status
status accepted = 202
status no_content = 204
status (job_detail j d) = 200
status (cancelled_count n) = 200
status (refused r m) = refusal_status r

-- `errors.Is(err, state.ErrNotFound)`
unfoldable pub is_not_found : GoError → Bool
is_not_found not_found = true
is_not_found (wrapped m e) = is_not_found e
is_not_found _ = false

unfoldable pub is_invalid_state : GoError → Bool
is_invalid_state invalid_job_state_for_retry = true
is_invalid_state (wrapped m e) = is_invalid_state e
is_invalid_state _ = false

unfoldable pub is_invalid_kind : GoError → Bool
is_invalid_kind invalid_job_kind_for_retry = true
is_invalid_kind (wrapped m e) = is_invalid_kind e
is_invalid_kind _ = false

-- An early return, or the value to go on with.
pub data Stage {ℓ} (A : Type ℓ) : Type ℓ where
  stop : Refusal → Text → Stage A
  go : A → Stage A

-- The failures of the calls that the handlers make.
pub record ApiFaults : Type 0 where
  pub get_job : Option GoError
  pub get_disc : Option GoError
  pub get_profile : Option GoError
  pub reset : Option GoError
  pub delete : Option GoError
  pub spool_cleanup : Option GoError

-- A row that is looked up, with the text for a missing one.
abbrev pub looked_up {ℓ} : {A : Type ℓ} → Refusal → Text → Result A → Stage A
looked_up r text (ok a) = go a
looked_up r text (err e) = if is_not_found e then stop r text else stop internal (error_text e)

abbrev pub then_stage {ℓ κ} : {A : Type ℓ} {B : Type κ} → Stage A → (A → Stage B) → Stage B
then_stage (stop r text) f = stop r text
then_stage (go a) f = f a

unfoldable pub load_job : ApiFaults → Text → Db → Stage Job
unfolding is_not_found
load_job f id db = looked_up missing (codes "job not found") (faulty f.get_job (get_job db id))

unfoldable pub get_job_detail : ApiFaults → Text → Db → Response
unfolding load_job
get_job_detail f id db = elim (load_job f id db) [
  | stop r text ↦ refused r text
  | go j ↦ elim (faulty f.get_disc (get_disc db j.disc_id)) [
    | err e ↦ refused internal (error_text e)
    | ok d ↦ job_detail j d
  ]
]

abbrev pub answer : Response → Option GoError → Response
answer r none = r
answer r (some e) = refused internal (error_text e)

unfoldable pub cancel_job : Faults → ℕ → Text → World → Response × World
unfolding cancel
cancel_job f now id w = let (e, w1) = cancel f now id w in (answer no_content e, w1)

unfoldable pub cancel_all_jobs : Faults → ℕ → World → Response × World
unfolding cancel_all
cancel_all_jobs f now w = let (n, e, w1) = cancel_all f now w in (answer (cancelled_count n) e, w1)

-- The checks on the job; `stat` says whether a path exists.
unfoldable pub check_retry : (Text → Bool) → Bool → Job → Stage Job
unfolding job_state_text
check_retry stat has_compute j =
    if not (is_transcode j.kind)
    then stop unprocessable (codes "job is not a transcode job")
    else if not (is_retryable j.state)
    then stop conflict (
        codes "job is in state \""
        ++ job_state_text j.state
        ++ codes "\", expected failed or interrupted")
    else if is_empty j.spool_path
    then stop unprocessable (codes "job has no spool path")
    else if not (stat j.spool_path)
    then stop gone (codes "spool dir is gone — re-rip the disc instead")
    else if not has_compute
    then stop unavailable (codes "compute pool not configured")
    else go j

abbrev pub fits_disc : Text → Profile → Disc → Stage Text
fits_disc wanted p d =
    if not p.enabled || not (disc_type_eq p.disc_type d.disc_type)
    then stop unprocessable (codes "profile does not match this disc's type or is disabled")
    else go wanted

-- The profile to swap to; the empty text is no swap.
unfoldable pub new_profile : ApiFaults → Text → Db → Job → Stage Text
unfolding is_not_found disc_type_eq
new_profile f wanted db j =
    if is_empty wanted || text_eq wanted j.profile_id
    then go []
    else elim (faulty f.get_disc (get_disc db j.disc_id)) [
      | err e ↦ stop internal (error_text e)
      | ok d ↦
          then_stage
            (looked_up unprocessable (codes "profile not found")
              (faulty f.get_profile (get_profile db wanted)))
            (λ p. fits_disc wanted p d)
    ]

unfoldable pub admit_retry : ApiFaults → (Text → Bool) → Bool → Text → Text → Db → Stage Text
unfolding load_job check_retry new_profile
admit_retry f stat has_compute wanted id db =
    then_stage (load_job f id db)
      (λ j. then_stage (check_retry stat has_compute j) (λ k. new_profile f wanted db k))

abbrev pub reset_refusal : GoError → Response
reset_refusal e =
    if is_invalid_state e
    then refused conflict (error_text e)
    else if is_invalid_kind e
    then refused unprocessable (error_text e)
    else refused internal (error_text e)

abbrev pub enqueued : Option GoError → Response
enqueued = answer accepted

unfoldable pub after_reset : Text → Result (Unit {0}) → World → Response × World
unfolding is_invalid_state is_invalid_kind compute_enqueue
after_reset id (err e) w = (reset_refusal e, w)
after_reset id (ok u) w = let (e, w1) = compute_enqueue id w in (enqueued e, w1)

-- The reset and the new place in the compute queue.
unfoldable pub apply_retry : ApiFaults → Text → Text → World → Response × World
unfolding after_reset reset_transcode_job
apply_retry f id profile w =
    let (r, w1) = exec f.reset (reset_transcode_job id profile) w in after_reset id r w1

-- `between` is what other requests and workers do to the tables between the checks and the reset.
unfoldable pub admitted : ApiFaults → (Db → Db) → Text → Stage Text → World → Response × World
unfolding apply_retry
admitted f between id (stop r text) w = (refused r text, w)
admitted f between id (go profile) w = apply_retry f id profile (record w { db = between w.db })

-- `wanted` is the profile of the request's body, if it names one.
unfoldable pub retry_transcode :
    ApiFaults → (Text → Bool) → Bool → (Db → Db) → Text → Text → World → Response × World
unfolding admit_retry admitted
retry_transcode f stat has_compute between wanted id w =
    admitted f between id (admit_retry f stat has_compute wanted id w.db) w

-- The name behind the last slash.
unfoldable pub after_slash : Text → Text → Text
after_slash [] base = base
after_slash (c ∷ p) base = after_slash p (if c == b'/' then p else base)

unfoldable pub without_trailing : Text → Text
without_trailing [] = []
without_trailing (c ∷ p) =
    let rest = without_trailing p in if (c == b'/') && is_empty rest then [] else c ∷ rest

abbrev pub base_of_stripped : Text → Text
base_of_stripped [] = codes "/"
base_of_stripped (c ∷ p) = after_slash (c ∷ p) (c ∷ p)

-- filepath.Base
unfoldable pub file_base : Text → Text
unfolding after_slash without_trailing
file_base p = if is_empty p then codes "." else base_of_stripped (without_trailing p)

-- A deleted transcode job frees its staging directory, where a spool is configured; a failure is
-- logged.
unfoldable pub reclaim : ApiFaults → Bool → Job → World → World
unfolding file_base cleanup
reclaim f has_spool j w =
    if is_transcode j.kind && not (is_empty j.spool_path) && has_spool
    then record w { spool = (cleanup f.spool_cleanup (file_base j.spool_path) w.spool).1 }
    else w

unfoldable pub after_delete : ApiFaults → Bool → Job → Result (Unit {0}) → World → Response × World
unfolding reclaim
after_delete f has_spool j (err e) w = (refused internal (error_text e), w)
after_delete f has_spool j (ok u) w = (no_content, reclaim f has_spool j w)

unfoldable pub delete_loaded : ApiFaults → Bool → Text → Stage Job → World → Response × World
unfolding after_delete delete_job_and_orphans
delete_loaded f has_spool id (stop r text) w = (refused r text, w)
delete_loaded f has_spool id (go j) w =
    let (r, w1) = exec f.delete (delete_job_and_orphans id) w in
    if not (is_terminal j.state)
    then (refused conflict (codes "job is not in a terminal state"), w)
    else after_delete f has_spool j r w1

unfoldable pub delete_job : ApiFaults → Bool → Text → World → Response × World
unfolding load_job delete_loaded
delete_job f has_spool id w = delete_loaded f has_spool id (load_job f id w.db) w
