-- ===== src/State/Store/Queries.antt =====
-- daemon/state/store.go: the queries on log lines, on the lifecycle of many discs, and on the disc in a
-- drive. Rows stand in the order of their insertion.
pub mod Batched
pub mod Logs
pub mod Clearable
use disc_echo_dd.Common.{
  ℕ, ◌-◌, zero, suc, Bool, true, false, not, ◌&&◌, ◌||◌, List, [], ◌∷◌, ◌++◌, map, Option, none,
  some, Text, text_eq, is_empty, if◌then◌else◌, ltb, leb, ◌==◌, keep_if, any_of, length, ℤ, pos,
  negsuc,
}
use disc_echo_dd.State.Types.{
  DiscType, DiscLifecycleState, Job, JobState, StepId, step_eq, is_active,
}
use disc_echo_dd.State.Rows.{Db, Disc, LogLine}
use disc_echo_dd.State.Lifecycle.{derive_lifecycle_state}
use disc_echo_dd.State.Store.Table.{select, count_where}
use disc_echo_dd.State.Store.Jobs.{disc_has_active_job, is_terminal}
use disc_echo_dd.State.Store.Lookups.{has_disc_id}

-- LIMIT and OFFSET
unfoldable pub take {ℓ} : {A : Type ℓ} → ℕ → List A → List A
take zero xs = []
take (suc n) [] = []
take (suc n) (x ∷ xs) = x ∷ take n xs

unfoldable pub skip {ℓ} : {A : Type ℓ} → ℕ → List A → List A
skip zero xs = xs
skip (suc n) [] = []
skip (suc n) (x ∷ xs) = skip n xs

-- ORDER BY id DESC, and the loop that swaps the two ends until they meet.
unfoldable pub reverse_onto {ℓ} : {A : Type ℓ} → List A → List A → List A
reverse_onto [] acc = acc
reverse_onto (x ∷ xs) acc = reverse_onto xs (x ∷ acc)

abbrev pub of_job : Text → LogLine → Bool
of_job id l = text_eq l.job_id id

-- The number of lines that a tail is cut to.
abbrev pub tail_limit : ℤ → ℕ
tail_limit (pos zero) = 200
tail_limit (pos (suc k)) = suc k
tail_limit (negsuc k) = 200

unfoldable pub tail_log_lines : Text → ℤ → Db → List LogLine
unfolding take reverse_onto
tail_log_lines id n db =
    reverse_onto (take (tail_limit n) (reverse_onto (keep_if (of_job id) db.logs) [])) []

pub record LogFilter : Type 0 where
  pub step : Option StepId
  pub limit : ℤ
  pub offset : ℤ

-- Between 1 and 2000; the default stands for a limit that is not positive.
unfoldable pub clamped_limit : ℤ → ℕ
clamped_limit (pos zero) = 500
clamped_limit (pos (suc k)) = if ltb 2000 (suc k) then 2000 else suc k
clamped_limit (negsuc k) = 500

unfoldable pub clamped_offset : ℤ → ℕ
clamped_offset (pos n) = n
clamped_offset (negsuc k) = 0

abbrev pub has_step : Option StepId → Option StepId → Bool
has_step none s = true
has_step (some t) none = false
has_step (some t) (some s) = step_eq s t

abbrev pub matching : Text → LogFilter → LogLine → Bool
matching id f l = of_job id l && has_step f.step l.step

-- The lines of the page, and the number of all that match.
unfoldable pub list_log_lines : Text → LogFilter → Db → List LogLine × ℕ
unfolding take skip clamped_limit clamped_offset
list_log_lines id f db = (
  take (clamped_limit f.limit) (skip (clamped_offset f.offset) (keep_if (matching id f) db.logs)),
  count_where (matching id f) db.logs,
)

-- `byDisc[discID] = append(byDisc[discID], j)`
unfoldable pub append_at : Text → Job → List (Text × List Job) → List (Text × List Job)
append_at k j [] = (k, j ∷ []) ∷ []
append_at k j ((i, js) ∷ m) =
    let rest = append_at k j m in if text_eq i k then (i, js ++ j ∷ []) ∷ m else (i, js) ∷ rest

unfoldable pub by_disc : List Job → List (Text × List Job) → List (Text × List Job)
unfolding append_at
by_disc [] m = m
by_disc (j ∷ js) m = by_disc js (append_at j.disc_id j m)

-- `byDisc[id]`
unfoldable pub jobs_at : Text → List (Text × List Job) → List Job
jobs_at k [] = []
jobs_at k ((i, js) ∷ m) = let rest = jobs_at k m in if text_eq i k then js else rest

-- `types[id]`: a disc that is missing has the empty type, which like DATA has no transcode half.
abbrev pub type_at : Option Disc → DiscType
type_at none = DiscType.data_disc
type_at (some d) = d.disc_type

abbrev pub is_asked : List Text → Text → Bool
is_asked ids id = any_of (λ i. text_eq i id) ids

-- One SELECT for the types and one for the jobs of all the discs asked for.
unfoldable pub lifecycle_states : List Text → Db → List (Text × DiscLifecycleState)
unfolding by_disc jobs_at derive_lifecycle_state select
lifecycle_states ids db =
    let types = keep_if (λ (d : Disc). is_asked ids d.id) db.discs in
    let grouped = by_disc (keep_if (λ (j : Job). is_asked ids j.disc_id) db.jobs) [] in
    map
      (λ id.
        (id, derive_lifecycle_state (type_at (select (has_disc_id id) types)) (jobs_at id grouped)))
      ids

-- ORDER BY created_at DESC LIMIT 1; of equal times the first.
unfoldable pub newest_disc : List Disc → Option Disc → Option Disc
newest_disc [] best = best
newest_disc (d ∷ ds) none = newest_disc ds (some d)
newest_disc (d ∷ ds) (some best) =
    newest_disc ds (some (if ltb best.created_at d.created_at then d else best))

abbrev pub on_drive : Text → Disc → Bool
on_drive drive d = text_eq d.drive_id drive

-- A dead end for the user: no job yet, or one that did not succeed.
unfoldable pub is_clearable : DiscLifecycleState → Bool
is_clearable DiscLifecycleState.awaiting_decision = true
is_clearable DiscLifecycleState.failed = true
is_clearable DiscLifecycleState.cancelled = true
is_clearable DiscLifecycleState.interrupted = true
is_clearable _ = false

-- `states[id]` for a map with the one key.
abbrev pub first_state : List (Text × DiscLifecycleState) → DiscLifecycleState
first_state [] = DiscLifecycleState.done
first_state ((id, s) ∷ rest) = s

unfoldable pub clearable_disc : Db → Option Disc → Option Text
unfolding disc_has_active_job lifecycle_states is_clearable
clearable_disc db none = none
clearable_disc db (some d) =
    if disc_has_active_job d.id db
    then none
    else if is_clearable (first_state (lifecycle_states (d.id ∷ []) db))
    then some d.id
    else none

-- `none` is the empty identifier.
unfoldable pub clearable_disc_on_drive : Text → Db → Option Text
unfolding newest_disc clearable_disc
clearable_disc_on_drive drive db =
    if is_empty drive
    then none
    else clearable_disc db (newest_disc (keep_if (on_drive drive) db.discs) none)

-- `cutoff` is the time of the call less the cool-down; a finished time that is missing is before it.
unfoldable pub has_recent_job_on_drive : Text → ℕ → ℕ → Db → Bool
has_recent_job_on_drive drive cooldown now db =
    if is_empty drive || cooldown == 0
    then false
    else ltb 0 (
        count_where
          (λ (j : Job).
            text_eq j.drive_id drive && is_terminal j.state && since (now - cooldown) j.finished_at)
          db.jobs)
  where
    since : ℕ → Option ℕ → Bool
    since cutoff none = false
    since cutoff (some t) = leb cutoff t
