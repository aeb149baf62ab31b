-- ===== src/Jobs/Cancel.antt =====
-- Cancel and CancelAll of daemon/jobs/orchestrator.go, and Cancel of daemon/jobs/compute.go.
pub mod Reach
use disc_echo_dd.Common.{
  ℕ, suc, ◌+◌, Bool, true, false, ◌&&◌, List, [], ◌∷◌, ◌++◌, Option, none, some, Text, text_eq,
  codes, if◌then◌else◌, length, any_of, GoError, wrapped, Result, ok, err,
}
use disc_echo_dd.State.Store.Jobs.{cancel_job_if_active, list_active_job_ids}
use disc_echo_dd.Jobs.World.{Faults, World, faulty}
use disc_echo_dd.Jobs.Compute.{owns}

-- `cancel()` of the job's context.
abbrev pub signal : Text → World → World
signal id w = record w { signalled = id ∷ w.signalled }

-- CancelJobIfActive under a failure.
abbrev pub cancel_stored : Text → Option GoError → ℕ → Text → World → Option GoError × World
cancel_stored context none now id w = (none, record w { db = cancel_job_if_active now id w.db })
cancel_stored context (some e) now id w = (some (wrapped context e), w)

unfoldable pub compute_cancel : Faults → ℕ → Text → World → Option GoError × World
compute_cancel f now id w =
    if owns w id
    then (none, signal id w)
    else cancel_stored (codes "compute cancel") f.cancel_active now id w

-- A pool that is not configured owns no job.
unfoldable pub cancel : Faults → ℕ → Text → World → Option GoError × World
unfolding compute_cancel
cancel f now id w =
    if any_of (λ k. text_eq k id) w.cancels
    then (none, signal id w)
    else if owns w id
    then compute_cancel f now id w
    else cancel_stored (codes "cancel") f.cancel_active now id w

-- `if err != nil && firstErr == nil { firstErr = err }`
abbrev pub first_error : Option GoError → Option GoError → Option GoError
first_error none e = e
first_error (some e) _ = some e

-- The loop over the identifiers, with the first error so far.
unfoldable pub cancel_each :
    Faults → ℕ → List Text → Option GoError → World → Option GoError × World
unfolding cancel
cancel_each f now [] first w = (first, w)
cancel_each f now (id ∷ ids) first w =
    let (e, w1) = cancel f now id w in cancel_each f now ids (first_error first e) w1

unfoldable pub cancel_all : Faults → ℕ → World → ℕ × Option GoError × World
unfolding cancel_each
cancel_all f now w = elim (faulty f.list_active (ok (list_active_job_ids w.db))) [
  | err e ↦ (0, some (wrapped (codes "list active jobs") e), w)
  | ok ids ↦ let (first, w1) = cancel_each f now ids none w in (length ids, first, w1)
]
