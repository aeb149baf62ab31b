-- ===== src/Jobs/Submit.antt =====
-- Submit, SubmitScan and enqueue of daemon/jobs/orchestrator.go. The queue of a drive has room.
pub mod Accepted
use disc_echo_dd.Common.{
  ℕ, [], ◌∷◌, ◌++◌, Option, none, some, Text, is_empty, codes, if◌then◌else◌, GoError, message,
  wrapped, stopped, Result, ok, err,
}
use disc_echo_dd.State.Types.{disc_type_text, JobState, JobKind, Job}
use disc_echo_dd.State.Rows.{Db, Disc, Profile}
use disc_echo_dd.State.Events.{Event}
use disc_echo_dd.State.Store.Jobs.{create_job}
use disc_echo_dd.State.Store.Lookups.{get_disc, get_profile}
use disc_echo_dd.Jobs.World.{Config, Faults, World, Plan, Handler, publish, faulty, planned_steps}

unfoldable pub enqueue : Text → Text → World → Option GoError × World
enqueue drive id w =
    if w.closed
    then (some stopped, w)
    else (none, record w { drive_queue = w.drive_queue ++ (drive, id) ∷ [] })

-- The row that a submission creates; Submit leaves the kind to CreateJob.
abbrev pub submitted : JobKind → Disc → Profile → Job
submitted kind disc prof = record {
  id = [];
  disc_id = disc.id;
  drive_id = disc.drive_id;
  profile_id = prof.id;
  kind = kind;
  parent_job_id = [];
  spool_path = [];
  state = JobState.queued;
  active_step = none;
  active_substep = [];
  progress = 0;
  speed = [];
  eta_seconds = 0;
  elapsed_seconds = 0;
  output_bytes = 0;
  started_at = none;
  finished_at = none;
  error_message = [];
  created_at = 0;
}

-- The lookups of both, in their order.
unfoldable pub found : Config → Faults → Text → Text → Db → Result (Disc × Profile × Handler)
found cfg f disc_id profile_id db = elim (faulty f.get_disc (get_disc db disc_id)) [
  | err e ↦ err (wrapped (codes "get disc") e)
  | ok disc ↦ elim (faulty f.get_profile (get_profile db profile_id)) [
    | err e ↦ err (wrapped (codes "get profile") e)
    | ok prof ↦ elim (cfg.handlers disc.disc_type) [
      | none ↦ err (message (codes "no handler registered for " ++ disc_type_text disc.disc_type))
      | some h ↦ ok (disc, prof, h)
    ]
  ]
]

-- CreateJob, its announcement, and the queue of the disc's drive.
unfoldable pub queue_job :
    Faults → ℕ → Text → Text → JobKind → Plan → Disc → Profile → World → Result Job × World
unfolding enqueue
queue_job f now fresh context kind plan disc prof w = elim f.create_job [
  | some e ↦ (err (wrapped context e), w)
  | none ↦
      let (job, db) = create_job now fresh (submitted kind disc prof) (planned_steps plan) w.db in
      let (r, w2) =
        enqueue disc.drive_id job.id (publish (Event.job_created job) (record w { db = db })) in
      elim r [ some e ↦ (err e, w2) | none ↦ (ok job, w2) ]
]

unfoldable pub submit : Config → Faults → ℕ → Text → Text → Text → World → Result Job × World
unfolding found queue_job
submit cfg f now fresh disc_id profile_id w = elim (found cfg f disc_id profile_id w.db) [
  | err e ↦ (err e, w)
  | ok (disc, prof, h) ↦
      if is_empty disc.drive_id
      then (err (message (codes "submit: disc has no drive_id; cannot queue")), w)
      else queue_job f now fresh (codes "create job") JobKind.legacy (h.plan disc prof) disc prof w
]

unfoldable pub submit_scan : Config → Faults → ℕ → Text → Text → Text → World → Result Job × World
unfolding found queue_job
submit_scan cfg f now fresh disc_id profile_id w = elim (found cfg f disc_id profile_id w.db) [
  | err e ↦ (err e, w)
  | ok (disc, prof, h) ↦ elim h.scanner [
    | none ↦ (
      err (
          message (
            (codes "disc type " ++ disc_type_text disc.disc_type)
            ++ codes " does not support title scan")),
      w,
    )
    | some s ↦
        if is_empty disc.drive_id
        then (err (message (codes "submit scan: disc has no drive_id; cannot queue")), w)
        else queue_job f now fresh (codes "create scan job") JobKind.scan [] disc prof w
  ]
]
