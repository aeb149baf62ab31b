-- ===== src/Jobs/Orchestrator.antt =====
-- daemon/jobs/orchestrator.go: one job from the drive's queue to its terminal state.
pub mod Keeps
pub mod Ends
pub mod Writes
pub mod Settles
pub mod Split
pub mod Released
use disc_echo_dd.Common.{
  ℕ, Bool, true, false, not, ◌&&◌, List, [], ◌∷◌, ◌++◌, Option, none, some, Text, text_eq, is_empty,
  codes, if◌then◌else◌, GoError, error_text, is_cancellation, message, wrapped, stopped, Result, ok,
  err, error_of,
}
use disc_echo_dd.State.Types.{DiscType, disc_type_text, DriveState, JobState, JobKind, StepId, Job}
use disc_echo_dd.State.Rows.{Db, Disc, Drive, Profile}
use disc_echo_dd.State.Events
use disc_echo_dd.State.Events.{Event}
use disc_echo_dd.State.Store.Jobs.{
  get_job, update_job_state, create_job, cancel_job_if_active, list_active_job_ids,
}
use disc_echo_dd.State.Store.Drives.{get_drive, update_drive_state}
use disc_echo_dd.State.Store.Lookups.{get_disc, get_profile, update_disc_metadata_blob}
use disc_echo_dd.Spool.{create, cleanup, resize}
use disc_echo_dd.Jobs.World.{
  Config, Faults, World, Handler, SplittableHandler, TitleScanner, publish, faulty, exec, with_sink,
  send_terminal_notification, planned_steps, forget,
}

-- Compute.Enqueue. A full queue makes the caller wait; where the queue has room and the pool is
-- stopped, the select may take either case, and here it takes the stop.
unfoldable pub compute_enqueue : Text → World → Option GoError × World
compute_enqueue id w =
    if is_empty id
    then (some (message (codes "compute: empty jobID")), w)
    else if w.stopped
    then (some stopped, w)
    else (none, record w { queue = w.queue ++ id ∷ [] })

unfoldable pub fail_early : Faults → ℕ → Text → GoError → World → World
fail_early f now id cause w =
    publish (Event.job_failed id none (some (error_text cause)))
      (exec f.set_failed (update_job_state now id JobState.failed (error_text cause)) w).1

-- The final state and the error message of a run.
abbrev pub final_of : Option GoError → JobState × Text
final_of none = (JobState.done, [])
final_of (some e) =
    if is_cancellation e then (JobState.cancelled, []) else (JobState.failed, error_text e)

-- The switch that publishes the end of a job; Compute.finalise has the same one.
unfoldable pub publish_final : Text → JobState → Text → World → World
publish_final id JobState.done msg w = publish (Event.job_done id) w
publish_final id JobState.cancelled msg w =
    publish (Event.job_failed id (some JobState.cancelled) none) w
publish_final id JobState.failed msg w = publish (Event.job_failed id none (some msg)) w
publish_final id _ msg w = w

-- What a run leaves: its error, and whether it went down the splittable path.
pub record Ran : Type 0 where
  pub error : Option GoError
  pub went_split : Bool
  pub world : World

unfoldable pub run_scan :
    Config → Faults → TitleScanner → Drive → Disc → Profile → Text → World → Option GoError × World
run_scan cfg f scanner drv disc prof id w =
    let (calls, result) = scanner.scan_titles drv disc prof in
    let w1 = with_sink cfg.stat id calls w in
    elim result [
      | err e ↦ (some e, w1)
      | ok body ↦
          let (r, w2) = exec f.set_metadata (update_disc_metadata_blob disc.id body) w1 in
          elim r [
            | err e ↦ (some (wrapped (codes "scan: persist metadata") e), w2)
            | ok _ ↦ (none, publish (Event.disc_metadata disc.id body) w2)
          ]
    ]

-- The child job of a rip that succeeded.
abbrev pub transcode_child : Disc → Profile → Job → Text → Job
transcode_child disc prof rip spool_path = record {
  id = [];
  disc_id = disc.id;
  drive_id = [];
  profile_id = prof.id;
  kind = JobKind.transcode;
  parent_job_id = rip.id;
  spool_path = spool_path;
  state = JobState.queued;
  active_step = none;
  active_substep = [];
  progress = 0;
  speed = [];
  eta_seconds = 0;
  elapsed_seconds = 0;
  output_bytes = 0;
  started_at = none;
  finished_at = none;
  error_message = [];
  created_at = 0;
}

-- The tail of runSplittable: the child row, its announcement, its place in the compute queue.
unfoldable pub hand_over :
    Faults
    → ℕ
    → Text
    → SplittableHandler
    → Disc
    → Profile
    → Job
    → Text
    → World
    → Option GoError × World
unfolding compute_enqueue
hand_over f now fresh h disc prof rip spool_path w = elim f.create_child [
  | some e ↦ (some (wrapped (codes "create transcode job") e), w)
  | none ↦
      let (child, db) =
        create_job now fresh (transcode_child disc prof rip spool_path)
          (planned_steps (h.plan_transcode disc prof)) w.db in
      let (r, w2) =
        compute_enqueue child.id (publish (Event.job_created child) (record w { db = db })) in
      elim r [ some e ↦ (some (wrapped (codes "compute enqueue") e), w2) | none ↦ (none, w2) ]
]

unfoldable pub run_splittable :
    Config
    → Faults
    → ℕ
    → Text
    → SplittableHandler
    → Drive
    → Disc
    → Profile
    → Job
    → World
    → Option GoError × World
unfolding hand_over
run_splittable cfg f now fresh h drv disc prof rip w =
    let (made, spool) = create f.spool_create rip.id w.spool in
    let w1 = record w { spool = spool } in
    elim made [
      | err e ↦ (some (wrapped (codes "spool create") e), w1)
      | ok path ↦
          let (calls, result, bytes) = h.run_rip drv disc prof path in
          let w2 =
            with_sink cfg.stat rip.id calls (record w1 { spool = resize rip.id bytes w1.spool }) in
          elim result [
            | err e ↦ (some e, record w2 { spool = (cleanup f.spool_cleanup rip.id w2.spool).1 })
            | ok out ↦ hand_over f now fresh h disc prof rip (if is_empty out then path else out) w2
          ]
    ]

abbrev pub is_scan : JobKind → Bool
is_scan JobKind.scan = true
is_scan _ = false

-- `handler.(pipelines.SplittableHandler)`, where a compute pool and a spool are configured.
abbrev pub split_of : Config → Handler → Option SplittableHandler
split_of cfg h = if cfg.splits then h.splittable else none

unfoldable pub run_rip_job :
    Config → Faults → ℕ → Text → Handler → Drive → Disc → Profile → Job → World → Ran
run_rip_job cfg f now fresh h drv disc prof job w = elim (split_of cfg h) [
  | some s ↦
      let (e, w1) = run_splittable cfg f now fresh s drv disc prof job w in
      record { error = e; went_split = true; world = w1 }
  | none ↦
      let (calls, e) = h.run drv disc prof in
      record { error = e; went_split = false; world = with_sink cfg.stat job.id calls w }
]

unfoldable pub run_scan_job : Config → Faults → Handler → Drive → Disc → Profile → Job → World → Ran
run_scan_job cfg f h drv disc prof job w = elim h.scanner [
  | none ↦ record {
    error = some (
        message (
          (codes "scan: handler for " ++ disc_type_text disc.disc_type)
          ++ codes " does not implement TitleScanner"));
    went_split = false;
    world = w;
  }
  | some s ↦
      let (e, w1) = run_scan cfg f s drv disc prof job.id w in
      record { error = e; went_split = false; world = w1 }
]

unfoldable pub dispatch :
    Config → Faults → ℕ → Text → Handler → Drive → Disc → Profile → Job → World → Ran
dispatch cfg f now fresh h drv disc prof job w =
    if is_scan job.kind
    then run_scan_job cfg f h drv disc prof job w
    else run_rip_job cfg f now fresh h drv disc prof job w

-- Scans never notify, and the success of a splittable rip is announced by its transcode child.
abbrev pub notifies : Job → JobState → Bool → Bool
notifies job JobState.failed went_split = not (is_scan job.kind)
notifies job JobState.done went_split = not (is_scan job.kind) && not went_split
notifies job _ went_split = false

-- From the end of the handler on.
unfoldable pub finish : Faults → ℕ → Drive → Job → Ran → World
unfolding publish_final send_terminal_notification
finish f now drv job ran =
    let (final, msg) = final_of ran.error in
    let w1 = (exec f.set_final (update_job_state now job.id final msg) ran.world).1 in
    let w2 = (exec f.set_idle (update_drive_state now drv.id DriveState.idle) w1).1 in
    let w3 =
      publish_final job.id final msg (publish (Event.drive_changed drv.id DriveState.idle) w2) in
    if notifies job final ran.went_split then send_terminal_notification job.id final w3 else w3

-- The lookups before the run, in their order.
unfoldable pub lookups : Faults → Job → Db → Result (Disc × Drive × Profile)
lookups f job db = elim (faulty f.get_disc (get_disc db job.disc_id)) [
  | err e ↦ err e
  | ok disc ↦ elim (faulty f.get_drive (get_drive db job.drive_id)) [
    | err e ↦ err e
    | ok drv ↦ elim (faulty f.get_profile (get_profile db job.profile_id)) [
      | err e ↦ err e
      | ok prof ↦ ok (disc, drv, prof)
    ]
  ]
]

unfoldable pub run_handler :
    Config → Faults → ℕ → Text → Handler → Drive → Disc → Profile → Job → World → World
run_handler cfg f now fresh h drv disc prof job w =
    let (r, w1) = exec f.set_running (update_job_state now job.id JobState.running []) w in
    elim r [
      | err e ↦ fail_early f now job.id e w1
      | ok _ ↦
          let w2 = (exec f.set_ripping (update_drive_state now drv.id DriveState.ripping) w1).1 in
          let w3 = publish (Event.drive_changed drv.id DriveState.ripping) w2 in
          finish f now drv job (dispatch cfg f now fresh h drv disc prof job w3)
    ]

unfoldable pub no_handler : Faults → ℕ → Disc → Job → World → World
no_handler f now disc job w =
    publish (Event.job_failed job.id none none)
      (exec f.set_failed
        (update_job_state now job.id JobState.failed
          (codes "no handler for " ++ disc_type_text disc.disc_type))
        w).1

unfoldable pub run_found : Config → Faults → ℕ → Text → Job → World → World
run_found cfg f now fresh job w = elim (lookups f job w.db) [
  | err e ↦ fail_early f now job.id e w
  | ok (disc, drv, prof) ↦ elim (cfg.handlers disc.disc_type) [
    | none ↦ no_handler f now disc job w
    | some h ↦ run_handler cfg f now fresh h drv disc prof job w
  ]
]

abbrev pub is_cancelled : JobState → Bool
is_cancelled JobState.cancelled = true
is_cancelled _ = false

-- runJob; its deferred part takes the job out of the cancel map on every path.
unfoldable pub run_job : Config → Faults → ℕ → Text → Text → World → World
run_job cfg f now fresh id w =
    let w1 = record w { cancels = id ∷ w.cancels } in
    let w2 : World = elim (faulty f.get_job (get_job w1.db id)) [
      | err e ↦ fail_early f now id e w1
      | ok job ↦
          if is_cancelled job.state
          then publish (Event.job_failed id (some JobState.cancelled) none) w1
          else run_found cfg f now fresh job w1
    ] in
    record w2 { cancels = forget id w2.cancels }
