-- ===== src/Jobs/Compute.antt =====
-- daemon/jobs/compute.go: one transcode job from the pool's queue to its terminal state. The slots of the
-- pool are in Jobs/Compute/Slots.antt; the queue is that of Jobs/World.antt. A spool is configured. The hook that
-- looks up a disc's details after its title became known runs beside the job and is left out.
pub mod Slots
pub mod Steps
pub mod Outcome
use disc_echo_dd.Common.{
  ℕ, Bool, true, false, not, ◌&&◌, List, [], ◌∷◌, ◌++◌, Option, none, some, Text, is_empty, codes,
  if◌then◌else◌, any_of, text_eq, GoError, error_text, message, wrapped, Result, ok, err,
}
use disc_echo_dd.State.Types.{disc_type_text, JobState, JobKind, Job}
use disc_echo_dd.State.Rows.{Candidate, Db, Disc, Profile}
use disc_echo_dd.State.Events.{Event}
use disc_echo_dd.State.Store.Jobs.{get_job, update_job_state, cancel_job_if_active}
use disc_echo_dd.State.Store.Lookups.{
  get_disc, get_profile, update_disc_metadata, update_disc_candidates,
}
use disc_echo_dd.State.Store.Recovery.{basename_of}
use disc_echo_dd.Spool.{Spool, cleanup}
use disc_echo_dd.Jobs.World.{
  Config, Faults, World, Handler, SplittableHandler, publish, faulty, exec, with_sink,
  send_terminal_notification, forget,
}
use disc_echo_dd.Jobs.Orchestrator.{final_of, publish_final, is_cancelled}

unfoldable pub cleanup_spool : Faults → Text → Spool → Result (Unit {0}) × Spool
cleanup_spool f spool_path s =
    if is_empty (basename_of spool_path)
    then (err (message (codes "compute: cannot derive parent ID from spool path")), s)
    else cleanup f.spool_cleanup (basename_of spool_path) s

-- On success the staging directory goes; any other end leaves it for a retry.
unfoldable pub drop_staged : Faults → JobState → Text → World → World
unfolding cleanup_spool
drop_staged f JobState.done spool_path w = record w {
  spool = if is_empty spool_path then w.spool else (cleanup_spool f spool_path w.spool).1;
}
drop_staged f _ spool_path w = w

unfoldable pub finalise : Faults → ℕ → Text → Text → JobState → Text → World → World
unfolding drop_staged
finalise f now id spool_path final msg w =
    publish_final id final msg
      (drop_staged f final spool_path (exec f.set_final (update_job_state now id final msg) w).1)

-- finalise with no spool path, for a job that is not run.
abbrev pub refuse : Faults → ℕ → Text → Text → World → World
refuse f now id msg w = finalise f now id [] JobState.failed msg w

-- `runErr == nil && !hadTitle && disc.Title != ""`
abbrev pub newly_titled : Disc → Disc → Option GoError → Bool
newly_titled before after none = is_empty before.title && not (is_empty after.title)
newly_titled before after (some e) = false

-- `len(disc.Candidates) > 0`
abbrev pub store_candidates : Faults → Disc → List Candidate → World → World
store_candidates f disc [] w = w
store_candidates f disc (c ∷ cs) w =
    (exec f.set_candidates (update_disc_candidates disc.id (c ∷ cs)) w).1

-- The title that the transcode found is stored and announced.
unfoldable pub persist_identity : Faults → Disc → World → World
persist_identity f disc w =
    let write =
      update_disc_metadata disc.id disc.title disc.year disc.metadata_provider disc.metadata_id in
    publish (Event.disc_identified disc.id disc.title disc.year disc.metadata_provider)
      (store_candidates f disc disc.candidates (exec f.set_metadata write w).1)

abbrev pub is_transcode_kind : JobKind → Bool
is_transcode_kind JobKind.transcode = true
is_transcode_kind _ = false

abbrev pub kind_text : JobKind → Text
kind_text JobKind.rip = codes "rip"
kind_text JobKind.transcode = codes "transcode"
kind_text JobKind.scan = codes "scan"
kind_text JobKind.legacy = []

-- `handler.(pipelines.SplittableHandler)`, and the refusal of a job without a spool path.
unfoldable pub splittable_for : Config → Job → Disc → Result SplittableHandler
splittable_for cfg job disc = elim (cfg.handlers disc.disc_type) [
  | none ↦ err (message (codes "no handler for " ++ disc_type_text disc.disc_type))
  | some h ↦ elim h.splittable [
    | none ↦ err (
        message
          ((codes "handler for " ++ disc_type_text disc.disc_type) ++ codes " is not splittable"))
    | some s ↦
        if is_empty job.spool_path
        then err (message (codes "transcode job has empty spool_path"))
        else ok s
  ]
]

-- The lookups and guards before the transcode, in their order.
unfoldable pub ready : Config → Faults → Job → Db → Result (Disc × Profile × SplittableHandler)
unfolding splittable_for
ready cfg f job db = elim (faulty f.get_disc (get_disc db job.disc_id)) [
  | err e ↦ err e
  | ok disc ↦ elim (faulty f.get_profile (get_profile db job.profile_id)) [
    | err e ↦ err e
    | ok prof ↦ elim (splittable_for cfg job disc) [ err e ↦ err e | ok s ↦ ok (disc, prof, s) ]
  ]
]

-- From the transcode on.
unfoldable pub transcode :
    Config → Faults → ℕ → SplittableHandler → Disc → Profile → Job → World → World
unfolding finalise persist_identity
transcode cfg f now s disc prof job w =
    let (calls, e, after, left) = s.run_transcode job.spool_path disc prof w.spool.entries in
    let w0 = record w { spool = record w.spool { entries = left } } in
    let w1 = with_sink cfg.stat job.id calls w0 in
    let w2 = if newly_titled disc after e then persist_identity f after w1 else w1 in
    let (final, msg) = final_of e in
    send_terminal_notification job.id final (finalise f now job.id job.spool_path final msg w2)

unfoldable pub start :
    Config → Faults → ℕ → SplittableHandler → Disc → Profile → Job → World → World
unfolding transcode finalise
start cfg f now s disc prof job w =
    let (r, w1) = exec f.set_running (update_job_state now job.id JobState.running []) w in
    elim r [
      | err e ↦ refuse f now job.id (error_text e) w1
      | ok _ ↦ transcode cfg f now s disc prof job (publish (Event.job_started job.id) w1)
    ]

unfoldable pub run_ready : Config → Faults → ℕ → Job → World → World
unfolding ready start finalise
run_ready cfg f now job w = elim (ready cfg f job w.db) [
  | err e ↦ refuse f now job.id (error_text e) w
  | ok (disc, prof, s) ↦ start cfg f now s disc prof job w
]

unfoldable pub run_transcode_job : Config → Faults → ℕ → Job → World → World
unfolding run_ready finalise
run_transcode_job cfg f now job w =
    if not (is_transcode_kind job.kind)
    then refuse f now job.id
        ((codes "refusing non-transcode job (kind " ++ kind_text job.kind) ++ codes ")") w
    else if is_cancelled job.state
    then publish (Event.job_failed job.id (some JobState.cancelled) none) w
    else run_ready cfg f now job w

-- runOne from the point where it holds a slot. The deferred part takes the job out of the cancel map.
unfoldable pub run_slotted : Config → Faults → ℕ → Text → World → World
unfolding run_transcode_job finalise
run_slotted cfg f now id w =
    let w1 = record w { compute_cancels = id ∷ w.compute_cancels } in
    let w2 : World = elim (faulty f.get_job (get_job w1.db id)) [
      | err e ↦ refuse f now id (error_text e) w1
      | ok job ↦ run_transcode_job cfg f now job w1
    ] in
    record w2 { compute_cancels = forget id w2.compute_cancels }

-- `refused` is the error of acquire, which a pool that is closed gives: the job stays as it is.
unfoldable pub run_one : Config → Faults → Option GoError → ℕ → Text → World → World
unfolding run_slotted
run_one cfg f (some e) now id w = w
run_one cfg f none now id w = run_slotted cfg f now id w

-- `c.cancels[jobID]`
unfoldable pub owns : World → Text → Bool
owns w id = any_of (λ k. text_eq k id) w.compute_cancels
