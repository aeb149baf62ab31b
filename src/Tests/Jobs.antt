-- ===== src/Tests/Jobs.antt =====
-- Runs of the orchestrator, the pool, the kill switch and the sink.
use disc_echo_dd.Common.{
  ◌≡◌, ◌⊎◌, refl, true, not, List, [], ◌∷◌, ◌++◌, none, some, codes, text_eq, keep_if, length, ◌*◌,
  ◌+◌, ◌-◌, ◌≤◌, message, GoError, ok, err, arith,
}
use disc_echo_dd.State.Types.{Job, DriveState, JobKind, JobState, StepId}
use disc_echo_dd.State.Rows.{Drive}
use disc_echo_dd.State.Events.{Event, job_progress}
use disc_echo_dd.State.Store.Table.{select, update_where}
use disc_echo_dd.State.Store.Jobs.{
  get_job, create_job, update_job_progress, update_job_sub_step, set_active_step,
}
use disc_echo_dd.State.Store.Drives.{get_drive}
use disc_echo_dd.Spool.{Entry, Spool, path, has_entry}
use disc_echo_dd.Jobs.Orchestrator.{run_job, run_splittable}
use disc_echo_dd.Jobs.Orchestrator.Ends.{EndsOnce, run_job-EndsOnce}
use disc_echo_dd.Jobs.Orchestrator.Writes.{HasEnded}
use disc_echo_dd.Jobs.Orchestrator.Settles.{run_job_ends, run_job_frees_drive}
use disc_echo_dd.Jobs.World.{forget, with_sink}
use disc_echo_dd.Jobs.Orchestrator.Released.{NotifiedOnce, run_job_releases}
use disc_echo_dd.Jobs.Orchestrator.Split.{
  IsChild, played, finished_rip_hands_over, failed_rip_hands_nothing_over,
}
use disc_echo_dd.Jobs.Compute.{run_one, transcode, splittable_for}
use disc_echo_dd.Jobs.Compute.Outcome.{
  run_one-EndsOnce, run_one_ends, finished_transcode_frees_staged,
}
use disc_echo_dd.State.Store.Lookups.{get_disc, get_profile}
use disc_echo_dd.Jobs.Submit.{submitted, submit, found, queue_job, enqueue}
use disc_echo_dd.Jobs.Submit.Accepted.{submit_queues}
use disc_echo_dd.Jobs.Cancel.{cancel_all}
use disc_echo_dd.Jobs.Cancel.Reach.{Reached, cancel_all_reaches}
use disc_echo_dd.Jobs.Sink.{flush, progress_interval, on_step_start, on_step_done, on_progress}
use disc_echo_dd.State.Store.Steps.{update_job_step_state, append_job_step_notes}
use disc_echo_dd.Jobs.Sink.Throttle.{run_progress, progress_rate, flush_publishes_last}
use disc_echo_dd.Tests.Samples.{
  rip_job, transcode_job, drive, disc, profile, world, no_faults, report, reports, splittable,
  handler, config, sink,
}

run_job_ends_example :
    HasEnded (codes "r") (run_job config no_faults 10 (codes "t2") (codes "r") world).db
unfolding get_job select text_eq
run_job_ends_example =
    run_job_ends no_faults 10 refl refl refl config (codes "t2") (codes "r") world rip_job refl

run_job_frees_drive_example :
    (d' : Drive) × (get_drive
        (run_job config no_faults 10 (codes "t2") (codes "r") world).db
        (codes "drive")
      ≡ ok d')
    × ((d' ≡ drive DriveState.idle) ⊎ (d'.state ≡ DriveState.idle))
unfolding get_job get_drive select text_eq
run_job_frees_drive_example =
    run_job_frees_drive no_faults 10 refl refl refl config (codes "t2") (codes "r") world rip_job
      (codes "drive") (drive DriveState.idle) refl refl

run_job-EndsOnce_example :
    EndsOnce (codes "r") world (run_job config no_faults 10 (codes "t2") (codes "r") world)
run_job-EndsOnce_example = run_job-EndsOnce config no_faults 10 (codes "t2") (codes "r") world

finished_rip_hands_over_example :
    let h = splittable (ok []) in
    let v = drive DriveState.idle in
    let (r, w') = run_splittable config no_faults 10 (codes "t2") h v disc profile rip_job world in
    (r ≡ none)
    × (w'.queue ≡ codes "t2" ∷ [])
    × (has_entry (codes "r") w'.spool.entries ≡ true)
    × ((c : Job) × IsChild disc profile rip_job (codes "t2") (path world.spool (codes "r")) 10 c
        × (w'.db.jobs ≡ (played config h v disc profile rip_job world).db.jobs ++ c ∷ [])
        × (get_job w'.db (codes "t2") ≡ ok c)
        × (splittable_for config c disc ≡ ok h))
unfolding text_eq with_sink on_step_done append_job_step_notes update_job_step_state
    update_job_progress update_where on_progress on_step_start update_job_sub_step set_active_step
finished_rip_hands_over_example =
    finished_rip_hands_over config no_faults 10 (codes "t2") (splittable (ok []))
      (drive DriveState.idle) disc profile rip_job world refl refl [] (handler (ok [])) refl refl
      refl refl refl refl refl

failed_rip_hands_nothing_over_example :
    let h = splittable (err (message (codes "read error"))) in
    let (r, w') =
      run_splittable config no_faults 10
        (codes "t2")
        h
        (drive DriveState.idle)
        disc
        profile
        rip_job
        world in
    (r ≡ some (message (codes "read error")))
    × (w'.queue ≡ [])
    × (w'.db ≡ (played config h (drive DriveState.idle) disc profile rip_job world).db)
    × (w'.spool.entries
        ≡ keep_if (λ (x : Entry). not (text_eq x.0 (codes "r"))) world.spool.entries)
failed_rip_hands_nothing_over_example =
    failed_rip_hands_nothing_over config no_faults 10 (codes "t2")
      (splittable (err (message (codes "read error")))) (drive DriveState.idle) disc profile rip_job
      world refl refl (message (codes "read error")) refl refl

run_one_ends_example :
    HasEnded (codes "t") (run_one config no_faults none 10 (codes "t") world).db
    × (run_one config no_faults (some GoError.stopped) 10 (codes "t") world ≡ world)
unfolding get_job select text_eq
run_one_ends_example =
    run_one_ends config no_faults 10 (codes "t") world transcode_job GoError.stopped refl refl

run_one-EndsOnce_example :
    EndsOnce (codes "t") world (run_one config no_faults none 10 (codes "t") world)
run_one-EndsOnce_example = run_one-EndsOnce config no_faults 10 (codes "t") world

finished_transcode_frees_staged_example :
    (transcode config no_faults 10
      (splittable (ok []))
      disc
      profile
      transcode_job
      world).spool.entries
    ≡ keep_if
        (λ (x : Entry). not (text_eq x.0 (codes "r")))
        ((codes "encoded", 80) ∷ world.spool.entries)
finished_transcode_frees_staged_example =
    finished_transcode_frees_staged config no_faults 10 (splittable (ok [])) disc profile
      transcode_job world (codes "/spool") (codes "r") refl refl refl
      ((ground arith, ground arith), tt) refl

cancel_all_reaches_example : Reached (codes "t") (cancel_all no_faults 10 world).2
unfolding get_job select text_eq
cancel_all_reaches_example =
    cancel_all_reaches no_faults 10 refl (codes "t") world transcode_job refl refl refl

progress_rate_example :
    length (run_progress reports sink).published * progress_interval
    ≤ (length sink.published + 1) * progress_interval + (6 - 5)
progress_rate_example =
    progress_rate reports sink 5 6 refl (omega arith, (omega arith, omega arith))

flush_publishes_last_example :
    let s' = flush 9 (run_progress reports sink) in
    (s'.pending_progress ≡ none)
    × ((before : List Event) × (s'.published
          ≡ before ++ job_progress s'.job_id StepId.rip 2 [] 0 ∷ []))
flush_publishes_last_example =
    flush_publishes_last ((6, report StepId.rip 2) ∷ []) 5 9 (report StepId.rip 1) sink

submit_queues_example :
    let job = record (submitted JobKind.rip disc profile) { id = codes "n"; created_at = 10 } in
    let w' = (submit config no_faults 10 (codes "n") (codes "disc") (codes "prof") world).1 in
    (w'.db.jobs ≡ world.db.jobs ++ job ∷ [])
    × (w'.drive_queue ≡ (codes "drive", codes "n") ∷ [])
    × (job.state ≡ JobState.queued)
    × (job.kind ≡ JobKind.rip)
unfolding submit found queue_job enqueue create_job get_disc get_profile select text_eq
submit_queues_example =
    submit_queues config no_faults 10 (codes "n") (codes "disc") (codes "prof") world
      (record (submitted JobKind.rip disc profile) { id = codes "n"; created_at = 10 }) refl

run_job_releases_example :
    let w' = run_job config no_faults 10 (codes "t2") (codes "r") world in
    NotifiedOnce rip_job world w' × (w'.cancels ≡ forget (codes "r") (codes "r" ∷ []))
unfolding get_job select text_eq
run_job_releases_example =
    run_job_releases config no_faults 10 (codes "t2") (codes "r") world rip_job refl
