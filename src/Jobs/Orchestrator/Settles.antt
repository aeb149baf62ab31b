-- ===== src/Jobs/Orchestrator/Settles.antt =====
-- What a run of daemon/jobs/orchestrator.go leaves of the job and of the drives, where the writes that
-- end a job do not fail.
use disc_echo_dd.Common.{
  ℕ, ◌≡◌, ◌⊎◌, refl, subst, ◌∙◌, true, [], ◌∷◌, ◌++◌, Option, none, some, Text, Bool-cases,
  Option-cases, inl, inr, GoError, error_text, codes, ok, Result-cases,
}
use disc_echo_dd.State.Types.{disc_type_text, DriveState, JobState, Job}
use disc_echo_dd.State.Rows.{Db, Disc, Drive, Profile}
use disc_echo_dd.State.Events.{Event}
use disc_echo_dd.State.Store.Jobs.{get_job, update_job_state, is_terminal}
use disc_echo_dd.State.Store.Jobs.States.{get_job-id}
use disc_echo_dd.State.Store.Drives.{update_drive_state, get_drive}
use disc_echo_dd.Jobs.World.{Config, Faults, World, Handler, publish, exec, faulty}
use disc_echo_dd.Jobs.Orchestrator.{
  Ran, fail_early, final_of, dispatch, finish, lookups, run_handler, no_handler, run_found,
  is_cancelled, run_job,
}
use disc_echo_dd.Jobs.Orchestrator.Keeps.{dispatch-Calm, ok_without_fault}
use disc_echo_dd.Jobs.Orchestrator.Writes.{
  cancelled_ended, HasEnded, Exists, IdleOrSame, ended_by, update_job_state-Exists,
  update_drive_state-Keeps, Keeps-Exists, Keeps-HasEnded, final_of-is_terminal, finish-db,
  idle_after,
}

-- The job has ended, and each drive is as it was or idle.
record Settled (id : Text) (w w' : World) : Type 0 where
  ended : HasEnded id w'.db
  drives : IdleOrSame w.db w'.db

untouched : (w : World) (db : Db) → db.drives ≡ w.db.drives → IdleOrSame w.db db
unfolding get_drive
untouched w db h k d e = (d, rw h e, inl refl)

-- A transition of a job leaves the drives alone.
transition_drives :
    (fault : Option GoError) (now : ℕ) (id : Text) (st : JobState) (msg : Text) (w : World)
    → (exec fault (update_job_state now id st msg) w).1.db.drives ≡ w.db.drives
unfolding update_job_state
transition_drives none now id st msg w = refl
transition_drives (some e) now id st msg w = refl

from_same_drives : (a b c : Db) → b.drives ≡ a.drives → IdleOrSame b c → IdleOrSame a c
unfolding get_drive
from_same_drives a b c h p k d e = p k d (rw h e)

module _ (f : Faults) (now : ℕ) (failed_ok : f.set_failed ≡ none) (final_ok : f.set_final ≡ none)
    (idle_ok : f.set_idle ≡ none) where
  ended_unfailing :
      (fault : Option GoError) (id : Text) (st : JobState) (msg : Text) (w : World)
      → fault ≡ none
      → is_terminal st ≡ true
      → Exists id w.db
      → HasEnded id (exec fault (update_job_state now id st msg) w).1.db
  ended_unfailing fault id st msg w h t j = rw h (ended_by now id st msg w.db t j)

  fail_early-Settled :
      (id : Text) (cause : GoError) (w : World)
      → Exists id w.db
      → Settled id w (fail_early f now id cause w)
  unfolding fail_early
  fail_early-Settled id cause w j = record {
    ended = ended_unfailing f.set_failed id JobState.failed (error_text cause) w failed_ok refl j;
    drives =
        untouched w _ (transition_drives f.set_failed now id JobState.failed (error_text cause) w);
  }

  no_handler-Settled :
      (disc : Disc) (job : Job) (w : World)
      → Exists job.id w.db
      → Settled job.id w (no_handler f now disc job w)
  unfolding no_handler
  no_handler-Settled disc job w j =
      let msg = codes "no handler for " ++ disc_type_text disc.disc_type in
      record {
        ended = ended_unfailing f.set_failed job.id JobState.failed msg w failed_ok refl j;
        drives = untouched w _ (transition_drives f.set_failed now job.id JobState.failed msg w);
      }

  -- The end of a run whose drive was set to ripping in `a`.
  finish-Settled :
      (drv : Drive) (job : Job) (a : World) (ran : Ran)
      → Exists job.id ran.world.db
      → ran.world.db.drives
        ≡ (exec f.set_ripping (update_drive_state now drv.id DriveState.ripping) a).1.db.drives
      → Settled job.id a (finish f now drv job ran)
  finish-Settled drv job a ran j same =
      let final = final_of ran.error in
      let w1 = (exec f.set_final (update_job_state now job.id final.0 final.1) ran.world).1 in
      let shape = finish-db f now drv job ran in
      let w2 = (exec f.set_idle (update_drive_state now drv.id DriveState.idle) w1).1 in
      let ended =
        ended_unfailing f.set_final job.id final.0 final.1 ran.world final_ok
          (final_of-is_terminal ran.error) j in
      let idled =
        idle_after f.set_ripping now drv.id a w1
          (transition_drives f.set_final now job.id final.0 final.1 ran.world ∙ same) in
      record {
        ended = rw shape (
            Keeps-HasEnded w1.db w2.db job.id
              (update_drive_state-Keeps f.set_idle now drv.id DriveState.idle w1) ended);
        drives = rw (shape, idle_ok) idled;
      }

  module _ (cfg : Config) where
    run_handler-Settled :
        (fresh : Text) (h : Handler) (drv : Drive) (disc : Disc) (prof : Profile) (job : Job)
        (w : World)
        → Exists job.id w.db
        → Settled job.id w (run_handler cfg f now fresh h drv disc prof job w)
    unfolding run_handler
    run_handler-Settled fresh h drv disc prof job w j =
        let run = exec f.set_running (update_job_state now job.id JobState.running []) w in
        let j1 = update_job_state-Exists f.set_running now job.id JobState.running [] w j in
        let same = transition_drives f.set_running now job.id JobState.running [] w in
        elim (Result-cases run.0) [
          | inr (e, k) ↦
              let s = fail_early-Settled job.id e run.1 j1 in
              rw (k, run_handler)
                (record {
                  ended = s.ended;
                  drives = from_same_drives w.db run.1.db _ same s.drives;
                })
          | inl (u, k) ↦
              let w2 =
                (exec f.set_ripping (update_drive_state now drv.id DriveState.ripping) run.1).1 in
              let w3 = publish (Event.drive_changed drv.id DriveState.ripping) w2 in
              let ran = dispatch cfg f now fresh h drv disc prof job w3 in
              let calm = dispatch-Calm cfg f now fresh h drv disc prof job w3 in
              let j2 =
                Keeps-Exists run.1.db w2.db job.id
                  (update_drive_state-Keeps f.set_ripping now drv.id DriveState.ripping run.1) j1 in
              let s =
                finish-Settled drv job run.1 ran
                  (Keeps-Exists w2.db ran.world.db job.id calm.kept.jobs j2) calm.kept.drives in
              rw (k, run_handler)
                (record {
                  ended = s.ended;
                  drives = from_same_drives w.db run.1.db _ same s.drives;
                })
        ]

    run_found-Settled :
        (fresh : Text) (job : Job) (w : World)
        → Exists job.id w.db
        → Settled job.id w (run_found cfg f now fresh job w)
    unfolding run_found
    run_found-Settled fresh job w j = elim (Result-cases (lookups f job w.db)) [
      | inr (e, k) ↦ rw (k, run_found) (fail_early-Settled job.id e w j)
      | inl ((disc, drv, prof), k) ↦ elim (Option-cases (cfg.handlers disc.disc_type)) [
        | inl l ↦ rw (k, l, run_found) (no_handler-Settled disc job w j)
        | inr (h, l) ↦ rw (k, l, run_found) (run_handler-Settled fresh h drv disc prof job w j)
      ]
    ]

    run_job-Settled :
        (fresh id : Text) (w : World) → Exists id w.db → Settled id w (run_job cfg f now fresh id w)
    unfolding run_job
    run_job-Settled fresh id w j =
        let w1 = record w { cancels = id ∷ w.cancels } in
        elim (Result-cases (faulty f.get_job (get_job w.db id))) [
          | inr (e, k) ↦
              let s = fail_early-Settled id e w1 j in
              rw (k, run_job) (record { ended = s.ended; drives = s.drives })
          | inl (job, k) ↦
              let there = ok_without_fault f.get_job (get_job w.db id) k in
              elim (Bool-cases (is_cancelled job.state)) [
                | inl t ↦
                    rw (k, t, run_job)
                      (record {
                        ended = (job, there, cancelled_ended job.state t);
                        drives = untouched w _ refl;
                      })
                | inr t ↦
                    let named : job.id ≡ id = get_job-id w.db id there in
                    let s = run_found-Settled fresh job w1 (rw named j) in
                    rw (k, t, run_job)
                      (record {
                        ended =
                            subst (λ i. HasEnded i (run_found cfg f now fresh job w1).db) named
                              s.ended;
                        drives = s.drives;
                      })
              ]
        ]

    -- A job that is in the table has ended once runJob returns, on every path through it: it is done,
    -- failed, cancelled or interrupted. This needs that the statements which write a final state and
    -- the one which sets the drive to idle do not fail; any other call may.
    pub run_job_ends :
        (fresh id : Text) (w : World) (j : Job)
        → get_job w.db id ≡ ok j
        → HasEnded id (run_job cfg f now fresh id w).db
    run_job_ends fresh id w j e = (run_job-Settled fresh id w (j, e)).ended

    -- After a run of a job that is in the table each drive is as it was before the run, or idle, where
    -- the statements which write a final state and the one which sets the drive to idle do not fail.
    pub run_job_frees_drive :
        (fresh id : Text) (w : World) (j : Job) (drive : Text) (d : Drive)
        → get_job w.db id ≡ ok j
        → get_drive w.db drive ≡ ok d
        → (d' : Drive) × (get_drive (run_job cfg f now fresh id w).db drive ≡ ok d')
          × ((d' ≡ d) ⊎ (d'.state ≡ DriveState.idle))
    run_job_frees_drive fresh id w j drive d e there =
        (run_job-Settled fresh id w (j, e)).drives drive d there
