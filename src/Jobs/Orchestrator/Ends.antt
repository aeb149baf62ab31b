-- ===== src/Jobs/Orchestrator/Ends.antt =====
-- The final event of a run of daemon/jobs/orchestrator.go.
use disc_echo_dd.Common.{
  ℕ, ◌≡◌, refl, subst, Bool, true, false, List, [], ◌∷◌, ◌++◌, append-nil, Option, none, some, Text,
  text_eq, text_eq_refl, if◌then◌else◌, Bool-cases, Option-cases, inl, inr, keep_if, keep_if-append,
  keep_if-none, GoError, error_text, is_cancellation, codes, Result, Result-cases,
}
use disc_echo_dd.State.Types.{disc_type_text, DriveState, JobState, Job}
use disc_echo_dd.State.Rows.{Db, Disc, Drive, Profile}
use disc_echo_dd.State.Events.{Event, is_final}
use disc_echo_dd.State.Store.Jobs.{get_job, update_job_state}
use disc_echo_dd.State.Store.Jobs.States.{get_job-id}
use disc_echo_dd.State.Store.Drives.{update_drive_state}
use disc_echo_dd.Jobs.World.{
  Config, Faults, World, Handler, publish, exec, faulty, send_terminal_notification,
}
use disc_echo_dd.Jobs.Orchestrator.{
  Ran, fail_early, final_of, publish_final, dispatch, finish, notifies, lookups, run_handler,
  no_handler, run_found, is_cancelled, run_job,
}
use disc_echo_dd.Jobs.Orchestrator.Keeps.{Calm, ok_without_fault, dispatch-Calm}

-- The event ends this job.
abbrev pub ends : Text → Event → Bool
ends id (Event.job_done k) = text_eq k id
ends id (Event.job_failed k st e) = text_eq k id
ends id _ = false

abbrev pub finals : World → List Event
finals w = keep_if is_final w.published

-- From `w` to `w'` one final event was published, and it ends the job.
abbrev pub EndsOnce : Text → World → World → Type 0
EndsOnce id w w' = (e : Event) × (finals w' ≡ finals w ++ e ∷ []) × (ends id e ≡ true)

pub Calm-finals : {w w' : World} → Calm w w' → finals w' ≡ finals w
Calm-finals {w} {w'} c =
    let (es, e, h) = c.events in
    rw e (
      rw (keep_if-append is_final w.published es)
        (rw (keep_if-none is_final es h) (append-nil (finals w))))

pub publish-finals :
    (e : Event) (w : World) → finals (publish e w) ≡ finals w ++ keep_if is_final (e ∷ [])
publish-finals e w = keep_if-append is_final w.published (e ∷ [])

pub exec-finals :
    {A : Type 0} (fault : Option GoError) (g : Db → Result A × Db) (w : World)
    → finals (exec fault g w).1 ≡ finals w
exec-finals none g w = refl
exec-finals (some e) g w = refl

send-finals :
    (b : Bool) (id : Text) (st : JobState) (w : World)
    → finals (if b then send_terminal_notification id st w else w) ≡ finals w
unfolding send_terminal_notification
send-finals false id st w = refl
send-finals true id JobState.done w = refl
send-finals true id JobState.failed w = refl
send-finals true id _ w = refl

pub publish_final-EndsOnce :
    (id : Text) (e : Option GoError) (w : World)
    → EndsOnce id w (publish_final id (final_of e).0 (final_of e).1 w)
unfolding publish_final
publish_final-EndsOnce id none w =
    (Event.job_done id, publish-finals (Event.job_done id) w, text_eq_refl id)
publish_final-EndsOnce id (some e) w = elim (Bool-cases (is_cancellation e)) [
  | inl t ↦
      let event = Event.job_failed id (some JobState.cancelled) none in
      rw t (event, publish-finals event w, text_eq_refl id)
  | inr t ↦
      let event = Event.job_failed id none (some (error_text e)) in
      rw t (event, publish-finals event w, text_eq_refl id)
]

-- Final events before and after that are the same.
EndsOnce-around :
    (id : Text) (a b c d : World)
    → finals b ≡ finals a
    → EndsOnce id b c
    → finals d ≡ finals c
    → EndsOnce id a d
EndsOnce-around id a b c d p (e, q, ended) r = (e, rw (r, q, p), ended)

module _ (cfg : Config) (f : Faults) (now : ℕ) where
  fail_early-EndsOnce :
      (id : Text) (cause : GoError) (w : World) → EndsOnce id w (fail_early f now id cause w)
  unfolding fail_early
  fail_early-EndsOnce id cause w =
      let event = Event.job_failed id none (some (error_text cause)) in
      let stored =
        (exec f.set_failed (update_job_state now id JobState.failed (error_text cause)) w).1 in
      (
        event,
        rw (
          publish-finals event stored,
          exec-finals f.set_failed (update_job_state now id JobState.failed (error_text cause)) w,
        ),
        text_eq_refl id,
      )

  no_handler-EndsOnce :
      (disc : Disc) (job : Job) (w : World) → EndsOnce job.id w (no_handler f now disc job w)
  unfolding no_handler
  no_handler-EndsOnce disc job w =
      let event = Event.job_failed job.id none none in
      let write =
        update_job_state now job.id JobState.failed
          (codes "no handler for " ++ disc_type_text disc.disc_type) in
      (
        event,
        rw (publish-finals event (exec f.set_failed write w).1, exec-finals f.set_failed write w),
        text_eq_refl job.id,
      )

  finish-EndsOnce :
      (drv : Drive) (job : Job) (ran : Ran) → EndsOnce job.id ran.world (finish f now drv job ran)
  unfolding finish
  finish-EndsOnce drv job ran =
      let final = final_of ran.error in
      let w1 = (exec f.set_final (update_job_state now job.id final.0 final.1) ran.world).1 in
      let w2 = (exec f.set_idle (update_drive_state now drv.id DriveState.idle) w1).1 in
      let w3 = publish (Event.drive_changed drv.id DriveState.idle) w2 in
      let w4 = publish_final job.id final.0 final.1 w3 in
      EndsOnce-around job.id ran.world w3 w4 (finish f now drv job ran)
        (rw
          (
            publish-finals (Event.drive_changed drv.id DriveState.idle) w2,
            exec-finals f.set_idle (update_drive_state now drv.id DriveState.idle) w1,
            exec-finals f.set_final (update_job_state now job.id final.0 final.1) ran.world,
          )
          (append-nil (finals ran.world)))
        (publish_final-EndsOnce job.id ran.error w3)
        (send-finals (notifies job final.0 ran.went_split) job.id final.0 w4)

  run_handler-EndsOnce :
      (fresh : Text) (h : Handler) (drv : Drive) (disc : Disc) (prof : Profile) (job : Job)
      (w : World)
      → EndsOnce job.id w (run_handler cfg f now fresh h drv disc prof job w)
  unfolding run_handler
  run_handler-EndsOnce fresh h drv disc prof job w =
      let write = update_job_state now job.id JobState.running [] in
      let run = exec f.set_running write w in
      elim (Result-cases run.0) [
        | inr (e, k) ↦
            rw (k, run_handler)
              (EndsOnce-around job.id w run.1 (fail_early f now job.id e run.1)
                (fail_early f now job.id e run.1) (exec-finals f.set_running write w)
                (fail_early-EndsOnce job.id e run.1) refl)
        | inl (u, k) ↦
            let claim = update_drive_state now drv.id DriveState.ripping in
            let w2 = (exec f.set_ripping claim run.1).1 in
            let w3 = publish (Event.drive_changed drv.id DriveState.ripping) w2 in
            let ran = dispatch cfg f now fresh h drv disc prof job w3 in
            rw (k, run_handler)
              (EndsOnce-around job.id w ran.world (finish f now drv job ran)
                (finish f now drv job ran)
                (rw
                  (
                    Calm-finals (dispatch-Calm cfg f now fresh h drv disc prof job w3),
                    publish-finals (Event.drive_changed drv.id DriveState.ripping) w2,
                    exec-finals f.set_ripping claim run.1,
                    exec-finals f.set_running write w,
                  )
                  (append-nil (finals w)))
                (finish-EndsOnce drv job ran) refl)
      ]

  run_found-EndsOnce :
      (fresh : Text) (job : Job) (w : World) → EndsOnce job.id w (run_found cfg f now fresh job w)
  unfolding run_found
  run_found-EndsOnce fresh job w = elim (Result-cases (lookups f job w.db)) [
    | inr (e, k) ↦ rw (k, run_found) (fail_early-EndsOnce job.id e w)
    | inl ((disc, drv, prof), k) ↦ elim (Option-cases (cfg.handlers disc.disc_type)) [
      | inl l ↦ rw (k, l, run_found) (no_handler-EndsOnce disc job w)
      | inr (h, l) ↦ rw (k, l, run_found) (run_handler-EndsOnce fresh h drv disc prof job w)
    ]
  ]

  -- Every run of runJob publishes one final event, whatever fails on the way, and that event is the end
  -- of the job that was run; the final events published before it are unchanged.
  pub run_job-EndsOnce :
      (fresh id : Text) (w : World) → EndsOnce id w (run_job cfg f now fresh id w)
  unfolding run_job
  run_job-EndsOnce fresh id w =
      let w1 = record w { cancels = id ∷ w.cancels } in
      elim (Result-cases (faulty f.get_job (get_job w.db id))) [
        | inr (e, k) ↦ rw (k, run_job) (fail_early-EndsOnce id e w1)
        | inl (job, k) ↦ elim (Bool-cases (is_cancelled job.state)) [
          | inl t ↦
              let event = Event.job_failed id (some JobState.cancelled) none in
              rw (k, t, run_job) (event, publish-finals event w1, text_eq_refl id)
          | inr t ↦
              let named : job.id ≡ id =
                get_job-id w.db id (ok_without_fault f.get_job (get_job w.db id) k) in
              rw (k, t, run_job)
                (subst (λ i. EndsOnce i w1 (run_found cfg f now fresh job w1)) named
                  (run_found-EndsOnce fresh job w1))
        ]
      ]
