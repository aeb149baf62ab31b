-- ===== src/Jobs/Orchestrator/Released.antt =====
-- What a run of daemon/jobs/orchestrator.go leaves of the cancel map and of the notifications.
use disc_echo_dd.Common.{
  ℕ, ◌≡◌, ◌⊎◌, refl, subst, ◌∙◌, Bool, true, false, not, ◌&&◌, [], ◌∷◌, ◌++◌, Option, none, some,
  Text, if◌then◌else◌, Bool-cases, Option-cases, inl, inr, GoError, error_text, codes, Result, ok,
  Result-cases,
}
use disc_echo_dd.State.Types.{disc_type_text, DriveState, JobState, Job}
use disc_echo_dd.State.Rows.{Db, Disc, Drive, Profile}
use disc_echo_dd.State.Events.{Event}
use disc_echo_dd.State.Store.Jobs.{get_job, update_job_state}
use disc_echo_dd.State.Store.Drives.{update_drive_state}
use disc_echo_dd.Jobs.World.{
  Config, Faults, World, Handler, publish, exec, send_terminal_notification, forget,
}
use disc_echo_dd.Jobs.Orchestrator.{
  Ran, fail_early, final_of, publish_final, is_scan, dispatch, notifies, finish, lookups,
  run_handler, no_handler, run_found, is_cancelled, run_job,
}
use disc_echo_dd.Jobs.Orchestrator.Keeps.{dispatch-Calm}

-- At most one notification was sent, of this job, which is no scan and is done or failed.
abbrev pub NotifiedOnce : Job → World → World → Type 0
NotifiedOnce job w w' =
    (w'.notified ≡ w.notified)
    ⊎ ((st : JobState) × (w'.notified ≡ w.notified ++ (job.id, st) ∷ [])
        × ((st ≡ JobState.done) ⊎ (st ≡ JobState.failed))
        × (is_scan job.kind ≡ false))

record Leaves (job : Job) (w w' : World) : Type 0 where
  cancels : w'.cancels ≡ w.cancels
  notified : NotifiedOnce job w w'

exec-cancels :
    {A : Type 0} (fault : Option GoError) (g : Db → Result A × Db) (w : World)
    → ((exec fault g w).1.cancels ≡ w.cancels) × ((exec fault g w).1.notified ≡ w.notified)
exec-cancels none g w = (refl, refl)
exec-cancels (some e) g w = (refl, refl)

publish_final-cancels :
    (id : Text) (st : JobState) (msg : Text) (w : World)
    → ((publish_final id st msg w).cancels ≡ w.cancels)
      × ((publish_final id st msg w).notified ≡ w.notified)
unfolding publish_final
publish_final-cancels id JobState.done msg w = (refl, refl)
publish_final-cancels id JobState.cancelled msg w = (refl, refl)
publish_final-cancels id JobState.failed msg w = (refl, refl)
publish_final-cancels id _ msg w = (refl, refl)

Leaves-same :
    (job : Job) (w w' : World) → w'.cancels ≡ w.cancels → w'.notified ≡ w.notified → Leaves job w w'
Leaves-same job w w' c n = record { cancels = c; notified = inl n }

first_not : (a b : Bool) → (not a && not b) ≡ true → a ≡ false
first_not true b e = absurd cc
first_not false b e = refl

-- The notification at the end of a run.
sent-Leaves :
    (job : Job) (st : JobState) (split : Bool) (w : World)
    → Leaves job w (if notifies job st split then send_terminal_notification job.id st w else w)
unfolding send_terminal_notification
sent-Leaves job JobState.failed split w = elim (Bool-cases (is_scan job.kind)) [
  | inl t ↦ rw t (Leaves-same job w w refl refl)
  | inr t ↦ rw t (record { cancels = refl; notified = inr (JobState.failed, refl, inr refl, t) })
]
sent-Leaves job JobState.done split w = elim (Bool-cases (not (is_scan job.kind) && not split)) [
  | inl t ↦ rw t (record {
    cancels = refl;
    notified = inr (JobState.done, refl, inl refl, first_not (is_scan job.kind) split t);
  })
  | inr t ↦ rw t (Leaves-same job w w refl refl)
]
sent-Leaves job _ split w = Leaves-same job w w refl refl

-- Steps that send nothing may come before.
Leaves-after :
    (job : Job) (a b c : World)
    → b.cancels ≡ a.cancels
    → b.notified ≡ a.notified
    → Leaves job b c
    → Leaves job a c
Leaves-after job a b c p q l = record {
  cancels = l.cancels ∙ p;
  notified =
      subst
        (λ n.
          (c.notified ≡ n)
          ⊎ ((st : JobState) × (c.notified ≡ n ++ (job.id, st) ∷ [])
              × ((st ≡ JobState.done) ⊎ (st ≡ JobState.failed))
              × (is_scan job.kind ≡ false)))
        q l.notified;
}

module _ (cfg : Config) (f : Faults) (now : ℕ) where
  fail_early-Leaves :
      (job : Job) (id : Text) (cause : GoError) (w : World)
      → Leaves job w (fail_early f now id cause w)
  unfolding fail_early
  fail_early-Leaves job id cause w =
      let (c, n) =
        exec-cancels f.set_failed (update_job_state now id JobState.failed (error_text cause)) w in
      Leaves-same job w (fail_early f now id cause w) c n

  no_handler-Leaves :
      (disc : Disc) (job : Job) (w : World) → Leaves job w (no_handler f now disc job w)
  unfolding no_handler
  no_handler-Leaves disc job w =
      let (c, n) =
        exec-cancels f.set_failed
          (update_job_state now job.id JobState.failed
            (codes "no handler for " ++ disc_type_text disc.disc_type))
          w in
      Leaves-same job w (no_handler f now disc job w) c n

  finish-Leaves :
      (drv : Drive) (job : Job) (ran : Ran) → Leaves job ran.world (finish f now drv job ran)
  unfolding finish
  finish-Leaves drv job ran =
      let final = final_of ran.error in
      let w1 = (exec f.set_final (update_job_state now job.id final.0 final.1) ran.world).1 in
      let w2 = (exec f.set_idle (update_drive_state now drv.id DriveState.idle) w1).1 in
      let w3 = publish (Event.drive_changed drv.id DriveState.idle) w2 in
      let w4 = publish_final job.id final.0 final.1 w3 in
      let (c1, n1) =
        exec-cancels f.set_final (update_job_state now job.id final.0 final.1) ran.world in
      let (c2, n2) = exec-cancels f.set_idle (update_drive_state now drv.id DriveState.idle) w1 in
      let (c3, n3) = publish_final-cancels job.id final.0 final.1 w3 in
      Leaves-after job ran.world w4 (finish f now drv job ran) (c3 ∙ c2 ∙ c1) (n3 ∙ n2 ∙ n1)
        (sent-Leaves job final.0 ran.went_split w4)

  run_handler-Leaves :
      (fresh : Text) (h : Handler) (drv : Drive) (disc : Disc) (prof : Profile) (job : Job)
      (w : World)
      → Leaves job w (run_handler cfg f now fresh h drv disc prof job w)
  unfolding run_handler
  run_handler-Leaves fresh h drv disc prof job w =
      let write = update_job_state now job.id JobState.running [] in
      let run = exec f.set_running write w in
      let (c1, n1) = exec-cancels f.set_running write w in
      elim (Result-cases run.0) [
        | inr (e, k) ↦
            rw (k, run_handler)
              (Leaves-after job w run.1 (fail_early f now job.id e run.1) c1 n1
                (fail_early-Leaves job job.id e run.1))
        | inl (u, k) ↦
            let claim = update_drive_state now drv.id DriveState.ripping in
            let (c2, n2) = exec-cancels f.set_ripping claim run.1 in
            let w3 =
              publish (Event.drive_changed drv.id DriveState.ripping)
                (exec f.set_ripping claim run.1).1 in
            let ran = dispatch cfg f now fresh h drv disc prof job w3 in
            let calm = dispatch-Calm cfg f now fresh h drv disc prof job w3 in
            rw (k, run_handler)
              (Leaves-after job w ran.world (finish f now drv job ran) (calm.cancels ∙ c2 ∙ c1)
                (calm.notified ∙ n2 ∙ n1) (finish-Leaves drv job ran))
      ]

  run_found-Leaves :
      (fresh : Text) (job : Job) (w : World) → Leaves job w (run_found cfg f now fresh job w)
  unfolding run_found
  run_found-Leaves fresh job w = elim (Result-cases (lookups f job w.db)) [
    | inr (e, k) ↦ rw (k, run_found) (fail_early-Leaves job job.id e w)
    | inl ((disc, drv, prof), k) ↦ elim (Option-cases (cfg.handlers disc.disc_type)) [
      | inl l ↦ rw (k, l, run_found) (no_handler-Leaves disc job w)
      | inr (h, l) ↦ rw (k, l, run_found) (run_handler-Leaves fresh h drv disc prof job w)
    ]
  ]

  -- The run of a job that is in the table sends at most one notification, of that job, done or failed,
  -- and none for a scan; and it takes the job out of the cancel map, which keeps its other entries,
  -- whatever fails on the way.
  pub run_job_releases :
      (fresh id : Text) (w : World) (job : Job)
      → get_job w.db id ≡ ok job
      → NotifiedOnce job w (run_job cfg f now fresh id w)
        × ((run_job cfg f now fresh id w).cancels ≡ forget id (id ∷ w.cancels))
  unfolding run_job
  run_job_releases fresh id w job there =
      let w1 = record w { cancels = id ∷ w.cancels } in
      elim (Option-cases f.get_job) [
        | inr (e, k) ↦
            let l = fail_early-Leaves job id e w1 in
            rw (k, run_job) (l.notified, rw (l.cancels) refl)
        | inl k ↦ elim (Bool-cases (is_cancelled job.state)) [
          | inl t ↦ rw (k, there, t, run_job) (inl refl, refl)
          | inr t ↦
              let l = run_found-Leaves fresh job w1 in
              rw (k, there, t, run_job) (l.notified, rw (l.cancels) refl)
        ]
      ]
