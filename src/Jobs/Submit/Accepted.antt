-- ===== src/Jobs/Submit/Accepted.antt =====
-- What an accepted submission leaves: Submit and SubmitScan of daemon/jobs/orchestrator.go.
use disc_echo_dd.Common.{
  ℕ, ◌≡◌, refl, subst, false, [], ◌∷◌, ◌++◌, none, Text, is_empty, codes, Bool-cases, if_false,
  Option-cases, inl, inr, ok, Result-cases,
}
use disc_echo_dd.State.Types.{JobState, JobKind, Job}
use disc_echo_dd.State.Rows.{Disc, Profile}
use disc_echo_dd.State.Events.{Event}
use disc_echo_dd.State.Store.Jobs.{create_job, stored_kind}
use disc_echo_dd.Jobs.World.{Config, Faults, World, Plan, planned_steps, publish}
use disc_echo_dd.Jobs.Submit.{enqueue, submitted, found, queue_job, submit, submit_scan}

-- The job is the last row and the last in the queue of its drive, and it is queued.
record Accepted (kind : JobKind) (job : Job) (w w' : World) : Type 0 where
  stored : w'.db.jobs ≡ w.db.jobs ++ job ∷ []
  waits : w'.drive_queue ≡ w.drive_queue ++ (job.drive_id, job.id) ∷ []
  queued : job.state ≡ JobState.queued
  of_kind : job.kind ≡ kind

enqueue_open :
    (drive id : Text) (w : World)
    → w.closed ≡ false
    → enqueue drive id w ≡ (none, record w { drive_queue = w.drive_queue ++ (drive, id) ∷ [] })
unfolding enqueue
enqueue_open drive id w h = if_false w.closed _ _ h

queue_job-Accepted :
    (f : Faults) (now : ℕ) (fresh context : Text) (plan : Plan) (disc : Disc) (prof : Profile)
    (w : World) (job : Job) (kind : JobKind)
    → (queue_job f now fresh context kind plan disc prof w).0 ≡ ok job
    → Accepted (stored_kind kind) job w (queue_job f now fresh context kind plan disc prof w).1
unfolding queue_job create_job enqueue
queue_job-Accepted f now fresh context plan disc prof w job kind e =
    elim (Option-cases f.create_job) [
      | inr (x, k) ↦ absurd (let h = rw (k, queue_job) at e in cc (h))
      | inl k ↦ elim (Bool-cases w.closed) [
        | inl c ↦ absurd (let h = rw (k, c, queue_job) at e in cc (h))
        | inr c ↦
            let made = create_job now fresh (submitted kind disc prof) (planned_steps plan) w.db in
            let posted = publish (Event.job_created made.0) (record w { db = made.1 }) in
            let open_ = enqueue_open disc.drive_id made.0.id posted c in
            let answer : ok made.0 ≡ ok job = rw (k, open_, queue_job) at e in
            let same : made.0 ≡ job = cc (answer) in
            let all : Accepted (stored_kind kind) made.0 w
                (queue_job f now fresh context kind plan disc prof w).1 =
              rw (k, open_, queue_job)
                (rw open_
                  (record { stored = refl; waits = refl; queued = refl; of_kind = refl })) in
            subst
              (λ j.
                Accepted (stored_kind kind) j w
                  (queue_job f now fresh context kind plan disc prof w).1)
              same all
      ]
    ]

module _ (cfg : Config) (f : Faults) (now : ℕ) (fresh disc_id profile_id : Text) (w : World)
    (job : Job) where
  submit-Accepted :
      (submit cfg f now fresh disc_id profile_id w).0 ≡ ok job
      → Accepted JobKind.rip job w (submit cfg f now fresh disc_id profile_id w).1
  unfolding submit
  submit-Accepted e = elim (Result-cases (found cfg f disc_id profile_id w.db)) [
    | inr (x, k) ↦ absurd (let h = rw (k, submit) at e in cc (h))
    | inl ((disc, prof, h), k) ↦ elim (Bool-cases (is_empty disc.drive_id)) [
      | inl t ↦ absurd (let h = rw (k, t, submit) at e in cc (h))
      | inr t ↦
          let own = rw (k, t, submit) at e in
          rw (k, t, submit)
            (queue_job-Accepted f now fresh (codes "create job") (h.plan disc prof) disc prof w job
              JobKind.legacy own)
    ]
  ]

  submit_scan-Accepted :
      (submit_scan cfg f now fresh disc_id profile_id w).0 ≡ ok job
      → Accepted JobKind.scan job w (submit_scan cfg f now fresh disc_id profile_id w).1
  unfolding submit_scan
  submit_scan-Accepted e = elim (Result-cases (found cfg f disc_id profile_id w.db)) [
    | inr (x, k) ↦ absurd (let h = rw (k, submit_scan) at e in cc (h))
    | inl ((disc, prof, h), k) ↦ elim (Option-cases h.scanner) [
      | inl n ↦ absurd (let h = rw (k, n, submit_scan) at e in cc (h))
      | inr (s, n) ↦ elim (Bool-cases (is_empty disc.drive_id)) [
        | inl t ↦ absurd (let h = rw (k, n, t, submit_scan) at e in cc (h))
        | inr t ↦
            let own = rw (k, n, t, submit_scan) at e in
            rw (k, n, t, submit_scan)
              (queue_job-Accepted f now fresh (codes "create scan job") [] disc prof w job
                JobKind.scan own)
      ]
    ]
  ]

  -- A submission that is accepted returns a queued rip job which is the last row of the table and the
  -- last in the queue of its own drive; no other row is touched and no other job is queued.
  pub submit_queues :
      (submit cfg f now fresh disc_id profile_id w).0 ≡ ok job
      → let w' = (submit cfg f now fresh disc_id profile_id w).1 in
        (w'.db.jobs ≡ w.db.jobs ++ job ∷ [])
        × (w'.drive_queue ≡ w.drive_queue ++ (job.drive_id, job.id) ∷ [])
        × (job.state ≡ JobState.queued)
        × (job.kind ≡ JobKind.rip)
  submit_queues e = let q = submit-Accepted e in (q.stored, q.waits, q.queued, q.of_kind)

  -- A scan that is accepted returns a queued scan job which is the last row of the table and the last
  -- in the queue of its own drive; no other row is touched and no other job is queued.
  pub submit_scan_queues :
      (submit_scan cfg f now fresh disc_id profile_id w).0 ≡ ok job
      → let w' = (submit_scan cfg f now fresh disc_id profile_id w).1 in
        (w'.db.jobs ≡ w.db.jobs ++ job ∷ [])
        × (w'.drive_queue ≡ w.drive_queue ++ (job.drive_id, job.id) ∷ [])
        × (job.state ≡ JobState.queued)
        × (job.kind ≡ JobKind.scan)
  submit_scan_queues e = let q = submit_scan-Accepted e in (q.stored, q.waits, q.queued, q.of_kind)
