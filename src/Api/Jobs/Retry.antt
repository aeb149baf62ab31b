-- ===== src/Api/Jobs/Retry.antt =====
-- RetryTranscode of daemon/api/jobs.go: what an accepted retry leaves, and what a refused one does.
use disc_echo_dd.Common.{
  ◌≡◌, ◌≢◌, refl, ◌⊎◌, inl, inr, ap, ◌∙◌, Bool, true, [], ◌∷◌, ◌++◌, Option, none, some, Text,
  text_eq, text_eq_iff, is_empty, GoError, Result, ok, err, Bool-cases, Option-cases, Result-cases,
  arith,
}
use disc_echo_dd.State.Types.{JobState, Job}
use disc_echo_dd.State.Rows.{Db}
use disc_echo_dd.State.Store.Jobs.{get_job}
use disc_echo_dd.State.Store.Jobs.States.{get_job-id}
use disc_echo_dd.State.Store.Recovery.{
  reset_transcode_job, is_transcode, is_retryable, swap_profile, requeued,
}
use disc_echo_dd.State.Store.Recovery.Retry.{
  reset_refused, reset_accepted_iff, get-reset_transcode_job,
}
use disc_echo_dd.Jobs.World.{World}
use disc_echo_dd.Jobs.Orchestrator.{compute_enqueue}
use disc_echo_dd.Api.Jobs.{
  Refusal, ApiFaults, Stage, stop, go, admit_retry, apply_retry, retry_transcode, accepted, refused,
  reset_refusal, is_invalid_state, is_invalid_kind, enqueued, after_reset, admitted,
}

-- A reset that goes through found a transcode job that failed or was interrupted.
reset_found :
    (id profile : Text) (db : Db) (u : Unit {0})
    → (reset_transcode_job id profile db).0 ≡ ok u
    → (j : Job) × (get_job db id ≡ ok j)
      × (is_transcode j.kind ≡ true)
      × (is_retryable j.state ≡ true)
unfolding reset_transcode_job
reset_found id profile db u e = elim (Result-cases (get_job db id)) [
  | inl (j, f) ↦ let (t, r) = (reset_accepted_iff id profile db j f).0 e in (j, f, t, r)
  | inr (g, f) ↦ absurd (ground (arith, f, e))
]

swap_state : (p : Text) (j : Job) → (swap_profile p (requeued j)).state ≡ JobState.queued
unfolding requeued
swap_state p j = elim (Bool-cases (is_empty p)) [ inl t ↦ rw t | inr f ↦ rw f ]

-- The job is in the table, queued.
abbrev pub Queued : Text → Db → Type 0
Queued id db = (k : Job) × (get_job db id ≡ ok k) × (k.state ≡ JobState.queued)

reset_queues :
    (id profile : Text) (db : Db) (u : Unit {0})
    → (reset_transcode_job id profile db).0 ≡ ok u
    → Queued id (reset_transcode_job id profile db).1
reset_queues id profile db u e =
    let (j, f, t, r) = reset_found id profile db u e in
    let same : text_eq j.id id ≡ true = (text_eq_iff j.id id).1 (get_job-id db id f) in
    (
      swap_profile profile (requeued j),
      rw same at (get-reset_transcode_job id profile id db j j f t r f),
      swap_state profile j,
    )

reset_refused_not_accepted : (e : GoError) → reset_refusal e ≢ accepted
unfolding is_invalid_state is_invalid_kind
reset_refused_not_accepted e h = elim (Bool-cases (is_invalid_state e)) [
  | inl t ↦ (let g = rw t at h in cc (g))
  | inr t ↦ elim (Bool-cases (is_invalid_kind e)) [
    | inl u ↦ (let g = rw (t, u) at h in cc (g))
    | inr u ↦ (let g = rw (t, u) at h in cc (g))
  ]
]

enqueue_fails :
    (o : Option GoError) (r : Refusal) (m : Text) → enqueued o ≡ refused r m → r ≡ Refusal.internal
enqueue_fails none r m e = absurd cc
enqueue_fails (some g) r m e = cc (e)

module _ (id : Text) where
  after_reset_accepted :
      (r : Result (Unit {0})) (w : World)
      → (after_reset id r w).0 ≡ accepted
      → (r ≡ ok tt)
        × ((after_reset id r w).1.db ≡ w.db)
        × ((after_reset id r w).1.queue ≡ w.queue ++ id ∷ [])
  unfolding after_reset compute_enqueue
  after_reset_accepted (err e) w h = absurd (reset_refused_not_accepted e h)
  after_reset_accepted (ok u) w h = ground (arith, h)

  after_reset_refused :
      (x : Result (Unit {0})) (w : World) (r : Refusal) (m : Text)
      → (after_reset id x w).0 ≡ refused r m
      → r ≢ Refusal.internal
      → ((e : GoError) × (x ≡ err e)) × ((after_reset id x w).1 ≡ w)
  unfolding after_reset compute_enqueue
  after_reset_refused (err e) w r m h other = ((e, refl), refl)
  after_reset_refused (ok u) w r m h other =
      absurd (other (enqueue_fails (compute_enqueue id w).0 r m h))

module _ (f : ApiFaults) (id profile : Text) (w : World) where
  -- What an admitted retry does to the tables and to the compute queue.
  apply_accepted :
      (apply_retry f id profile w).0 ≡ accepted
      → Queued id (apply_retry f id profile w).1.db
        × ((apply_retry f id profile w).1.queue ≡ w.queue ++ id ∷ [])
  unfolding apply_retry
  apply_accepted e = elim (Option-cases f.reset) [
    | inl clean ↦
        let e = rw clean at e in
        let (r, d, q) =
          after_reset_accepted id (reset_transcode_job id profile w.db).0
            (record w { db = (reset_transcode_job id profile w.db).1 }) e in
        rw clean (rw d (reset_queues id profile w.db tt r), q)
    | inr (g, failing) ↦
        absurd
          (let h = rw failing at e in let (r, d, q) = after_reset_accepted id (err g) w h in cc (r))
  ]

  apply_refused :
      (r : Refusal) (m : Text)
      → (apply_retry f id profile w).0 ≡ refused r m
      → r ≢ Refusal.internal
      → (apply_retry f id profile w).1 ≡ w
  unfolding apply_retry
  apply_refused r m e other = elim (Option-cases f.reset) [
    | inl clean ↦
        let w1 : World = record w { db = (reset_transcode_job id profile w.db).1 } in
        let ((g, x), q) =
          after_reset_refused id (reset_transcode_job id profile w.db).0 w1 r m (rw clean at e)
            other in
        rw clean (q ∙ ap (λ db. record w { db = db }) (reset_refused id profile w.db x))
    | inr (g, failing) ↦ rw failing (after_reset_refused id (err g) w r m (rw failing at e) other).1
  ]

module _ (f : ApiFaults) (stat : Text → Bool) (has_compute : Bool) (between : Db → Db)
    (wanted id : Text) (w : World) where
  -- An accepted retry leaves its job queued in the table, and last in the compute queue, whatever other
  -- requests did between its checks and its reset.
  pub retry_accepted :
      (retry_transcode f stat has_compute between wanted id w).0 ≡ accepted
      → Queued id (retry_transcode f stat has_compute between wanted id w).1.db
        × ((retry_transcode f stat has_compute between wanted id w).1.queue ≡ w.queue ++ id ∷ [])
  unfolding retry_transcode admitted
  retry_accepted e = from (admit_retry f stat has_compute wanted id w.db) e
    where
      from :
          (s : Stage Text)
          → (admitted f between id s w).0 ≡ accepted
          → Queued id (admitted f between id s w).1.db
            × ((admitted f between id s w).1.queue ≡ w.queue ++ id ∷ [])
      from (stop r m) e = absurd cc
      from (go profile) e = apply_accepted f id profile (record w { db = between w.db }) e

  -- A retry that is refused with a client error or for want of a compute pool changes nothing itself.
  pub retry_refused :
      (r : Refusal) (m : Text)
      → (retry_transcode f stat has_compute between wanted id w).0 ≡ refused r m
      → r ≢ Refusal.internal
      → ((retry_transcode f stat has_compute between wanted id w).1 ≡ w)
        ⊎ ((retry_transcode f stat has_compute between wanted id w).1
            ≡ record w { db = between w.db })
  unfolding retry_transcode admitted
  retry_refused r m e other = from (admit_retry f stat has_compute wanted id w.db) e
    where
      from :
          (s : Stage Text)
          → (admitted f between id s w).0 ≡ refused r m
          → ((admitted f between id s w).1 ≡ w)
            ⊎ ((admitted f between id s w).1 ≡ record w { db = between w.db })
      from (stop r m) e = inl refl
      from (go profile) e =
          inr (apply_refused f id profile (record w { db = between w.db }) r m e other)
