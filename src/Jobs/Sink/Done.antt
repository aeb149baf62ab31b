-- ===== src/Jobs/Sink/Done.antt =====
-- What `OnStepDone` of daemon/jobs/sink.go leaves behind.
use disc_echo_dd.Common.{
  ℕ, ◌≡◌, ◌≢◌, refl, ap, ◌∙◌, false, List, [], ◌∷◌, ◌++◌, Option, none, some, Text, arith,
  if◌then◌else◌, ltb, ok, Bool-cases, inl, inr,
}
use disc_echo_dd.State.Types.{Job, StepId, JobStepState, Note, step_eq}
use disc_echo_dd.State.Rows.{Db}
use disc_echo_dd.State.Events.{Event, job_step, job_progress}
use disc_echo_dd.State.Store.Jobs.{
  get_job, update_job_progress, update_job_sub_step, record_output_bytes,
}
use disc_echo_dd.State.Store.Steps.{update_job_step_state, append_job_step_notes}
use disc_echo_dd.State.Store.Jobs.States.{get-update_own}
use disc_echo_dd.Jobs.Sink.{
  Sink, write, later, PendingProgress, flush, flush_pending, flush_progress, on_step_done,
  record_move, sum_move_path_bytes, is_move, clear_current,
}

-- The row of a job after its step `step` ended, if it was `j` before: the full bar, no sub-phase, and
-- for the move step the bytes of the files that it named.
abbrev pub done_row : ((Text → Option ℕ)) → StepId → List (Text × Note) → Job → Job
done_row stat step notes j = record j {
  active_step = some step;
  active_substep = [];
  progress = 100;
  speed = [];
  eta_seconds = 0;
  output_bytes =
      if is_move step
      then (let b = sum_move_path_bytes stat notes in if ltb 0 b then b else j.output_bytes)
      else j.output_bytes;
}

module _ (id : Text) where
  after_sub_step :
      (name : Text) (db : Db) (j : Job)
      → get_job db id ≡ ok j
      → get_job (update_job_sub_step id name db).1 id ≡ ok (record j { active_substep = name })
  unfolding update_job_sub_step
  after_sub_step name db j e =
      get-update_own (λ x. record x { active_substep = name }) db id j (λ x. refl) e

  after_progress :
      (step : StepId) (pct : ℕ) (spd : Text) (eta : ℕ) (db : Db) (j : Job)
      → get_job db id ≡ ok j
      → get_job (update_job_progress id step pct spd eta db).1 id
        ≡ ok (record j { active_step = some step; progress = pct; speed = spd; eta_seconds = eta })
  unfolding update_job_progress
  after_progress step pct spd eta db j e =
      get-update_own
        (λ x. record x { active_step = some step; progress = pct; speed = spd; eta_seconds = eta })
        db id j (λ x. refl) e

  after_bytes :
      (n : ℕ) (db : Db) (j : Job)
      → get_job db id ≡ ok j
      → get_job (record_output_bytes id n db).1 id ≡ ok (record j { output_bytes = n })
  unfolding record_output_bytes
  after_bytes n db j e = get-update_own (λ x. record x { output_bytes = n }) db id j (λ x. refl) e

  -- The statements on the steps leave the jobs alone.
  after_steps :
      (now : ℕ) (step : StepId) (st : JobStepState) (notes : List (Text × Note)) (db : Db)
      → get_job
          (append_job_step_notes id step notes (update_job_step_state now id step st db).1).1
          id
        ≡ get_job db id
  unfolding get_job update_job_step_state append_job_step_notes
  after_steps now step st [] db = refl
  after_steps now step st (n ∷ notes) db = refl

  after_move :
      (stat : Text → Option ℕ) (step : StepId) (notes : List (Text × Note)) (db : Db) (j : Job)
      → get_job db id ≡ ok j
      → get_job (record_move stat step notes id db) id
        ≡ ok (record j {
          output_bytes =
              if is_move step
              then (let b = sum_move_path_bytes stat notes in if ltb 0 b then b else j.output_bytes)
              else j.output_bytes;
        })
  unfolding record_move
  after_move stat step notes db j e = elim (Bool-cases (is_move step)) [
    | inr f ↦ rw f e
    | inl t ↦ elim (Bool-cases (ltb 0 (sum_move_path_bytes stat notes))) [
      | inl u ↦ rw (t, u) (after_bytes (sum_move_path_bytes stat notes) db j e)
      | inr u ↦ rw (t, u) e
    ]
  ]

-- The row after the flush of what was pending: some progress, and nothing else new.
flushed :
    (now : ℕ) (s : Sink) (j : Job)
    → s.refused ≡ []
    → get_job s.store s.job_id ≡ ok j
    → (k : Job) × (get_job (flush now s).store s.job_id ≡ ok k)
      × ((step : StepId) (pct : ℕ) (spd : Text) (eta : ℕ)
          → record k { active_step = some step; progress = pct; speed = spd; eta_seconds = eta }
            ≡ record j { active_step = some step; progress = pct; speed = spd; eta_seconds = eta })
unfolding flush flush_progress
flushed now s j r e = go s.pending_progress
  where
    go :
        (o : Option PendingProgress)
        → (k : Job) × (get_job
              (flush_pending o
                (record s { pending_progress = none; last_progress_at = some now })).store
              s.job_id
            ≡ ok k)
          × ((step : StepId) (pct : ℕ) (spd : Text) (eta : ℕ)
              → record k { active_step = some step; progress = pct; speed = spd; eta_seconds = eta }
                ≡ record j {
                  active_step = some step;
                  progress = pct;
                  speed = spd;
                  eta_seconds = eta;
                })
    go none = (j, e, λ step pct spd eta. refl)
    go (some p) = (
      record j { active_step = some p.step; progress = p.pct; speed = p.spd; eta_seconds = p.eta },
      rw r (after_progress s.job_id p.step p.pct p.spd p.eta s.store j e),
      λ step pct spd eta. refl,
    )

pub flush-refused : (now : ℕ) (s : Sink) → s.refused ≡ [] → (flush now s).refused ≡ []
unfolding flush flush_progress
flush-refused now s r = go s.pending_progress
  where
    go :
        (o : Option PendingProgress)
        → (flush_pending o
            (record s { pending_progress = none; last_progress_at = some now })).refused
          ≡ []
    go none = r
    go (some p) = ap later r

-- Whatever was pending, a step that is done leaves its job's row with the full bar of that step and no
-- sub-phase; the move step also leaves the bytes of the files that it named, if there are any. This
-- needs that the database refuses nothing.
pub get-on_step_done :
    (now : ℕ) (stat : Text → Option ℕ) (step : StepId) (notes : List (Text × Note)) (s : Sink)
    (j : Job)
    → s.refused ≡ []
    → get_job s.store s.job_id ≡ ok j
    → get_job (on_step_done now stat step notes s).store s.job_id ≡ ok (done_row stat step notes j)
unfolding on_step_done
get-on_step_done now stat step notes s j r e =
    let s1 = write (λ db. (update_job_sub_step s.job_id [] db).1) s in
    let none_left : s1.refused ≡ [] = ap later r in
    let after : get_job s1.store s.job_id ≡ ok (record j { active_substep = [] }) =
      rw r (after_sub_step s.job_id [] s.store j e) in
    let (k, ek, full) = flushed now s1 (record j { active_substep = [] }) none_left after in
    let db = (flush now s1).store in
    let db' = (update_job_progress s.job_id step 100 [] 0 db).1 in
    let row = after_progress s.job_id step 100 [] 0 db k ek ∙ ap ok (full step 100 [] 0) in
    rw (flush-refused now s1 none_left) (
      after_move s.job_id stat step notes _
        (record j {
          active_substep = [];
          active_step = some step;
          progress = 100;
          speed = [];
          eta_seconds = 0;
        })
        (after_steps s.job_id now step JobStepState.done notes db' ∙ row))

flush-pending : (now : ℕ) (s : Sink) → (flush now s).pending_progress ≡ none
unfolding flush flush_progress
flush-pending now s = go s.pending_progress
  where
    go :
        (o : Option PendingProgress)
        → (flush_pending o
            (record s { pending_progress = none; last_progress_at = some now })).pending_progress
          ≡ none
    go none = refl
    go (some p) = refl

clear_current-ne : (step : StepId) (o : Option StepId) → clear_current step o ≢ some step
clear_current-ne step none e = cc
clear_current-ne step (some c) e = elim (Bool-cases (step_eq c step)) [
  | inl t ↦ let h : none ≡ some step = rw t at e in cc (h)
  | inr f ↦
      let h : some c ≡ some step = rw f at e in
      let same : c ≡ step = cc (h) in
      let g : step_eq step step ≡ false = rw same at f in ground arith
]

-- The step's end is announced last, after its full bar; nothing stays held back, and lines that are
-- logged afterwards are no longer stamped with the step.
pub on_step_done_announced :
    (now : ℕ) (stat : Text → Option ℕ) (step : StepId) (notes : List (Text × Note)) (s : Sink)
    → let s' = on_step_done now stat step notes s in
      (s'.pending_progress ≡ none)
      × (s'.current_step ≢ some step)
      × ((before : List Event) × (s'.published
            ≡ (before ++ job_progress s.job_id step 100 [] 0 ∷ [])
              ++ job_step s.job_id step JobStepState.done notes ∷ []))
unfolding on_step_done flush flush_progress
on_step_done_announced now stat step notes s =
    let s1 = write (λ db. (update_job_sub_step s.job_id [] db).1) s in
    (
      flush-pending now s1,
      clear_current-ne step (flush now s1).current_step,
      ((flush now s1).published, refl),
    )
