-- ===== src/Jobs/Sink/Quiet.antt =====
-- The sink of daemon/jobs/sink.go never ends a job: its calls leave the states of the jobs and the
-- drives alone, and publish no final event.
use disc_echo_dd.Common.{
  ℕ, ◌≡◌, refl, sym, subst, ◌∙◌, Bool, true, false, List, [], ◌∷◌, ◌++◌, append_assoc, append-nil,
  Option, none, some, Text, Bool-cases, inl, inr, All, All-append, GoError, ltb,
}
use disc_echo_dd.State.Types.{StepId, JobStepState, LogLevel, Note}
use disc_echo_dd.State.Rows.{Db}
use disc_echo_dd.State.Events.{Event, is_final, job_progress, job_step}
use disc_echo_dd.State.Store.Jobs.{
  update_job_progress, update_job_sub_step, set_active_step, record_output_bytes, has_id,
}
use disc_echo_dd.State.Store.Jobs.Keeps.{
  Keeps, Keeps-refl, Keeps-trans, Keeps-same_jobs, Keeps-update_jobs,
}
use disc_echo_dd.State.Store.Steps.{update_job_step_state, append_job_step_notes, append_log_line}
use disc_echo_dd.Jobs.Sink.{
  Sink, PendingProgress, publish, write, stored, flush_progress, flush_pending, on_step_start,
  is_throttled, on_progress, flush, on_sub_step, on_log, record_move, is_move, sum_move_path_bytes,
  on_step_done, on_step_failed,
}

-- A database with the same drives, in which no job changed its state.
pub record KeepsDb (db db' : Db) : Type 0 where
  pub jobs : Keeps db db'
  pub drives : db'.drives ≡ db.drives

pub record Quiet (s s' : Sink) : Type 0 where
  pub kept : KeepsDb s.store s'.store
  pub events :
      (es : List Event) × (s'.published ≡ s.published ++ es) × All (λ e. is_final e ≡ false) es

pub KeepsDb-trans : (a b c : Db) → KeepsDb a b → KeepsDb b c → KeepsDb a c
KeepsDb-trans a b c p q = record {
  jobs = Keeps-trans a b c p.jobs q.jobs;
  drives = q.drives ∙ p.drives;
}

pub Quiet-refl : (s : Sink) → Quiet s s
Quiet-refl s = record {
  kept = record { jobs = Keeps-refl s.store; drives = refl };
  events = ([], sym (append-nil s.published), tt);
}

pub Quiet-trans : (a b c : Sink) → Quiet a b → Quiet b c → Quiet a c
Quiet-trans a b c p q =
    let (es, e, h) = p.events in
    let (fs, f, k) = q.events in
    record {
      kept = KeepsDb-trans a.store b.store c.store p.kept q.kept;
      events = (es ++ fs, rw (f, e) (append_assoc a.published es fs), All-append _ es fs h k);
    }

same_jobs : (db db' : Db) → db'.jobs ≡ db.jobs → db'.drives ≡ db.drives → KeepsDb db db'
same_jobs db db' h d = record { jobs = Keeps-same_jobs db db' h; drives = d }

stored-KeepsDb :
    (r : List Bool) (f : Db → Db) (db : Db) → KeepsDb db (f db) → KeepsDb db (stored r f db)
stored-KeepsDb [] f db k = k
stored-KeepsDb (false ∷ r) f db k = k
stored-KeepsDb (true ∷ r) f db k = record { jobs = Keeps-refl db; drives = refl }

wrote : (f : Db → Db) (s : Sink) → KeepsDb s.store (f s.store) → Quiet s (write f s)
wrote f s k = record {
  kept = stored-KeepsDb s.refused f s.store k;
  events = ([], sym (append-nil s.published), tt);
}

published : (e : Event) (s : Sink) → is_final e ≡ false → Quiet s (publish e s)
published e s h = record {
  kept = record { jobs = Keeps-refl s.store; drives = refl };
  events = (e ∷ [], refl, (h, tt));
}

module _ (id : Text) (db : Db) where
  progress_keeps :
      (step : StepId) (pct : ℕ) (spd : Text) (eta : ℕ)
      → KeepsDb db (update_job_progress id step pct spd eta db).1
  unfolding update_job_progress
  progress_keeps step pct spd eta = record {
    jobs =
        Keeps-update_jobs (has_id id) _ db
          (λ x. (refl, record { state = refl; kind = refl; spool_path = refl }));
    drives = refl;
  }

  sub_step_keeps : (name : Text) → KeepsDb db (update_job_sub_step id name db).1
  unfolding update_job_sub_step
  sub_step_keeps name = record {
    jobs =
        Keeps-update_jobs (has_id id) _ db
          (λ x. (refl, record { state = refl; kind = refl; spool_path = refl }));
    drives = refl;
  }

  active_step_keeps : (step : StepId) → KeepsDb db (set_active_step id step db)
  unfolding set_active_step
  active_step_keeps step = record {
    jobs =
        Keeps-update_jobs (has_id id) _ db
          (λ x. (refl, record { state = refl; kind = refl; spool_path = refl }));
    drives = refl;
  }

  bytes_keeps : (n : ℕ) → KeepsDb db (record_output_bytes id n db).1
  unfolding record_output_bytes
  bytes_keeps n = record {
    jobs =
        Keeps-update_jobs (has_id id) _ db
          (λ x. (refl, record { state = refl; kind = refl; spool_path = refl }));
    drives = refl;
  }

  step_state_keeps :
      (now : ℕ) (step : StepId) (st : JobStepState)
      → KeepsDb db (update_job_step_state now id step st db).1
  unfolding update_job_step_state
  step_state_keeps now step st = same_jobs db _ refl refl

  notes_keep :
      (step : StepId) (notes : List (Text × Note))
      → KeepsDb db (append_job_step_notes id step notes db).1
  unfolding append_job_step_notes
  notes_keep step [] = same_jobs db _ refl refl
  notes_keep step (n ∷ notes) = same_jobs db _ refl refl

  move_keeps :
      (stat : Text → Option ℕ) (step : StepId) (notes : List (Text × Note))
      → KeepsDb db (record_move stat step notes id db)
  unfolding record_move
  move_keeps stat step notes = elim (Bool-cases (is_move step)) [
    | inr f ↦ rw f (same_jobs db db refl refl)
    | inl t ↦ elim (Bool-cases (ltb 0 (sum_move_path_bytes stat notes))) [
      | inl u ↦ rw (t, u) (bytes_keeps (sum_move_path_bytes stat notes))
      | inr u ↦ rw (t, u) (same_jobs db db refl refl)
    ]
  ]

flush_progress-Quiet : (p : PendingProgress) (s : Sink) → Quiet s (flush_progress p s)
unfolding flush_progress
flush_progress-Quiet p s = record {
  kept =
      stored-KeepsDb s.refused _ s.store (progress_keeps s.job_id s.store p.step p.pct p.spd p.eta);
  events = (_, refl, (refl, tt));
}

pub on_progress-Quiet : (now : ℕ) (p : PendingProgress) (s : Sink) → Quiet s (on_progress now p s)
unfolding on_progress
on_progress-Quiet now p s = elim (Bool-cases (is_throttled s.last_progress_at now)) [
  | inl t ↦ rw t (record { kept = (Quiet-refl s).kept; events = (Quiet-refl s).events })
  | inr t ↦
      let q =
        flush_progress-Quiet p
          (record s { pending_progress = none; last_progress_at = some now }) in
      rw t (record { kept = q.kept; events = q.events })
]

-- `s'` with another throttle window or current step.
restate : (s t s' : Sink) → Quiet s t → s'.store ≡ t.store → s'.published ≡ t.published → Quiet s s'
restate s t s' q e f = record {
  kept = subst (λ (db : Db). KeepsDb s.store db) (sym e) q.kept;
  events = (q.events.0, f ∙ q.events.1, q.events.2);
}

flush-Quiet : (now : ℕ) (s : Sink) → Quiet s (flush now s)
unfolding flush
flush-Quiet now s = go s.pending_progress
  where
    cleared : Sink
    cleared = record s { pending_progress = none; last_progress_at = some now }

    go : (o : Option PendingProgress) → Quiet s (flush_pending o cleared)
    go none = restate s s cleared (Quiet-refl s) refl refl
    go (some p) =
        Quiet-trans s cleared (flush_progress p cleared)
          (restate s s cleared (Quiet-refl s) refl refl) (flush_progress-Quiet p cleared)

pub on_step_start-Quiet : (now : ℕ) (step : StepId) (s : Sink) → Quiet s (on_step_start now step s)
unfolding on_step_start
on_step_start-Quiet now step s =
    let id = s.job_id in
    let s1 = write (λ db. (update_job_step_state now id step JobStepState.running db).1) s in
    let s2 = write (λ db. set_active_step id step db) s1 in
    let s3 = write (λ db. (update_job_progress id step 0 [] 0 db).1) s2 in
    let before =
      Quiet-trans s s1 s3
        (wrote (λ db. (update_job_step_state now id step JobStepState.running db).1) s
          (step_state_keeps id s.store now step JobStepState.running))
        (Quiet-trans s1 s2 s3
          (wrote (λ db. set_active_step id step db) s1 (active_step_keeps id s1.store step))
          (wrote (λ db. (update_job_progress id step 0 [] 0 db).1) s2
            (progress_keeps id s2.store step 0 [] 0))) in
    record { kept = before.kept; events = (_, refl, (refl, (refl, tt))) }

pub on_sub_step-Quiet : (name : Text) (s : Sink) → Quiet s (on_sub_step name s)
unfolding on_sub_step
on_sub_step-Quiet name s = record {
  kept = stored-KeepsDb s.refused _ s.store (sub_step_keeps s.job_id s.store name);
  events = (_, refl, (refl, tt));
}

pub on_log-Quiet :
    (now : ℕ) (level : LogLevel) (message : Text) (s : Sink) → Quiet s (on_log now level message s)
unfolding on_log append_log_line
on_log-Quiet now level message s = record {
  kept = stored-KeepsDb s.refused _ s.store (same_jobs s.store _ refl refl);
  events = (_, refl, (refl, tt));
}

pub on_step_failed-Quiet :
    (now : ℕ) (step : StepId) (e : GoError) (s : Sink) → Quiet s (on_step_failed now step e s)
unfolding on_step_failed
on_step_failed-Quiet now step e s = record {
  kept =
      stored-KeepsDb s.refused _ s.store
        (step_state_keeps s.job_id s.store now step JobStepState.failed);
  events = (_, refl, (refl, tt));
}

two_more :
    (p s e : List Event) (a b : Event)
    → p ≡ s ++ e
    → (p ++ a ∷ []) ++ b ∷ [] ≡ s ++ (e ++ a ∷ b ∷ [])
two_more p s e a b h = rw h (simp append_assoc)

pub on_step_done-Quiet :
    (now : ℕ) (stat : Text → Option ℕ) (step : StepId) (notes : List (Text × Note)) (s : Sink)
    → Quiet s (on_step_done now stat step notes s)
unfolding on_step_done
on_step_done-Quiet now stat step notes s =
    let id = s.job_id in
    let s1 = write (λ db. (update_job_sub_step id [] db).1) s in
    let s2 = flush now s1 in
    let s3 = write (λ db. (update_job_progress id step 100 [] 0 db).1) s2 in
    let s5 = write (λ db. (update_job_step_state now id step JobStepState.done db).1) s3 in
    let s6 = write (λ db. (append_job_step_notes id step notes db).1) s5 in
    let s7 = write (record_move stat step notes id) s6 in
    let before =
      Quiet-trans s s1 s2
        (wrote (λ db. (update_job_sub_step id [] db).1) s (sub_step_keeps id s.store []))
        (flush-Quiet now s1) in
    let after =
      Quiet-trans s2 s3 s7
        (wrote (λ db. (update_job_progress id step 100 [] 0 db).1) s2
          (progress_keeps id s2.store step 100 [] 0))
        (Quiet-trans s3 s5 s7
          (wrote (λ db. (update_job_step_state now id step JobStepState.done db).1) s3
            (step_state_keeps id s3.store now step JobStepState.done))
          (Quiet-trans s5 s6 s7
            (wrote (λ db. (append_job_step_notes id step notes db).1) s5
              (notes_keep id s5.store step notes))
            (wrote (record_move stat step notes id) s6
              (move_keeps id s6.store stat step notes)))) in
    record {
      kept = KeepsDb-trans s.store s2.store _ before.kept after.kept;
      events = (
        before.events.0
            ++ (job_progress id step 100 [] 0 ∷ job_step id step JobStepState.done notes ∷ []),
        two_more s2.published s.published before.events.0 _ _ before.events.1,
        All-append _ before.events.0 _ before.events.2 (refl, (refl, tt)),
      );
    }
