-- ===== src/Pipelines/Steps.antt =====
-- daemon/pipelines/steps.go: the eject and notify steps that every pipeline ends its halves with. A tool
-- is a function from its arguments to the calls that it makes on its sink, and its error.
use disc_echo_dd.Common.{
  ℕ, ◌≡◌, refl, ◌∙◌, ap, subst, inl, inr, Bool, true, List, [], ◌∷◌, ◌++◌, Option, none, some, Text,
  is_empty, if◌then◌else◌, GoError, All, Bool-cases,
}
use disc_echo_dd.State.Types.{StepId, JobStep, JobStepState, Note}
use disc_echo_dd.State.Store.Table.{update_row, All-update_where}
use disc_echo_dd.State.Store.Steps.{
  is_step, with_step_state, update_job_step_state, append_job_step_notes,
}
use disc_echo_dd.Jobs.Sink.{
  Sink, PendingProgress, is_throttled, flush_pending, flush, write, later, on_step_start,
  on_progress, on_sub_step, on_log, on_step_done, on_step_failed, record_move,
}
use disc_echo_dd.State.Store.Jobs.{update_job_sub_step, update_job_progress}
use disc_echo_dd.Jobs.Sink.Done.{flush-refused}
use disc_echo_dd.Jobs.World.{SinkCall, play}
use disc_echo_dd.Pipelines.Output.{resolve_should_eject}

unfoldable pub run_notify_step : ℕ → List SinkCall
run_notify_step now =
    SinkCall.step_start now StepId.notify ∷ SinkCall.step_done now StepId.notify [] ∷ []

-- `eject` is the registered tool, if the registry is there and has it.
pub record EjectDeps : Type 0 where
  pub eject : Option (Text → List SinkCall × Option GoError)
  pub should_eject : Option Bool

abbrev pub reported : ℕ → List SinkCall × Option GoError → List SinkCall
reported now (calls, none) = calls
reported now (calls, some e) = calls ++ SinkCall.step_failed now StepId.eject e ∷ []

-- The calls between the start of the step and its end. An empty path stands for no drive, too.
unfoldable pub eject_calls : ℕ → EjectDeps → Text → List SinkCall
unfolding resolve_should_eject
eject_calls now deps dev_path = elim deps.eject [
  | none ↦ []
  | some tool ↦
      if is_empty dev_path
      then []
      else if resolve_should_eject deps.should_eject
      then reported now (tool dev_path)
      else []
]

-- `defer sink.OnStepDone(state.StepEject, nil)` runs on every return.
unfoldable pub run_eject_step : ℕ → EjectDeps → Text → List SinkCall
unfolding eject_calls
run_eject_step now deps dev_path =
    SinkCall.step_start now StepId.eject ∷ eject_calls now deps dev_path
    ++ SinkCall.step_done now StepId.eject [] ∷ []

-- The row of the step is done.
abbrev pub IsDone : Text → JobStep → Type 0
IsDone id r = is_step id StepId.eject r ≡ true → r.state ≡ JobStepState.done

done_row-IsDone :
    (now : ℕ) (id : Text) (r : JobStep)
    → IsDone id (update_row (is_step id StepId.eject) (with_step_state JobStepState.done now) r)
unfolding with_step_state
done_row-IsDone now id r = elim (Bool-cases (is_step id StepId.eject r)) [
  | inl t ↦ rw t (λ u. refl)
  | inr f ↦ rw f (λ u. absurd (cc (u, f)))
]

flush-job_id : (now : ℕ) (s : Sink) → (flush now s).job_id ≡ s.job_id
unfolding flush
flush-job_id now s = go s.pending_progress
  where
    go :
        (p : Option PendingProgress)
        → (flush_pending p
            (record s { pending_progress = none; last_progress_at = some now })).job_id
          ≡ s.job_id
    go none = refl
    go (some p) = refl

on_progress-job_id :
    (now : ℕ) (p : PendingProgress) (s : Sink) → (on_progress now p s).job_id ≡ s.job_id
unfolding on_progress
on_progress-job_id now p s = elim (Bool-cases (is_throttled s.last_progress_at now)) [
  | inl t ↦ rw t
  | inr f ↦ rw f
]

on_step_done-job_id :
    (now : ℕ) (stat : Text → Option ℕ) (step : StepId) (notes : List (Text × Note)) (s : Sink)
    → (on_step_done now stat step notes s).job_id ≡ s.job_id
unfolding on_step_done
on_step_done-job_id now stat step notes s =
    flush-job_id now (write (λ db. (update_job_sub_step s.job_id [] db).1) s)

play-job_id :
    (stat : Text → Option ℕ) (calls : List SinkCall) (s : Sink)
    → (play stat calls s).job_id ≡ s.job_id
unfolding play on_step_start on_sub_step on_log on_step_failed
play-job_id stat [] s = refl
play-job_id stat (SinkCall.step_start t step ∷ calls) s =
    play-job_id stat calls (on_step_start t step s)
play-job_id stat (SinkCall.progress t p ∷ calls) s =
    play-job_id stat calls (on_progress t p s) ∙ on_progress-job_id t p s
play-job_id stat (SinkCall.sub_step name ∷ calls) s = play-job_id stat calls (on_sub_step name s)
play-job_id stat (SinkCall.log t level m ∷ calls) s = play-job_id stat calls (on_log t level m s)
play-job_id stat (SinkCall.step_done t step notes ∷ calls) s =
    play-job_id stat calls (on_step_done t stat step notes s)
    ∙ on_step_done-job_id t stat step notes s
play-job_id stat (SinkCall.step_failed t step e ∷ calls) s =
    play-job_id stat calls (on_step_failed t step e s)

on_progress-refused :
    (now : ℕ) (p : PendingProgress) (s : Sink) → s.refused ≡ [] → (on_progress now p s).refused ≡ []
unfolding on_progress
on_progress-refused now p s r = elim (Bool-cases (is_throttled s.last_progress_at now)) [
  | inl t ↦ rw t r
  | inr f ↦ rw f (ap later r)
]

on_step_done-refused :
    (now : ℕ) (stat : Text → Option ℕ) (step : StepId) (notes : List (Text × Note)) (s : Sink)
    → s.refused ≡ []
    → (on_step_done now stat step notes s).refused ≡ []
unfolding on_step_done
on_step_done-refused now stat step notes s r =
    let s1 = write (λ db. (update_job_sub_step s.job_id [] db).1) s in
    rw (flush-refused now s1 (ap later r))

play-refused :
    (stat : Text → Option ℕ) (calls : List SinkCall) (s : Sink)
    → s.refused ≡ []
    → (play stat calls s).refused ≡ []
unfolding play on_step_start on_sub_step on_log on_step_failed
play-refused stat [] s r = r
play-refused stat (SinkCall.step_start t step ∷ calls) s r =
    play-refused stat calls (on_step_start t step s) (ap (λ q. later (later (later q))) r)
play-refused stat (SinkCall.progress t p ∷ calls) s r =
    play-refused stat calls (on_progress t p s) (on_progress-refused t p s r)
play-refused stat (SinkCall.sub_step name ∷ calls) s r =
    play-refused stat calls (on_sub_step name s) (ap later r)
play-refused stat (SinkCall.log t level m ∷ calls) s r =
    play-refused stat calls (on_log t level m s) (ap later r)
play-refused stat (SinkCall.step_done t step notes ∷ calls) s r =
    play-refused stat calls (on_step_done t stat step notes s)
      (on_step_done-refused t stat step notes s r)
play-refused stat (SinkCall.step_failed t step e ∷ calls) s r =
    play-refused stat calls (on_step_failed t step e s) (ap later r)

after-IsDone :
    (now : ℕ) (stat : Text → Option ℕ) (s : Sink)
    → s.refused ≡ []
    → All (IsDone s.job_id) (on_step_done now stat StepId.eject [] s).store.steps
unfolding on_step_done record_move append_job_step_notes update_job_step_state
after-IsDone now stat s r =
    let s1 = write (λ db. (update_job_sub_step s.job_id [] db).1) s in
    rw (flush-refused now s1 (ap later r)) (
      All-update_where (IsDone s.job_id) (is_step s.job_id StepId.eject)
        (with_step_state JobStepState.done now)
        (update_job_progress s.job_id StepId.eject 100 [] 0 (flush now s1).store).1.steps
        (done_row-IsDone now s.job_id))

play-last :
    (stat : Text → Option ℕ) (calls : List SinkCall) (now : ℕ) (s : Sink)
    → play stat (calls ++ SinkCall.step_done now StepId.eject [] ∷ []) s
      ≡ on_step_done now stat StepId.eject [] (play stat calls s)
unfolding play
play-last stat [] now s = refl
play-last stat (SinkCall.step_start t step ∷ calls) now s =
    play-last stat calls now (on_step_start t step s)
play-last stat (SinkCall.progress t p ∷ calls) now s = play-last stat calls now (on_progress t p s)
play-last stat (SinkCall.sub_step name ∷ calls) now s =
    play-last stat calls now (on_sub_step name s)
play-last stat (SinkCall.log t level m ∷ calls) now s =
    play-last stat calls now (on_log t level m s)
play-last stat (SinkCall.step_done t step notes ∷ calls) now s =
    play-last stat calls now (on_step_done t stat step notes s)
play-last stat (SinkCall.step_failed t step e ∷ calls) now s =
    play-last stat calls now (on_step_failed t step e s)

-- After the eject step every row of that step of the job reads done, whether the tool ran, failed or
-- was left out, where the database refuses none of the sink's statements.
pub run_eject_step-IsDone :
    (stat : Text → Option ℕ) (now : ℕ) (deps : EjectDeps) (dev_path : Text) (s : Sink)
    → s.refused ≡ []
    → All (IsDone s.job_id) (play stat (run_eject_step now deps dev_path) s).store.steps
unfolding run_eject_step
run_eject_step-IsDone stat now deps dev_path s r =
    let calls = SinkCall.step_start now StepId.eject ∷ eject_calls now deps dev_path in
    let before = play stat calls s in
    rw (play-last stat calls now s) (
      subst (λ id. All (IsDone id) (on_step_done now stat StepId.eject [] before).store.steps)
        (play-job_id stat calls s) (after-IsDone now stat before (play-refused stat calls s r)))
