-- ===== src/Jobs/Compute/Outcome.antt =====
-- How a transcode job ends: daemon/jobs/compute.go from the point where it holds a slot.
use disc_echo_dd.Common.{
  GoError, List, ℕ, ◌≡◌, refl, ap, sym, subst, ◌∙◌, Bool, true, false, not, [], ◌∷◌, ◌++◌,
  append-nil, none, some, Text, text_eq, text_eq_refl, is_empty, if◌then◌else◌, Bool-cases, inl,
  inr, error_text, ok, Result-cases, keep_if,
}
use disc_echo_dd.State.Types.{JobState, Job}
use disc_echo_dd.State.Rows.{Disc, Profile}
use disc_echo_dd.State.Events.{Event}
use disc_echo_dd.State.Store.Jobs.{get_job, update_job_state}
use disc_echo_dd.State.Store.Jobs.States.{get_job-id}
use disc_echo_dd.State.Store.Recovery.Bases.{IsName}
use disc_echo_dd.Spool.{Entry, Spool}
use disc_echo_dd.Jobs.World.{
  Config, Faults, World, SplittableHandler, publish, exec, faulty, with_sink,
  send_terminal_notification,
}
use disc_echo_dd.Jobs.Orchestrator.{final_of, is_cancelled}
use disc_echo_dd.Jobs.Orchestrator.Keeps.{ok_without_fault}
use disc_echo_dd.Jobs.Orchestrator.Ends.{EndsOnce, finals, publish-finals, publish_final-EndsOnce}
use disc_echo_dd.Jobs.Orchestrator.Writes.{
  cancelled_ended, HasEnded, update_job_state-Exists, final_of-is_terminal,
}
use disc_echo_dd.Jobs.Compute.{
  finalise, persist_identity, newly_titled, transcode, start, ready, run_ready, run_transcode_job,
  is_transcode_kind, refuse, run_slotted, run_one,
}
use disc_echo_dd.Jobs.Compute.Steps.{
  Outcome, Before, Before-trans, Outcome-after, sink-Before, exec-Before, publish-Before,
  finalise-Outcome, finalise-frees, refuse-Outcome, send-Outcome, persist_identity-Before,
}

-- What the run of a job finds in the staging area once its handler is through: what was there, where no
-- handler is reached, or else what RunTranscode of the disc's handler makes of it.
pub data LeftBy (cfg : Config) (f : Faults) (id : Text) (w : World) : Spool → Type 0 where
  untouched : LeftBy cfg f id w w.spool
  transcoded :
      (job : Job) (disc : Disc) (prof : Profile) (s : SplittableHandler)
      → get_job w.db id ≡ ok job
      → ready cfg f job w.db ≡ ok (disc, prof, s)
      → LeftBy cfg f id w (record w.spool {
        entries = (s.run_transcode job.spool_path disc prof w.spool.entries).3;
      })

-- The job's end, and the staging area that the pool found for it.
abbrev Run : Config → Faults → Text → World → World → Type 0
Run cfg f id w w' = (sp : Spool) × LeftBy cfg f id w sp × Outcome f id sp w w'

module _ (cfg : Config) (f : Faults) (now : ℕ) where
  transcode-Outcome :
      (s : SplittableHandler) (disc : Disc) (prof : Profile) (job : Job) (w : World)
      → Outcome f job.id
          (record w.spool {
            entries = (s.run_transcode job.spool_path disc prof w.spool.entries).3;
          })
          w
          (transcode cfg f now s disc prof job w)
  unfolding transcode
  transcode-Outcome s disc prof job w =
      let run = s.run_transcode job.spool_path disc prof w.spool.entries in
      let left : Spool = record w.spool { entries = run.3 } in
      let w0 = record w { spool = left } in
      let w1 = with_sink cfg.stat job.id run.0 w0 in
      let w2 = if newly_titled disc run.2 run.1 then persist_identity f run.2 w1 else w1 in
      let final = final_of run.1 in
      let ended = finalise f now job.id job.spool_path final.0 final.1 w2 in
      let before =
        Before-trans job.id w0 w1 w2 (sink-Before cfg.stat job.id job.id w0 run.0)
          (identified run.2 w1 (newly_titled disc run.2 run.1)) in
      let q = send-Outcome f job.id job.id left final.0 w0 ended (
        Outcome-after f job.id left w0 w2 ended before (
          subst (λ (sp : Spool). Outcome f job.id sp w2 ended) before.spool
            (finalise-Outcome f now job.id job.spool_path final.0 final.1 w2
              (final_of-is_terminal run.1) (publish_final-EndsOnce job.id run.1)))) in
      record { once = q.once; ended = q.ended; spool = q.spool }
    where
      identified :
          (d : Disc) (v : World) (b : Bool)
          → Before job.id v (if b then persist_identity f d v else v)
      identified d v true = persist_identity-Before f job.id d v
      identified d v false = record { finals_same = refl; jobs = λ j. j; spool = refl }

  start-Run :
      (s : SplittableHandler) (disc : Disc) (prof : Profile) (job : Job) (w : World)
      → get_job w.db job.id ≡ ok job
      → ready cfg f job w.db ≡ ok (disc, prof, s)
      → Run cfg f job.id w (start cfg f now s disc prof job w)
  unfolding start
  start-Run s disc prof job w there found =
      let write = update_job_state now job.id JobState.running [] in
      let run = exec f.set_running write w in
      let begun : Before job.id w run.1 = exec-Before f.set_running write job.id w (λ db j.
        update_job_state-Exists none now job.id JobState.running [] (record w { db = db }) j) in
      elim (Result-cases run.0) [
        | inr (e, k) ↦
            rw (k, start)
              (
                w.spool,
                LeftBy.untouched,
                Outcome-after f job.id w.spool w run.1 _ begun (
                    subst
                      (λ (sp : Spool).
                        Outcome f job.id sp run.1 (refuse f now job.id (error_text e) run.1))
                      begun.spool (refuse-Outcome f now job.id (error_text e) run.1)),
              )
        | inl (u, k) ↦
            let event = Event.job_started job.id in
            let w2 = publish event run.1 in
            let left = λ (sp : Spool). record sp {
              entries = (s.run_transcode job.spool_path disc prof sp.entries).3;
            } in
            rw (k, start)
              (
                left w.spool,
                LeftBy.transcoded job disc prof s there found,
                Outcome-after f job.id (left w.spool) w w2 _
                    (Before-trans job.id w run.1 w2 begun (
                      publish-Before event job.id run.1
                        (publish-finals event run.1 ∙ append-nil (finals run.1))))
                    (subst
                      (λ (sp : Spool).
                        Outcome f job.id (left sp) w2 (transcode cfg f now s disc prof job w2))
                      begun.spool (transcode-Outcome s disc prof job w2)),
              )
      ]

  refuse-Run : (id msg : Text) (w : World) → Run cfg f id w (refuse f now id msg w)
  refuse-Run id msg w = (w.spool, LeftBy.untouched, refuse-Outcome f now id msg w)

  run_ready-Run :
      (job : Job) (w : World)
      → get_job w.db job.id ≡ ok job
      → Run cfg f job.id w (run_ready cfg f now job w)
  unfolding run_ready
  run_ready-Run job w there = elim (Result-cases (ready cfg f job w.db)) [
    | inr (e, k) ↦ rw (k, run_ready) (refuse-Run job.id (error_text e) w)
    | inl ((disc, prof, s), k) ↦ rw (k, run_ready) (start-Run s disc prof job w there k)
  ]

  run_transcode_job-Run :
      (job : Job) (w : World)
      → get_job w.db job.id ≡ ok job
      → Run cfg f job.id w (run_transcode_job cfg f now job w)
  unfolding run_transcode_job
  run_transcode_job-Run job w there = elim (Bool-cases (is_transcode_kind job.kind)) [
    | inr t ↦ rw (t, run_transcode_job) (refuse-Run job.id _ w)
    | inl t ↦ elim (Bool-cases (is_cancelled job.state)) [
      | inl c ↦
          let event = Event.job_failed job.id (some JobState.cancelled) none in
          rw (t, c, run_transcode_job)
            (
              w.spool,
              LeftBy.untouched,
              record {
                once = (event, publish-finals event w, text_eq_refl job.id);
                ended = λ h j. (job, there, cancelled_ended job.state c);
                spool = λ h j. inl refl;
              },
            )
      | inr c ↦ rw (t, c, run_transcode_job) (run_ready-Run job w there)
    ]
  ]

  -- The entry of the cancel map matters to none of this.
  uncancelled :
      (id : Text) (w v : World) (ks ls : List Text)
      → Run cfg f id (record w { compute_cancels = ks }) v
      → Run cfg f id w (record v { compute_cancels = ls })
  uncancelled id w v ks ls (sp, LeftBy.untouched, q) =
      (w.spool, LeftBy.untouched, record { once = q.once; ended = q.ended; spool = q.spool })
  uncancelled id w v ks ls (sp, LeftBy.transcoded job disc prof s there found, q) = (
    record w.spool { entries = (s.run_transcode job.spool_path disc prof w.spool.entries).3 },
    LeftBy.transcoded job disc prof s there found,
    record { once = q.once; ended = q.ended; spool = q.spool },
  )

  run_slotted-Run : (id : Text) (w : World) → Run cfg f id w (run_slotted cfg f now id w)
  unfolding run_slotted
  run_slotted-Run id w =
      let w1 = record w { compute_cancels = id ∷ w.compute_cancels } in
      elim (Result-cases (faulty f.get_job (get_job w.db id))) [
        | inr (e, k) ↦
            rw (k, run_slotted)
              (uncancelled id w _ w1.compute_cancels _ (refuse-Run id (error_text e) w1))
        | inl (job, k) ↦
            let there = ok_without_fault f.get_job (get_job w.db id) k in
            let named : job.id ≡ id = get_job-id w.db id there in
            let own =
              run_transcode_job-Run job w1
                (subst (λ i. get_job w.db i ≡ ok job) (sym named) there) in
            let q = subst (λ i. Run cfg f i w1 (run_transcode_job cfg f now job w1)) named own in
            rw (k, run_slotted) (uncancelled id w _ w1.compute_cancels _ q)
      ]

  run_one-Run : (id : Text) (w : World) → Run cfg f id w (run_one cfg f none now id w)
  unfolding run_one
  run_one-Run id w = run_slotted-Run id w

  -- Every transcode job that gets a slot publishes one final event, whatever fails on the way, and it
  -- is the end of that job.
  pub run_one-EndsOnce : (id : Text) (w : World) → EndsOnce id w (run_one cfg f none now id w)
  run_one-EndsOnce id w = (run_one-Run id w).2.once

  -- Where the pool gives the job a slot, a job that is in the table has ended once runOne returns, on
  -- every path, if the statement that writes the final state does not fail. Where the pool refuses the
  -- slot, since it is closed, runOne leaves everything as it is, so that a queued job stays queued.
  pub run_one_ends :
      (id : Text) (w : World) (j : Job) (e : GoError)
      → f.set_final ≡ none
      → get_job w.db id ≡ ok j
      → HasEnded id (run_one cfg f none now id w).db × (run_one cfg f (some e) now id w ≡ w)
  unfolding run_one
  run_one_ends id w j e h there = ((run_slotted-Run id w).2.ended h (j, there), refl)

  -- A transcode that succeeds gives the space of its rip back: of what the handler leaves in the staging
  -- area, it removes the directory that is named by the last part of the job's spool path, and no
  -- other, where the file system lets it.
  pub finished_transcode_frees_staged :
      (s : SplittableHandler) (disc : Disc) (prof : Profile) (job : Job) (w : World)
      (dir rip : Text)
      → (s.run_transcode job.spool_path disc prof w.spool.entries).1 ≡ none
      → job.spool_path ≡ dir ++ b'/' ∷ rip
      → is_empty rip ≡ false
      → IsName rip
      → f.spool_cleanup ≡ none
      → (transcode cfg f now s disc prof job w).spool.entries
        ≡ keep_if
            (λ (x : Entry). not (text_eq x.0 rip))
            (s.run_transcode job.spool_path disc prof w.spool.entries).3
  unfolding transcode send_terminal_notification
  finished_transcode_frees_staged s disc prof job w dir rip finished at named plain removed =
      let run = s.run_transcode job.spool_path disc prof w.spool.entries in
      let w0 = record w { spool = record w.spool { entries = run.3 } } in
      let w1 = with_sink cfg.stat job.id run.0 w0 in
      let w2 = if newly_titled disc run.2 none then persist_identity f run.2 w1 else w1 in
      let same : w2.spool ≡ w0.spool =
        identified_spool run.2 w1 (newly_titled disc run.2 none)
        ∙ (sink-Before cfg.stat job.id job.id w0 run.0).spool in
      rw finished (
        ap (λ p. (finalise f now job.id p JobState.done [] w2).spool.entries) at
        ∙ finalise-frees f now job.id dir rip [] w2 removed named plain
        ∙ ap (λ (sp : Spool). keep_if (λ (x : Entry). not (text_eq x.0 rip)) sp.entries) same)
    where
      identified_spool :
          (d : Disc) (v : World) (b : Bool)
          → (if b then persist_identity f d v else v).spool ≡ v.spool
      identified_spool d v true = (persist_identity-Before f job.id d v).spool
      identified_spool d v false = refl
