-- ===== src/Tests/Requests.antt =====
-- The requests on jobs and the pipelines' shared parts, on small inputs.
use disc_echo_dd.Common.{
  ℕ, ◌<◌, ◌*◌, ◌/◌, ◌≡◌, refl, ◌⊎◌, ◌↔◌, true, false, [], ◌∷◌, ◌++◌, List, some, none, Text, codes,
  text_eq, ok, err, Memᴰ, GoError, All, join_with, message,
}
use disc_echo_dd.State.Store.Table.{select}
use disc_echo_dd.State.Store.Jobs.{get_job}
use disc_echo_dd.Jobs.World.{World, play}
use disc_echo_dd.Pipelines.Options.{include_extras}
use disc_echo_dd.Pipelines.Output.{sanitize_rel_path}
use disc_echo_dd.Pipelines.Output.Paths.{Segment, segments, sanitize_rel_path_safe}
use disc_echo_dd.State.Types.{StepId, JobStepState}
use disc_echo_dd.Jobs.Sink.{Sink}
use disc_echo_dd.Pipelines.Steps.{EjectDeps, IsDone, run_eject_step, run_eject_step-IsDone}
use disc_echo_dd.Pipelines.Titles.{MakeMkvTitle, select_movie_titles, min_title_seconds}
use disc_echo_dd.Pipelines.Titles.Best.{Longest}
use disc_echo_dd.Pipelines.Titles.Chosen.{IsExtra, select_movie_titles_auto}
use disc_echo_dd.Api.Jobs.{ApiFaults, Refusal, Response, retry_transcode, delete_job}
use disc_echo_dd.Api.Jobs.Retry.{Queued, retry_accepted, retry_refused}
use disc_echo_dd.Api.Jobs.Delete.{Spared, delete_job_removes}
use disc_echo_dd.Tests.Samples.{rip_job, profile, world, sink}

abbrev no_api_faults : ApiFaults
no_api_faults = record {
  get_job = none;
  get_disc = none;
  get_profile = none;
  reset = none;
  delete = none;
  spool_cleanup = none;
}

abbrev retried : Response × World
retried = retry_transcode no_api_faults (λ p. true) true (λ d. d) [] (codes "f") world

retry_accepted_example : Queued (codes "f") retried.1.db × (retried.1.queue ≡ [] ++ codes "f" ∷ [])
unfolding retry_transcode get_job select text_eq
retry_accepted_example =
    retry_accepted no_api_faults (λ p. true) true (λ d. d) [] (codes "f") world refl

abbrev gone_again : Response × World
gone_again = retry_transcode no_api_faults (λ p. false) true (λ d. d) [] (codes "f") world

retry_refused_example : (gone_again.1 ≡ world) ⊎ (gone_again.1 ≡ record world { db = world.db })
unfolding retry_transcode get_job select text_eq
retry_refused_example =
    retry_refused no_api_faults (λ p. false) true (λ d. d) [] (codes "f") world Refusal.gone
      (codes "spool dir is gone — re-rip the disc instead") refl (λ e. cc (e))

delete_job_removes_example : Spared (codes "f") world.db rip_job
unfolding delete_job get_job select text_eq
delete_job_removes_example =
    delete_job_removes no_api_faults true (codes "f") rip_job world refl (Memᴰ.head refl)

abbrev asus : Text
asus = codes "ASUS BW-16D1HT"

abbrev climbing : Text
climbing = codes "/Movies/../ A /a.mkv"

sanitize_rel_path_safe_example :
    (sanitize_rel_path climbing ≡ join_with (codes "/") (segments climbing))
    × All Segment (segments climbing)
    × (sanitize_rel_path (sanitize_rel_path climbing) ≡ sanitize_rel_path climbing)
sanitize_rel_path_safe_example = sanitize_rel_path_safe climbing

abbrev title : ℕ → ℕ → MakeMkvTitle
title id secs = record { id = id; duration_sec = secs; size_bytes = 0 }

abbrev titles : List MakeMkvTitle
titles = title 0 5400 ∷ title 1 300 ∷ []

abbrev ratio : ℕ → ℕ → ℕ
ratio d pct = d * pct / 100

select_movie_titles_auto_example :
    (((u : MakeMkvTitle) → Memᴰ u titles → u.duration_sec < min_title_seconds (some profile))
      × ((e : GoError) × (select_movie_titles ratio [] titles (some profile) ≡ err e)))
    ⊎ ((main : MakeMkvTitle) × (rest : List MakeMkvTitle) × (n : ℕ) × (select_movie_titles ratio []
            titles
            (some profile)
          ≡ ok (main ∷ rest, n))
        × Longest (min_title_seconds (some profile)) titles main
        × ((t : MakeMkvTitle)
            → Memᴰ t rest ↔ (
                (include_extras (some profile) ≡ true)
                × Memᴰ t titles
                × IsExtra ratio (some profile) main t)))
select_movie_titles_auto_example = select_movie_titles_auto ratio titles (some profile)

abbrev stuck_tray : EjectDeps
stuck_tray = record {
  eject = some (λ dev. ([], some (message (codes "tray is stuck"))));
  should_eject = none;
}

-- A job whose eject step waits.
abbrev ejecting : Sink
ejecting = record sink {
  store = record sink.store {
    steps =
        record {
          job_id = codes "r";
          step = StepId.eject;
          state = JobStepState.pending;
          attempt_count = 0;
          started_at = none;
          finished_at = none;
          notes = [];
        }
        ∷ [];
  };
}

run_eject_step-IsDone_example :
    All
      (IsDone (codes "r"))
      (play (λ p. none) (run_eject_step 5 stuck_tray (codes "/dev/sr0")) ejecting).store.steps
run_eject_step-IsDone_example =
    run_eject_step-IsDone (λ p. none) 5 stuck_tray (codes "/dev/sr0") ejecting refl
