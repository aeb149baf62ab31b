-- ===== src/Jobs/Compute/Steps.antt =====
-- The parts of a run of daemon/jobs/compute.go: the steps before its end, and its end.
use disc_echo_dd.Common.{
  ℕ, ◌≡◌, ◌⊎◌, refl, ◌∙◌, true, false, not, List, [], ◌∷◌, ◌++◌, append-nil, Option, none, some,
  Text, text_eq, text_eq_refl, keep_if, is_empty, inl, inr, GoError, Result, ok,
}
use disc_echo_dd.State.Types.{JobState, Job}
use disc_echo_dd.State.Rows.{Candidate, Db, Disc}
use disc_echo_dd.State.Events.{Event}
use disc_echo_dd.State.Store.Jobs.{get_job, update_job_state, is_terminal}
use disc_echo_dd.State.Store.Jobs.Keeps.{Keeps-same_jobs}
use disc_echo_dd.State.Store.Lookups.{update_disc_metadata, update_disc_candidates}
use disc_echo_dd.State.Store.Recovery.Bases.{IsName, basename-join}
use disc_echo_dd.Spool.{Entry, Spool, cleanup, remove_all}
use disc_echo_dd.Jobs.World.{Faults, World, publish, exec, with_sink, send_terminal_notification}
use disc_echo_dd.Jobs.Orchestrator.{publish_final}
use disc_echo_dd.Jobs.Orchestrator.Keeps.{with_sink-Calm}
use disc_echo_dd.Jobs.Orchestrator.Ends.{EndsOnce, finals, Calm-finals, publish-finals, exec-finals}
use disc_echo_dd.Jobs.Orchestrator.Writes.{HasEnded, Exists, state_stored, Keeps-Exists, ended_by}
use disc_echo_dd.Jobs.Compute.{
  drop_staged, cleanup_spool, finalise, refuse, store_candidates, persist_identity,
}

-- The staging area is the given one, or the job is done.
abbrev pub SpoolSafe : Text → Spool → World → Type 0
SpoolSafe id sp w' =
    (w'.spool ≡ sp) ⊎ ((k : Job) × (get_job w'.db id ≡ ok k) × (k.state ≡ JobState.done))

-- The job was ended once, and, where the final write does not fail, it has ended and the staging area
-- is the given one unless it is done.
pub record Outcome (f : Faults) (id : Text) (sp : Spool) (w w' : World) : Type 0 where
  pub once : EndsOnce id w w'
  pub ended : f.set_final ≡ none → Exists id w.db → HasEnded id w'.db
  pub spool : f.set_final ≡ none → Exists id w.db → SpoolSafe id sp w'

-- Steps before the end: no final event, no job lost, no directory touched.
pub record Before (id : Text) (w w' : World) : Type 0 where
  pub finals_same : finals w' ≡ finals w
  pub jobs : Exists id w.db → Exists id w'.db
  pub spool : w'.spool ≡ w.spool

pub Before-trans : (id : Text) (a b c : World) → Before id a b → Before id b c → Before id a c
Before-trans id a b c p q = record {
  finals_same = q.finals_same ∙ p.finals_same;
  jobs = λ j. q.jobs (p.jobs j);
  spool = q.spool ∙ p.spool;
}

pub Outcome-after :
    (f : Faults) (id : Text) (sp : Spool) (a b c : World)
    → Before id a b
    → Outcome f id sp b c
    → Outcome f id sp a c
Outcome-after f id sp a b c p q =
    let (e, once, ended) = q.once in
    record {
      once = (e, rw (once, p.finals_same) refl, ended);
      ended = λ h j. q.ended h (p.jobs j);
      spool = λ h j. q.spool h (p.jobs j);
    }

pub sink-Before :
    (stat : Text → Option ℕ) (id k : Text) (w : World) (calls : List _)
    → Before k w (with_sink stat id calls w)
unfolding with_sink
sink-Before stat id k w calls =
    let calm = with_sink-Calm stat id calls w in
    record {
      finals_same = Calm-finals calm;
      jobs = Keeps-Exists w.db (with_sink stat id calls w).db k calm.kept.jobs;
      spool = refl;
    }

pub exec-Before :
    {A : Type 0} (fault : Option GoError) (g : Db → Result A × Db) (k : Text) (w : World)
    → ((db : Db) → Exists k db → Exists k (g db).1)
    → Before k w (exec fault g w).1
exec-Before none g k w h = record { finals_same = refl; jobs = h w.db; spool = refl }
exec-Before (some e) g k w h = record { finals_same = refl; jobs = λ j. j; spool = refl }

pub publish-Before :
    (e : Event) (k : Text) (w : World) → finals (publish e w) ≡ finals w → Before k w (publish e w)
publish-Before e k w h = record { finals_same = h; jobs = λ j. j; spool = refl }

-- The database and the spool that the end of a job leaves.
finalise-db :
    (f : Faults) (now : ℕ) (id sp : Text) (st : JobState) (msg : Text) (w : World)
    → (finalise f now id sp st msg w).db
      ≡ (exec f.set_final (update_job_state now id st msg) w).1.db
unfolding finalise publish_final drop_staged
finalise-db f now id sp st msg w =
    published st _ ∙ dropped st (exec f.set_final (update_job_state now id st msg) w).1
  where
    published : (s : JobState) (v : World) → (publish_final id s msg v).db ≡ v.db
    published JobState.done v = refl
    published JobState.cancelled v = refl
    published JobState.failed v = refl
    published _ v = refl

    dropped : (s : JobState) (v : World) → (drop_staged f s sp v).db ≡ v.db
    dropped JobState.done v = refl
    dropped _ v = refl

send-rest :
    (id : Text) (st : JobState) (w : World)
    → (finals (send_terminal_notification id st w) ≡ finals w)
      × ((send_terminal_notification id st w).db ≡ w.db)
      × ((send_terminal_notification id st w).spool ≡ w.spool)
unfolding send_terminal_notification
send-rest id JobState.done w = (refl, refl, refl)
send-rest id JobState.failed w = (refl, refl, refl)
send-rest id _ w = (refl, refl, refl)

exec-spool :
    {A : Type 0} (fault : Option GoError) (g : Db → Result A × Db) (w : World)
    → (exec fault g w).1.spool ≡ w.spool
exec-spool none g w = refl
exec-spool (some e) g w = refl

finalise-spool :
    (f : Faults) (now : ℕ) (id sp : Text) (st : JobState) (msg : Text) (w : World)
    → ((finalise f now id sp st msg w).spool ≡ w.spool) ⊎ (st ≡ JobState.done)
unfolding finalise publish_final drop_staged
finalise-spool f now id sp JobState.done msg w = inr refl
finalise-spool f now id sp JobState.cancelled msg w = inl (exec-spool f.set_final _ w)
finalise-spool f now id sp JobState.failed msg w = inl (exec-spool f.set_final _ w)
finalise-spool f now id sp _ msg w = inl (exec-spool f.set_final _ w)

drop-finals :
    (f : Faults) (st : JobState) (sp : Text) (w : World) → finals (drop_staged f st sp w) ≡ finals w
unfolding drop_staged
drop-finals f JobState.done sp w = refl
drop-finals f _ sp w = refl

-- The end of a job, where the switch of finalise publishes one final event for its state.
pub finalise-Outcome :
    (f : Faults) (now : ℕ) (id sp : Text) (st : JobState) (msg : Text) (w : World)
    → is_terminal st ≡ true
    → ((v : World) → EndsOnce id v (publish_final id st msg v))
    → Outcome f id w.spool w (finalise f now id sp st msg w)
unfolding finalise
finalise-Outcome f now id sp st msg w t published =
    let write = update_job_state now id st msg in
    let w1 = (exec f.set_final write w).1 in
    let (e, once, ended) = published (drop_staged f st sp w1) in
    let shape = finalise-db f now id sp st msg w in
    let stored : f.set_final ≡ none
        → Exists id w.db
        → HasEnded id (finalise f now id sp st msg w).db =
      λ h j. rw (shape, h) (ended_by now id st msg w.db t j) in
    record {
      once = (e, rw (once, drop-finals f st sp w1, exec-finals f.set_final write w) refl, ended);
      ended = stored;
      spool = λ h j. elim (finalise-spool f now id sp st msg w) [
        | inl same ↦ inl same
        | inr done ↦
            let (k, e, s) = state_stored now id st msg w.db j in inr (k, rw (shape, h) e, s ∙ done)
      ];
    }

pub refuse-Outcome :
    (f : Faults) (now : ℕ) (id msg : Text) (w : World)
    → Outcome f id w.spool w (refuse f now id msg w)
unfolding publish_final
refuse-Outcome f now id msg w = finalise-Outcome f now id [] JobState.failed msg w refl (λ v. (
  Event.job_failed id none (some msg),
  publish-finals (Event.job_failed id none (some msg)) v,
  text_eq_refl id,
))

-- Sending the notification at the end changes none of this.
pub send-Outcome :
    (f : Faults) (id k : Text) (sp : Spool) (st : JobState) (a w : World)
    → Outcome f id sp a w
    → Outcome f id sp a (send_terminal_notification k st w)
send-Outcome f id k sp st a w q =
    let (same_finals, same_db, same_spool) = send-rest k st w in
    let (e, once, ended) = q.once in
    record {
      once = (e, rw same_finals once, ended);
      ended = λ h j. rw same_db (q.ended h j);
      spool = λ h j. rw (same_db, same_spool) (q.spool h j);
    }

metadata-Before :
    (fault : Option GoError) (k id title : Text) (year : ℕ) (provider mid : Text) (w : World)
    → Before k w (exec fault (update_disc_metadata id title year provider mid) w).1
unfolding update_disc_metadata
metadata-Before fault k id title year provider mid w =
    exec-Before fault (update_disc_metadata id title year provider mid) k w
      (λ db j. Keeps-Exists db _ k (Keeps-same_jobs db _ refl) j)

candidates-Before :
    (f : Faults) (k : Text) (disc : Disc) (cs : List Candidate) (w : World)
    → Before k w (store_candidates f disc cs w)
unfolding update_disc_candidates
candidates-Before f k disc [] w = record { finals_same = refl; jobs = λ j. j; spool = refl }
candidates-Before f k disc (c ∷ cs) w =
    exec-Before f.set_candidates (update_disc_candidates disc.id (c ∷ cs)) k w
      (λ db j. Keeps-Exists db _ k (Keeps-same_jobs db _ refl) j)

pub persist_identity-Before :
    (f : Faults) (k : Text) (disc : Disc) (w : World) → Before k w (persist_identity f disc w)
unfolding persist_identity
persist_identity-Before f k disc w =
    let w1 =
      (exec f.set_metadata
        (update_disc_metadata disc.id disc.title disc.year disc.metadata_provider disc.metadata_id)
        w).1 in
    let w2 = store_candidates f disc disc.candidates w1 in
    let event = Event.disc_identified disc.id disc.title disc.year disc.metadata_provider in
    Before-trans k w w1 _
      (metadata-Before f.set_metadata k disc.id disc.title disc.year disc.metadata_provider
        disc.metadata_id w)
      (Before-trans k w1 w2 _ (candidates-Before f k disc disc.candidates w1)
        (publish-Before event k w2 (publish-finals event w2 ∙ append-nil (finals w2))))

nonempty-join : (dir name : Text) → is_empty (dir ++ b'/' ∷ name) ≡ false
nonempty-join [] name = refl
nonempty-join (c ∷ dir) name = refl

-- The end of a job that is done removes the directory that its spool path names.
pub finalise-frees :
    (f : Faults) (now : ℕ) (id dir rip msg : Text) (w : World)
    → f.spool_cleanup ≡ none
    → is_empty rip ≡ false
    → IsName rip
    → (finalise f now id (dir ++ b'/' ∷ rip) JobState.done msg w).spool.entries
      ≡ keep_if (λ (x : Entry). not (text_eq x.0 rip)) w.spool.entries
unfolding finalise drop_staged cleanup_spool cleanup remove_all publish_final
finalise-frees f now id dir rip msg w removed named plain =
    let write = update_job_state now id JobState.done msg in
    rw
      (
        exec-spool f.set_final write w,
        basename-join dir rip plain,
        nonempty-join dir rip,
        named,
        removed,
      )
      (rw (exec-spool f.set_final write w, basename-join dir rip plain) refl)
