-- ===== src/Jobs/Orchestrator/Keeps.antt =====
-- What a run of daemon/jobs/orchestrator.go leaves alone until its last writes.
use disc_echo_dd.Common.{
  ℕ, ◌≡◌, refl, ap, sym, ◌∙◌, Bool, true, false, List, [], ◌∷◌, ◌++◌, append-nil, append_assoc,
  Option, none, some, Text, if◌then◌else◌, Bool-cases, Option-cases, inl, inr, All, All-append,
  GoError, Result, ok, Result-cases, is_empty,
}
use disc_echo_dd.State.Types.{Job, JobStepState, StepId}
use disc_echo_dd.State.Rows.{Db, Disc, Drive, Profile}
use disc_echo_dd.State.Events
use disc_echo_dd.State.Events.{Event, is_final}
use disc_echo_dd.State.Store.Jobs.{get_job, has_id, create_job, row_result}
use disc_echo_dd.State.Store.Table.{select_append}
use disc_echo_dd.State.Store.Jobs.States.{select_of_get}
use disc_echo_dd.State.Store.Jobs.Keeps.{SameJob-refl, Keeps-refl, Keeps-same_jobs}
use disc_echo_dd.State.Store.Lookups.{update_disc_metadata_blob}
use disc_echo_dd.Spool.{Spool, resize, create}
use disc_echo_dd.Jobs.Sink.{Sink}
use disc_echo_dd.Jobs.Sink.Quiet.{KeepsDb, KeepsDb-trans}
use disc_echo_dd.Jobs.World.{
  Config, Faults, World, Handler, SinkCall, SplittableHandler, TitleScanner, publish, faulty, exec,
  with_sink, planned_steps,
}
use disc_echo_dd.Jobs.World.Play.{play-Quiet}
use disc_echo_dd.Jobs.Orchestrator.{
  compute_enqueue, hand_over, run_scan, run_splittable, transcode_child, run_rip_job, run_scan_job,
  split_of, is_scan, dispatch,
}

-- From `w` to `w'` no job changed its state, no drive was written, no final event was published, no
-- notification was sent and the cancel map was left alone.
pub record Calm (w w' : World) : Type 0 where
  pub kept : KeepsDb w.db w'.db
  pub events :
      (es : List Event) × (w'.published ≡ w.published ++ es) × All (λ e. is_final e ≡ false) es
  pub notified : w'.notified ≡ w.notified
  pub cancels : w'.cancels ≡ w.cancels

KeepsDb-refl : (db : Db) → KeepsDb db db
KeepsDb-refl db = record { jobs = Keeps-refl db; drives = refl }

Calm-refl : (w : World) → Calm w w
Calm-refl w = record {
  kept = KeepsDb-refl w.db;
  events = ([], sym (append-nil w.published), tt);
  notified = refl;
  cancels = refl;
}

Calm-trans : (a b c : World) → Calm a b → Calm b c → Calm a c
Calm-trans a b c p q =
    let (es, e, h) = p.events in
    let (fs, f, k) = q.events in
    record {
      kept = KeepsDb-trans a.db b.db c.db p.kept q.kept;
      events = (es ++ fs, rw (f, e) (append_assoc a.published es fs), All-append _ es fs h k);
      notified = q.notified ∙ p.notified;
      cancels = q.cancels ∙ p.cancels;
    }

publish-Calm : (e : Event) (w : World) → is_final e ≡ false → Calm w (publish e w)
publish-Calm e w h = record {
  kept = KeepsDb-refl w.db;
  events = (e ∷ [], refl, (h, tt));
  notified = refl;
  cancels = refl;
}

pub with_sink-Calm :
    (stat : Text → Option ℕ) (id : Text) (calls : List SinkCall) (w : World)
    → Calm w (with_sink stat id calls w)
unfolding with_sink
with_sink-Calm stat id calls w =
    let start : Sink = record {
      job_id = id;
      store = w.db;
      published = w.published;
      last_progress_at = none;
      pending_progress = none;
      current_step = none;
      refused = w.refused;
    } in
    let q = play-Quiet stat calls start in
    record { kept = q.kept; events = q.events; notified = refl; cancels = refl }

exec-Calm :
    {A : Type 0} (fault : Option GoError) (f : Db → Result A × Db) (w : World)
    → ((db : Db) → KeepsDb db (f db).1)
    → Calm w (exec fault f w).1
exec-Calm none f w h = record {
  kept = h w.db;
  events = ([], sym (append-nil w.published), tt);
  notified = refl;
  cancels = refl;
}
exec-Calm (some e) f w h = Calm-refl w

blob_keeps : (id body : Text) (db : Db) → KeepsDb db (update_disc_metadata_blob id body db).1
unfolding update_disc_metadata_blob
blob_keeps id body db = record { jobs = Keeps-same_jobs db _ refl; drives = refl }

create_job_keeps :
    (now : ℕ) (fresh : Text) (j : Job) (plan : List (StepId × JobStepState)) (db : Db)
    → KeepsDb db (create_job now fresh j plan db).1
unfolding create_job get_job
create_job_keeps now fresh j plan db = record {
  jobs = λ id i e. (
    i,
    ap row_result (select_append (has_id id) db.jobs _ (select_of_get db id e)),
    SameJob-refl i,
  );
  drives = refl;
}

compute_enqueue-Calm : (id : Text) (w : World) → Calm w (compute_enqueue id w).1
unfolding compute_enqueue
compute_enqueue-Calm id w = either (is_empty id) _ _ (Calm-refl w) (
    either w.stopped _ _ (Calm-refl w) (record {
      kept = KeepsDb-refl w.db;
      events = ([], sym (append-nil w.published), tt);
      notified = refl;
      cancels = refl;
    }))
  where
    either :
        (b : Bool) (x y : Option GoError × World)
        → Calm w x.1
        → Calm w y.1
        → Calm w (if b then x else y).1
    either true x y p q = p
    either false x y p q = q

module _ (cfg : Config) (f : Faults) where
  run_scan-Calm :
      (s : TitleScanner) (drv : Drive) (disc : Disc) (prof : Profile) (id : Text) (w : World)
      → Calm w (run_scan cfg f s drv disc prof id w).1
  unfolding run_scan
  run_scan-Calm s drv disc prof id w =
      let scan = s.scan_titles drv disc prof in
      let w1 = with_sink cfg.stat id scan.0 w in
      let played = with_sink-Calm cfg.stat id scan.0 w in
      elim (Result-cases scan.1) [
        | inr (e, h) ↦ rw (h, run_scan) played
        | inl (body, h) ↦
            let stored =
              exec-Calm f.set_metadata (update_disc_metadata_blob disc.id body) w1
                (blob_keeps disc.id body) in
            let run = exec f.set_metadata (update_disc_metadata_blob disc.id body) w1 in
            elim (Result-cases run.0) [
              | inr (e, k) ↦ rw (h, k, run_scan) (Calm-trans w w1 run.1 played stored)
              | inl (u, k) ↦
                  rw (h, k, run_scan)
                    (Calm-trans w w1 _ played (
                      Calm-trans w1 run.1 _ stored
                        (publish-Calm (Events.disc_metadata disc.id body) run.1 refl)))
            ]
      ]

  hand_over-Calm :
      (now : ℕ) (fresh : Text) (h : SplittableHandler) (disc : Disc) (prof : Profile) (rip : Job)
      (out : Text) (w : World)
      → Calm w (hand_over f now fresh h disc prof rip out w).1
  unfolding hand_over
  hand_over-Calm now fresh h disc prof rip out w = elim (Option-cases f.create_child) [
    | inr (e, k) ↦ rw (k, hand_over) (Calm-refl w)
    | inl k ↦
        let made =
          create_job now fresh (transcode_child disc prof rip out)
            (planned_steps (h.plan_transcode disc prof)) w.db in
        let w1 = record w { db = made.1 } in
        let w2 = publish (Event.job_created made.0) w1 in
        let w3 = compute_enqueue made.0.id w2 in
        let stored : Calm w w1 = record {
          kept = create_job_keeps now fresh (transcode_child disc prof rip out) _ w.db;
          events = ([], sym (append-nil w.published), tt);
          notified = refl;
          cancels = refl;
        } in
        let all = Calm-trans w w1 _ stored (
          Calm-trans w1 w2 _ (publish-Calm (Event.job_created made.0) w1 refl)
            (compute_enqueue-Calm made.0.id w2)) in
        elim (Option-cases w3.0) [
          | inl r ↦ rw (k, r, hand_over) all
          | inr (e, r) ↦ rw (k, r, hand_over) all
        ]
  ]

  run_splittable-Calm :
      (now : ℕ) (fresh : Text) (h : SplittableHandler) (drv : Drive) (disc : Disc) (prof : Profile)
      (rip : Job) (w : World)
      → Calm w (run_splittable cfg f now fresh h drv disc prof rip w).1
  unfolding run_splittable
  run_splittable-Calm now fresh h drv disc prof rip w =
      let made = create f.spool_create rip.id w.spool in
      elim (Result-cases made.0) [
        | inr (e, k) ↦ rw (k, run_splittable) (opened made.1)
        | inl (path, k) ↦
            let run = h.run_rip drv disc prof path in
            let w1 = record w { spool = resize rip.id run.2 made.1 } in
            let w2 = with_sink cfg.stat rip.id run.0 w1 in
            let played =
              Calm-trans w w1 w2 (opened w1.spool) (with_sink-Calm cfg.stat rip.id run.0 w1) in
            elim (Result-cases run.1) [
              | inr (e, l) ↦
                  rw (k, l, run_splittable)
                    (record {
                      kept = played.kept;
                      events = played.events;
                      notified = played.notified;
                      cancels = played.cancels;
                    })
              | inl (out, l) ↦
                  rw (k, l, run_splittable)
                    (Calm-trans w w2 _ played (
                      hand_over-Calm now fresh h disc prof rip (if is_empty out then path else out)
                        w2))
            ]
      ]
    where
      opened : (sp : Spool) → Calm w (record w { spool = sp })
      opened sp = record {
        kept = KeepsDb-refl w.db;
        events = ([], sym (append-nil w.published), tt);
        notified = refl;
        cancels = refl;
      }

  run_rip_job-Calm :
      (now : ℕ) (fresh : Text) (h : Handler) (drv : Drive) (disc : Disc) (prof : Profile)
      (job : Job) (w : World)
      → Calm w (run_rip_job cfg f now fresh h drv disc prof job w).world
  unfolding run_rip_job
  run_rip_job-Calm now fresh h drv disc prof job w = elim (Option-cases (split_of cfg h)) [
    | inr (s, k) ↦ rw (k, run_rip_job) (run_splittable-Calm now fresh s drv disc prof job w)
    | inl k ↦ rw (k, run_rip_job) (with_sink-Calm cfg.stat job.id _ w)
  ]

  run_scan_job-Calm :
      (h : Handler) (drv : Drive) (disc : Disc) (prof : Profile) (job : Job) (w : World)
      → Calm w (run_scan_job cfg f h drv disc prof job w).world
  unfolding run_scan_job
  run_scan_job-Calm h drv disc prof job w = elim (Option-cases h.scanner) [
    | inr (s, k) ↦ rw (k, run_scan_job) (run_scan-Calm s drv disc prof job.id w)
    | inl k ↦ rw (k, run_scan_job) (Calm-refl w)
  ]

  pub dispatch-Calm :
      (now : ℕ) (fresh : Text) (h : Handler) (drv : Drive) (disc : Disc) (prof : Profile)
      (job : Job) (w : World)
      → Calm w (dispatch cfg f now fresh h drv disc prof job w).world
  unfolding dispatch
  dispatch-Calm now fresh h drv disc prof job w = elim (Bool-cases (is_scan job.kind)) [
    | inl t ↦ rw (t, dispatch) (run_scan_job-Calm h drv disc prof job w)
    | inr t ↦ rw (t, dispatch) (run_rip_job-Calm now fresh h drv disc prof job w)
  ]

pub ok_without_fault {ℓ} :
    {A : Type ℓ} (fault : Option GoError) (r : Result A) {x : A} → faulty fault r ≡ ok x → r ≡ ok x
ok_without_fault none r e = e
ok_without_fault (some f) r e = absurd cc
