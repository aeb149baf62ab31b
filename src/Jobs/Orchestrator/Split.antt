-- ===== src/Jobs/Orchestrator/Split.antt =====
-- The hand-over from a rip to its transcode child: runSplittable of daemon/jobs/orchestrator.go.
use disc_echo_dd.Common.{
  map, ap, any_of, arith, ◌⊎◌, ℕ, ◌≡◌, refl, ◌∙◌, Bool, true, false, not, List, [], ◌∷◌, ◌++◌,
  append-nil, none, some, Text, text_eq, text_eq_refl, is_empty, if◌then◌else◌, Bool-cases,
  if_false, inl, inr, ◌||◌, keep_if, keep_if-append, GoError, ok, err,
}
use disc_echo_dd.State.Types.{Job, JobKind, JobState}
use disc_echo_dd.State.Rows.{Disc, Drive, Profile}
use disc_echo_dd.State.Store.Jobs.{create_job, get_job, has_id, row_result}
use disc_echo_dd.State.Store.Table.{select}
use disc_echo_dd.State.Events.{Event}
use disc_echo_dd.Spool.{
  Entry, Spool, path, has_entry, create, cleanup, mkdir_all, remove_all, resize,
}
use disc_echo_dd.Spool.Gc.{path-nonempty}
use disc_echo_dd.Jobs.World.{
  Config, Faults, World, Handler, SplittableHandler, planned_steps, with_sink,
}
use disc_echo_dd.Jobs.Orchestrator.{run_splittable, hand_over, compute_enqueue, transcode_child}
use disc_echo_dd.Jobs.Compute.{splittable_for}

has_entry-append : (name : Text) (es : List Entry) → has_entry name (es ++ (name, 0) ∷ []) ≡ true
has_entry-append name [] = rw (text_eq_refl name)
has_entry-append name (e ∷ es) = rw (has_entry-append name es) (or_true (text_eq e.0 name))
  where
    or_true : (b : Bool) → (b || true) ≡ true
    or_true true = refl
    or_true false = refl

create-has_entry :
    (job : Text) (s : Spool)
    → is_empty job ≡ false
    → (create none job s).0 ≡ ok (path s job) × (has_entry job (create none job s).1.entries ≡ true)
unfolding create mkdir_all
create-has_entry job s h = elim (Bool-cases (has_entry job s.entries)) [
  | inl t ↦ rw (h, t) (refl, t)
  | inr t ↦ rw (h, t) (refl, has_entry-append job s.entries)
]

resize-has_entry :
    (name key : Text) (n : ℕ) (s : Spool)
    → has_entry key (resize name n s).entries ≡ has_entry key s.entries
unfolding resize
resize-has_entry name key n s = go s.entries
  where
    go :
        (es : List Entry)
        → has_entry key (map (λ (e : Entry). if text_eq e.0 name then (e.0, n) else e) es)
          ≡ has_entry key es
    go [] = refl
    go (e ∷ es) = elim (Bool-cases (text_eq e.0 name)) [
      | inl t ↦ rw (t, go es)
      | inr t ↦ rw (t, go es)
    ]

-- The entries of the others, whatever is below the one that is left out.
resize-others :
    (name : Text) (n : ℕ) (s : Spool)
    → keep_if (λ (e : Entry). not (text_eq e.0 name)) (resize name n s).entries
      ≡ keep_if (λ (e : Entry). not (text_eq e.0 name)) s.entries
unfolding resize
resize-others name n s = go s.entries
  where
    go :
        (es : List Entry)
        → keep_if
            (λ (e : Entry). not (text_eq e.0 name))
            (map (λ (e : Entry). if text_eq e.0 name then (e.0, n) else e) es)
          ≡ keep_if (λ (e : Entry). not (text_eq e.0 name)) es
    go [] = refl
    go (e ∷ es) = elim (Bool-cases (text_eq e.0 name)) [
      | inl t ↦ rw (t, t) (go es)
      | inr t ↦ rw (t, t) (ap (λ (fs : List Entry). e ∷ fs) (go es))
    ]

-- Making a directory, writing below it and removing it leaves the others.
removed-create :
    (job : Text) (n : ℕ) (s : Spool)
    → is_empty job ≡ false
    → (cleanup none job (resize job n (create none job s).1)).1.entries
      ≡ keep_if (λ (e : Entry). not (text_eq e.0 job)) s.entries
unfolding create cleanup mkdir_all remove_all
removed-create job n s h = rw h (resize-others job n (mkdir_all job s) ∙ made)
  where
    made :
        keep_if (λ (e : Entry). not (text_eq e.0 job)) (mkdir_all job s).entries
        ≡ keep_if (λ (e : Entry). not (text_eq e.0 job)) s.entries
    made = elim (Bool-cases (has_entry job s.entries)) [
      | inl t ↦ rw t refl
      | inr t ↦ rw t (
          rw (keep_if-append (λ (e : Entry). not (text_eq e.0 job)) s.entries ((job, 0) ∷ []))
            (rw (text_eq_refl job) (append-nil _)))
    ]

enqueue_accepts :
    (id : Text) (w : World)
    → is_empty id ≡ false
    → w.stopped ≡ false
    → compute_enqueue id w ≡ (none, record w { queue = w.queue ++ id ∷ [] })
unfolding compute_enqueue
enqueue_accepts id w h s = if_false (is_empty id) _ _ h ∙ if_false w.stopped _ _ s

hand_over_accepts :
    (f : Faults) (now : ℕ) (fresh : Text) (h : SplittableHandler) (disc : Disc) (prof : Profile)
    (rip : Job) (out : Text) (w : World)
    → f.create_child ≡ none
    → is_empty fresh ≡ false
    → w.stopped ≡ false
    → let (child, db) =
        create_job now fresh
          (transcode_child disc prof rip out)
          (planned_steps (h.plan_transcode disc prof))
          w.db in
      hand_over f now fresh h disc prof rip out w ≡ (
        none,
        record w {
          db = db;
          published = w.published ++ Event.job_created child ∷ [];
          queue = w.queue ++ fresh ∷ [];
        },
      )
unfolding hand_over create_job
hand_over_accepts f now fresh h disc prof rip out w child named running =
    let (row, db) =
      create_job now fresh (transcode_child disc prof rip out)
        (planned_steps (h.plan_transcode disc prof)) w.db in
    let posted = record w { db = db; published = w.published ++ Event.job_created row ∷ [] } in
    let accepted = enqueue_accepts fresh posted named running in
    rw (child, accepted, hand_over) (rw accepted refl)

-- The world after the directory was made and the handler's rip made its calls on the sink.
abbrev pub played : Config → SplittableHandler → Drive → Disc → Profile → Job → World → World
played cfg h drv disc prof rip w =
    let run = h.run_rip drv disc prof (path w.spool rip.id) in
    with_sink cfg.stat rip.id run.0
      (record w { spool = resize rip.id run.2 (create none rip.id w.spool).1 })

-- The row of the transcode of a rip.
pub record IsChild (disc : Disc) (prof : Profile) (rip : Job) (fresh staged : Text) (now : ℕ)
    (c : Job) : Type 0 where
  pub named : c.id ≡ fresh
  pub of_disc : c.disc_id ≡ disc.id
  pub of_profile : c.profile_id ≡ prof.id
  pub of_rip : c.parent_job_id ≡ rip.id
  pub without_drive : c.drive_id ≡ []
  pub transcodes : c.kind ≡ JobKind.transcode
  pub waits : c.state ≡ JobState.queued
  pub reads : c.spool_path ≡ staged
  pub created : c.created_at ≡ now
  pub unstarted : c.started_at ≡ none
  pub unfinished : c.finished_at ≡ none

-- A row with a new key is found behind the others.
select-append :
    (id : Text) (js : List Job) (c : Job)
    → any_of (has_id id) js ≡ false
    → text_eq c.id id ≡ true
    → select (has_id id) (js ++ c ∷ []) ≡ some c
unfolding select
select-append id [] c h t = rw t
select-append id (j ∷ js) c h t = elim (Bool-cases (text_eq j.id id)) [
  | inl u ↦ absurd (apart u)
  | inr u ↦ rw u (select-append id js c (rest u) t)
]
  where
    apart : text_eq j.id id ≡ true → ⊥
    apart u = ground (arith, h, u)

    rest : text_eq j.id id ≡ false → any_of (has_id id) js ≡ false
    rest u = ground (arith, h, u)

module _ (cfg : Config) (f : Faults) (now : ℕ) (fresh : Text) (h : SplittableHandler) (drv : Drive)
    (disc : Disc) (prof : Profile) (rip : Job) (w : World) (named : is_empty rip.id ≡ false)
    (made : f.spool_create ≡ none) where
  -- A rip that fails hands nothing over: its error is the run's error, the compute queue and the jobs
  -- are what the handler's calls on the sink left, and the staging directory of the rip is gone while
  -- those of other jobs stay, where the file system lets it be made and removed.
  pub failed_rip_hands_nothing_over :
      (e : GoError)
      → f.spool_cleanup ≡ none
      → (h.run_rip drv disc prof (path w.spool rip.id)).1 ≡ err e
      → let (r, w') = run_splittable cfg f now fresh h drv disc prof rip w in
        (r ≡ some e)
        × (w'.queue ≡ w.queue)
        × (w'.db ≡ (played cfg h drv disc prof rip w).db)
        × (w'.spool.entries ≡ keep_if (λ (x : Entry). not (text_eq x.0 rip.id)) w.spool.entries)
  unfolding run_splittable with_sink
  failed_rip_hands_nothing_over e removed failed =
      rw (made, (create-has_entry rip.id w.spool named).0, failed, removed, run_splittable)
        (rw made (
          refl,
          refl,
          refl,
          removed-create rip.id (h.run_rip drv disc prof (path w.spool rip.id)).2 w.spool named,
        ))

  -- A rip that succeeds hands its output over to a transcode that the pool will accept. One row is
  -- added, last: it is queued, a transcode of the same disc with the same profile, the child of the
  -- rip, without a drive, and its spool path is what the rip returned, or the directory that was made
  -- for the rip where it returned nothing. The row is found under its identifier, which is put at the
  -- end of the compute queue; the pool's checks on it find the same handler; and the directory is
  -- there. This needs a rip with an identifier, a pool that is not stopped, an identifier for the
  -- child that no row has, the
  -- handler registered for the disc's type, and that neither the directory nor the row is refused.
  pub finished_rip_hands_over :
      (out : Text) (registered : Handler)
      → f.create_child ≡ none
      → is_empty fresh ≡ false
      → any_of (has_id fresh) (played cfg h drv disc prof rip w).db.jobs ≡ false
      → w.stopped ≡ false
      → cfg.handlers disc.disc_type ≡ some registered
      → registered.splittable ≡ some h
      → (h.run_rip drv disc prof (path w.spool rip.id)).1 ≡ ok out
      → let (r, w') = run_splittable cfg f now fresh h drv disc prof rip w in
        let staged = if is_empty out then path w.spool rip.id else out in
        (r ≡ none)
        × (w'.queue ≡ w.queue ++ fresh ∷ [])
        × (has_entry rip.id w'.spool.entries ≡ true)
        × ((c : Job) × IsChild disc prof rip fresh staged now c
            × (w'.db.jobs ≡ (played cfg h drv disc prof rip w).db.jobs ++ c ∷ [])
            × (get_job w'.db fresh ≡ ok c)
            × (splittable_for cfg c disc ≡ ok h))
  unfolding run_splittable with_sink create_job get_job splittable_for
  finished_rip_hands_over out reg child named_child new running at splits finished =
      let staged = if is_empty out then path w.spool rip.id else out in
      let bytes = (h.run_rip drv disc prof (path w.spool rip.id)).2 in
      let before = played cfg h drv disc prof rip w in
      let (row, db) =
        create_job now fresh (transcode_child disc prof rip staged)
          (planned_steps (h.plan_transcode disc prof)) before.db in
      rw (made, (create-has_entry rip.id w.spool named).0, finished, run_splittable)
        (rw
          (
            made,
            hand_over_accepts f now fresh h disc prof rip staged before child named_child running,
          )
          (
            refl,
            refl,
            resize-has_entry rip.id rip.id bytes (create none rip.id w.spool).1
                ∙ (create-has_entry rip.id w.spool named).1,
            (
              row,
              a_child staged,
              refl,
              found staged,
              accepted staged (nonempty (Bool-cases (is_empty out))),
            ),
          ))
    where
      row_of : Text → Job
      row_of staged =
          (create_job now fresh (transcode_child disc prof rip staged)
            (planned_steps (h.plan_transcode disc prof)) (played cfg h drv disc prof rip w).db).0

      a_child : (staged : Text) → IsChild disc prof rip fresh staged now (row_of staged)
      a_child staged = record {
        named = refl;
        of_disc = refl;
        of_profile = refl;
        of_rip = refl;
        without_drive = refl;
        transcodes = refl;
        waits = refl;
        reads = refl;
        created = refl;
        unstarted = refl;
        unfinished = refl;
      }

      found :
          (staged : Text)
          → row_result (
              select
                (has_id fresh)
                ((played cfg h drv disc prof rip w).db.jobs ++ row_of staged ∷ []))
            ≡ ok (row_of staged)
      found staged = ap row_result (
          select-append fresh (played cfg h drv disc prof rip w).db.jobs (row_of staged) new
            (text_eq_refl fresh))

      nonempty :
          (is_empty out ≡ true) ⊎ (is_empty out ≡ false)
          → is_empty (if is_empty out then path w.spool rip.id else out) ≡ false
      nonempty (inl t) = rw t (path-nonempty w.spool rip.id named)
      nonempty (inr t) = rw (t, t)

      accepted :
          (staged : Text) → is_empty staged ≡ false → splittable_for cfg (row_of staged) disc ≡ ok h
      accepted staged n = rw (splittable_for, at, splits, n)
