-- ===== src/State/Store/Cascade/Consistent.antt =====
-- The foreign keys of the tables, and that a DELETE with its cascades keeps them.
use disc_echo_dd.Common.{
  ◌≡◌, ◌⊎◌, inl, inr, Bool, true, false, not, List, Text, text_eq, is_empty, keep_if, length, Memᴰ,
  keep_if_mem, any_of-mem, mem-split,
}
use disc_echo_dd.State.Types.{Job, JobStep}
use disc_echo_dd.State.Rows.{Db, Disc, LogLine}
use disc_echo_dd.State.Store.Cascade.{
  is_parent, cascade, delete_jobs, delete_discs, owner_gone, of_disc,
}
use disc_echo_dd.State.Store.Cascade.Doomed.{cascade_all, delete_jobs_mem, delete_jobs-Closed}

abbrev Owned : List Job → Text → Type 0
Owned jobs id = (j : Job) × Memᴰ j jobs × (text_eq j.id id ≡ true)

-- Every reference of a job, a step or a log line meets a row.
pub record Consistent (db : Db) : Type 0 where
  pub disc_of :
      (j : Job) → Memᴰ j db.jobs → (d : Disc) × Memᴰ d db.discs × (text_eq d.id j.disc_id ≡ true)
  pub parent_of :
      (j : Job)
      → Memᴰ j db.jobs
      → (is_empty j.parent_job_id ≡ true) ⊎ ((k : Job) × Memᴰ k db.jobs × (is_parent k j ≡ true))
  pub step_of : (s : JobStep) → Memᴰ s db.steps → Owned db.jobs s.job_id
  pub log_of : (l : LogLine) → Memᴰ l db.logs → Owned db.jobs l.job_id

module _ (p : Job → Bool) (db : Db) where
  abbrev others : List Job
  others = keep_if (λ j. not (p j)) db.jobs

  abbrev gone : List Job
  gone = (cascade (length others) (keep_if p db.jobs) others).0

  owner_stays :
      (id : Text)
      → Owned db.jobs id
      → not (owner_gone gone id) ≡ true
      → Owned (delete_jobs p db).jobs id
  unfolding delete_jobs
  owner_stays id (j, m, e) h =
      elim (cascade_all db.jobs (length others) (keep_if p db.jobs) others j
        (mem-split p db.jobs j m)) [
          | inl g ↦ absurd (
              let t = any_of-mem (λ (j : Job). text_eq j.id id) gone j g e in
              let u = rw t at h in cc (u))
          | inr r ↦ (j, r, e)
        ]

  pub delete_jobs-Consistent : Consistent db → Consistent (delete_jobs p db)
  unfolding delete_jobs
  delete_jobs-Consistent c = record {
    disc_of = λ j m. c.disc_of j (delete_jobs_mem p db j m).0;
    parent_of = λ j m. parent j m (c.parent_of j (delete_jobs_mem p db j m).0);
    step_of = λ s m.
        let (n, e) = keep_if_mem (λ (s : JobStep). not (owner_gone gone s.job_id)) db.steps s m in
        owner_stays s.job_id (c.step_of s n) e;
    log_of = λ l m.
        let (n, e) = keep_if_mem (λ (l : LogLine). not (owner_gone gone l.job_id)) db.logs l m in
        owner_stays l.job_id (c.log_of l n) e;
  }
    where
      parent :
          (j : Job)
          → Memᴰ j (delete_jobs p db).jobs
          → (is_empty j.parent_job_id ≡ true)
            ⊎ ((k : Job) × Memᴰ k db.jobs × (is_parent k j ≡ true))
          → (is_empty j.parent_job_id ≡ true)
            ⊎ ((k : Job) × Memᴰ k (delete_jobs p db).jobs × (is_parent k j ≡ true))
      parent j m (inl e) = inl e
      parent j m (inr (k, n, e)) = elim (delete_jobs-Closed p db j k m n e) [
        | inl x ↦ elim x [ ]
        | inr l ↦ inr (k, l, e)
      ]

module _ (p : Disc → Bool) (db : Db) where
  pub delete_discs-Consistent : Consistent db → Consistent (delete_discs p db)
  unfolding delete_discs
  delete_discs-Consistent c =
      let d = delete_jobs-Consistent (of_disc (keep_if p db.discs)) db c in
      record {
        disc_of = λ j m. disc j (delete_jobs_mem (of_disc (keep_if p db.discs)) db j m);
        parent_of = d.parent_of;
        step_of = d.step_of;
        log_of = d.log_of;
      }
    where
      disc :
          (j : Job)
          → Memᴰ j db.jobs × (of_disc (keep_if p db.discs) j ≡ false)
          → (d : Disc) × Memᴰ d (keep_if (λ d. not (p d)) db.discs)
            × (text_eq d.id j.disc_id ≡ true)
      disc j (m, h) =
          let (d, n, e) = c.disc_of j m in
          elim (mem-split p db.discs d n) [
            | inl g ↦ absurd (
                let t =
                  any_of-mem (λ (d : Disc). text_eq d.id j.disc_id) (keep_if p db.discs) d g e in
                let u = rw t at h in cc (u))
            | inr r ↦ (d, r, e)
          ]
