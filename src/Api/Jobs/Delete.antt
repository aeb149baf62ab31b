-- ===== src/Api/Jobs/Delete.antt =====
-- DeleteJob of daemon/api/jobs.go: what a deletion takes with it.
use disc_echo_dd.Common.{
  ◌≡◌, refl, inl, inr, Bool, not, ◌&&◌, Option, none, some, Text, is_empty, text_eq_iff, keep_if,
  Result, ok, err, Bool-cases, Option-cases, Memᴰ,
}
use disc_echo_dd.State.Types.{Job}
use disc_echo_dd.State.Rows.{Db}
use disc_echo_dd.State.Store.Table.{select, select-true}
use disc_echo_dd.State.Store.Jobs.{has_id, is_terminal}
use disc_echo_dd.State.Store.Recovery.{is_transcode}
use disc_echo_dd.State.Store.Lookups.{has_disc_id}
use disc_echo_dd.State.Store.Cascade.{delete_jobs, delete_discs, of_disc}
use disc_echo_dd.State.Store.Cascade.Doomed.{Doomed, delete_jobs_mem, delete_jobs_exact}
use disc_echo_dd.State.Store.History.{
  is_orphan_disc, drop_job, delete_found, delete_job_and_orphans,
}
use disc_echo_dd.Jobs.World.{World}
use disc_echo_dd.Api.Jobs.{
  ApiFaults, Stage, stop, go, load_job, reclaim, delete_job, delete_loaded, after_delete,
  no_content,
}

-- A row that a deletion leaves was there, and neither it nor an ancestor was the deleted job.
abbrev pub Spared : Text → Db → Job → Type 0
Spared id db k = Memᴰ k db.jobs × ¬ Doomed (has_id id) db.jobs k

drop_job-Spared :
    (id : Text) (j k : Job) (db : Db) → j.id ≡ id → Memᴰ k (drop_job j db).jobs → Spared id db k
unfolding drop_job delete_discs
drop_job-Spared id j k db same m =
    let rest = delete_jobs (has_id j.id) db in
    let left =
      delete_jobs_mem
        (of_disc (keep_if (λ d. has_disc_id j.disc_id d && is_orphan_disc rest d) rest.discs)) rest
        k m in
    rw same at ((delete_jobs_exact (has_id j.id) db k).0 left.0)

found-Spared :
    (id : Text) (db : Db) (r : Option Job) (k : Job)
    → select (has_id id) db.jobs ≡ r
    → (delete_found db r).0 ≡ ok tt
    → Memᴰ k (delete_found db r).1.jobs
    → Spared id db k
unfolding delete_found
found-Spared id db none k e h m = absurd cc
found-Spared id db (some j) k e h m =
    drop_job-Spared id j k db ((text_eq_iff j.id id).0 (select-true (has_id id) db.jobs e)) m

reclaim-db :
    (f : ApiFaults) (has_spool : Bool) (j : Job) (w : World) → (reclaim f has_spool j w).db ≡ w.db
unfolding reclaim
reclaim-db f has_spool j w =
    elim (Bool-cases (is_transcode j.kind && not (is_empty j.spool_path) && has_spool)) [
      | inl t ↦ rw t
      | inr n ↦ rw n
    ]

module _ (f : ApiFaults) (has_spool : Bool) (id : Text) where
  after_delete-ok :
      (j : Job) (r : Result (Unit {0})) (w : World)
      → (after_delete f has_spool j r w).0 ≡ no_content
      → (r ≡ ok tt) × ((after_delete f has_spool j r w).1.db ≡ w.db)
  unfolding after_delete
  after_delete-ok j (err e) w h = absurd cc
  after_delete-ok j (ok u) w h = (refl, reclaim-db f has_spool j w)

  loaded-Spared :
      (s : Stage Job) (k : Job) (w : World)
      → (delete_loaded f has_spool id s w).0 ≡ no_content
      → Memᴰ k (delete_loaded f has_spool id s w).1.db.jobs
      → Spared id w.db k
  unfolding delete_loaded delete_job_and_orphans
  loaded-Spared (stop r m) k w e n = absurd cc
  loaded-Spared (go j) k w e n = elim (Bool-cases (is_terminal j.state)) [
    | inr busy ↦ absurd (let h = rw busy at e in cc (h))
    | inl over ↦ elim (Option-cases f.delete) [
      | inr (g, failing) ↦
          absurd (
            let h = rw (over, failing) at e in let (r, d) = after_delete-ok j (err g) w h in cc (r))
      | inl clean ↦
          let w1 : World = record w { db = (delete_job_and_orphans id w.db).1 } in
          let h = rw (over, clean) at e in
          let (r, d) = after_delete-ok j (delete_job_and_orphans id w.db).0 w1 h in
          let left : Memᴰ k
              (after_delete f has_spool j (delete_job_and_orphans id w.db).0 w1).1.db.jobs =
            rw (over, clean) at n in
          found-Spared id w.db (select (has_id id) w.db.jobs) k refl r (rw d at left)
    ]
  ]

  -- A deletion that goes through leaves in the table no job with the identifier and none below it.
  pub delete_job_removes :
      (k : Job) (w : World)
      → (delete_job f has_spool id w).0 ≡ no_content
      → Memᴰ k (delete_job f has_spool id w).1.db.jobs
      → Spared id w.db k
  unfolding delete_job
  delete_job_removes k w = loaded-Spared (load_job f id w.db) k w
