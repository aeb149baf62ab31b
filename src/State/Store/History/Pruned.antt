-- ===== src/State/Store/History/Pruned.antt =====
-- What a prune of the history leaves (daemon/state/store.go).
use disc_echo_dd.Common.{
  ℕ, ◌≡◌, refl, Bool, true, false, not, List, text_eq, is_empty, keep_if, All-by_mem, ◌⊎◌, and_true,
  text_eq_sym, Memᴰ, keep_if_mem, any_of_mem, any_of-mem, Bool-cases, inl, inr, not-true,
}
use disc_echo_dd.State.Types.{Job}
use disc_echo_dd.State.Rows.{Db, Disc}
use disc_echo_dd.State.Store.Table.{count_where-none}
use disc_echo_dd.State.Store.Cascade.{delete_jobs, delete_discs, of_disc}
use disc_echo_dd.State.Store.Cascade.Doomed.{Doomed, delete_jobs_mem, delete_jobs_exact}
use disc_echo_dd.State.Store.History.{
  RetentionPolicy, active, success_where, failed_where, is_orphan_disc, prune_history,
  count_would_prune, has_job, is_superseded,
}
use disc_echo_dd.State.Store.History.Selected.{
  Fewer, Fewer-trans, delete_jobs-Fewer, delete_discs-Fewer, success_where_kept, failed_where_kept,
  inactive_selects_none,
}

-- A job without a parent goes only if it is selected itself.
pub delete_jobs_keeps :
    (p : Job → Bool) (db : Db) (j : Job)
    → Memᴰ j db.jobs
    → is_empty j.parent_job_id ≡ true
    → p j ≡ false
    → Memᴰ j (delete_jobs p db).jobs
delete_jobs_keeps p db j m top h = (delete_jobs_exact p db j).1 (m, safe)
  where
    safe : ¬ Doomed p db.jobs j
    safe (Doomed.selected n e) = cc (e, h)
    safe (Doomed.below n e d) = let u = rw top at e in cc (u)

-- Deleting the discs without a job deletes no job.
pub orphans_keep :
    (db : Db) (j : Job)
    → Memᴰ j db.jobs
    → is_empty j.parent_job_id ≡ true
    → Memᴰ j (delete_discs (is_orphan_disc db) db).jobs
unfolding delete_discs is_orphan_disc
orphans_keep db j m top =
    delete_jobs_keeps (of_disc orphans) db j m top (spared (Bool-cases (of_disc orphans j)))
  where
    orphans : List Disc
    orphans = keep_if (is_orphan_disc db) db.discs

    spared : (of_disc orphans j ≡ true) ⊎ (of_disc orphans j ≡ false) → of_disc orphans j ≡ false
    spared (inr f) = f
    spared (inl t) =
        let (d, n, e) = any_of_mem (λ (d : Disc). text_eq d.id j.disc_id) orphans t in
        let o = (keep_if_mem (is_orphan_disc db) db.discs d n).1 in
        let free =
          not-true (has_job db.jobs d)
            (and_true (not (has_job db.jobs d)) (is_superseded db.discs d) o).0 in
        let used =
          any_of-mem (λ (j : Job). text_eq j.disc_id d.id) db.jobs j m
            (text_eq_sym d.id j.disc_id e) in
        absurd (cc (free, used))

module _ (rows_affected : (Job → Bool) → Db → ℕ) (p : RetentionPolicy) (now : ℕ) (db : Db) where
  abbrev pub after_one : Db
  after_one = delete_jobs (success_where p now db.jobs) db

  abbrev pub after_two : Db
  after_two = delete_jobs (failed_where p now after_one.jobs) after_one

  abbrev pub final : Db
  final = delete_discs (is_orphan_disc after_two) after_two

  abbrev pruned : Db
  pruned = (prune_history rows_affected p now db).1

  pub pruned_cases : ((active p ≡ true) × (pruned ≡ final)) ⊎ ((active p ≡ false) × (pruned ≡ db))
  unfolding prune_history
  pruned_cases = elim (Bool-cases (active p)) [
    | inl t ↦ inl (t, rw (t, pruned) refl)
    | inr n ↦ inr (n, rw (n, pruned) refl)
  ]

  -- A prune keeps every job without a parent that neither bucket's limits select.
  pub prune_history_keeps :
      (j : Job)
      → Memᴰ j db.jobs
      → is_empty j.parent_job_id ≡ true
      → success_where p now db.jobs j ≡ false
      → failed_where p now db.jobs j ≡ false
      → Memᴰ j pruned.jobs
  prune_history_keeps j m top s f = elim pruned_cases [
    | inl (t, same) ↦
        let one = delete_jobs_keeps (success_where p now db.jobs) db j m top s in
        let f =
          failed_where_kept p now after_one.jobs db.jobs j
            (delete_jobs-Fewer (success_where p now db.jobs) db) f in
        rw same (
          orphans_keep after_two j
            (delete_jobs_keeps (failed_where p now after_one.jobs) after_one j one top f) top)
    | inr (n, same) ↦ rw same m
  ]

  unselected :
      (j : Job)
      → Memᴰ j pruned.jobs
      → (success_where p now pruned.jobs j ≡ false) × (failed_where p now pruned.jobs j ≡ false)
  unfolding delete_jobs delete_discs
  unselected j = elim pruned_cases [
    | inl (t, same) ↦ rw same settled
    | inr (n, same) ↦ rw same (λ m. inactive_selects_none p now db.jobs j n)
  ]
    where
      settled :
          Memᴰ j final.jobs
          → (success_where p now final.jobs j ≡ false) × (failed_where p now final.jobs j ≡ false)
      settled m =
          let in_two =
            (delete_jobs_mem (of_disc (keep_if (is_orphan_disc after_two) after_two.discs))
              after_two j m).0 in
          let (in_one, f) =
            delete_jobs_mem (failed_where p now after_one.jobs) after_one j in_two in
          let s = (delete_jobs_mem (success_where p now db.jobs) db j in_one).1 in
          let shrinks : Fewer final.jobs after_one.jobs =
            Fewer-trans final.jobs after_two.jobs after_one.jobs
              (delete_discs-Fewer (is_orphan_disc after_two) after_two)
              (delete_jobs-Fewer (failed_where p now after_one.jobs) after_one) in
          (
            success_where_kept p now final.jobs db.jobs j
                (Fewer-trans final.jobs after_one.jobs db.jobs shrinks
                  (delete_jobs-Fewer (success_where p now db.jobs) db))
                s,
            failed_where_kept p now final.jobs after_one.jobs j shrinks f,
          )

  -- After a prune, the preview at the same time finds nothing more to prune.
  pub prune_history_settles :
      count_would_prune p now pruned
      ≡ record { success_deleted = 0; failed_deleted = 0; discs_deleted = 0 }
  unfolding count_would_prune
  prune_history_settles = rw (
    count_where-none (success_where p now pruned.jobs) pruned.jobs (
        All-by_mem (λ j. success_where p now pruned.jobs j ≡ false) pruned.jobs
          (λ j m. (unselected j m).0)),
    count_where-none (failed_where p now pruned.jobs) pruned.jobs (
        All-by_mem (λ j. failed_where p now pruned.jobs j ≡ false) pruned.jobs
          (λ j m. (unselected j m).1)),
  )
