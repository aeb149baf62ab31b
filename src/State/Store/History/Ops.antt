-- ===== src/State/Store/History/Ops.antt =====
-- The statements of daemon/state/store.go that delete history, in any sequence.
use disc_echo_dd.Common.{
  ℕ, zero, suc, inl, inr, Bool, ◌&&◌, List, [], ◌∷◌, Option, none, some, Text,
}
use disc_echo_dd.State.Types.{Job}
use disc_echo_dd.State.Rows.{Db}
use disc_echo_dd.State.Store.Table.{select, count_where}
use disc_echo_dd.State.Store.Jobs.{is_terminal, has_id}
use disc_echo_dd.State.Store.Lookups.{has_disc_id}
use disc_echo_dd.State.Store.Cascade.{delete_jobs, delete_discs}
use disc_echo_dd.State.Store.Cascade.Consistent.{
  Consistent, delete_jobs-Consistent, delete_discs-Consistent,
}
use disc_echo_dd.State.Store.History.{
  RetentionPolicy, success_where, failed_where, is_orphan_disc, is_history_disc, prune_history,
  clear_history, drop_job, delete_job_and_orphans, delete_disc, delete_found, delete_counted,
}
use disc_echo_dd.State.Store.History.Pruned.{after_one, after_two, pruned_cases}

pub data HistoryOp : Type 0 where
  prune : RetentionPolicy → ℕ → HistoryOp
  clear : HistoryOp
  delete_job : Text → HistoryOp
  delete_disc_row : Text → HistoryOp

module _ (rows_affected : (Job → Bool) → Db → ℕ) where
  unfoldable pub run_history : List HistoryOp → Db → Db
  unfolding prune_history clear_history delete_job_and_orphans delete_disc
  run_history [] db = db
  run_history (prune p now ∷ ops) db = run_history ops (prune_history rows_affected p now db).1
  run_history (clear ∷ ops) db = run_history ops (clear_history db).1
  run_history (delete_job id ∷ ops) db = run_history ops (delete_job_and_orphans id db).1
  run_history (delete_disc_row id ∷ ops) db = run_history ops (delete_disc id db).1

  prune-Consistent :
      (p : RetentionPolicy) (now : ℕ) (db : Db)
      → Consistent db
      → Consistent (prune_history rows_affected p now db).1
  prune-Consistent p now db c = elim (pruned_cases rows_affected p now db) [
    | inl (t, same) ↦ rw same (
        delete_discs-Consistent (is_orphan_disc (after_two rows_affected p now db))
          (after_two rows_affected p now db)
          (delete_jobs-Consistent (failed_where p now (after_one rows_affected p now db).jobs)
            (after_one rows_affected p now db)
            (delete_jobs-Consistent (success_where p now db.jobs) db c)))
    | inr (n, same) ↦ rw same c
  ]

clear-Consistent : (db : Db) → Consistent db → Consistent (clear_history db).1
unfolding clear_history
clear-Consistent db c =
    delete_jobs-Consistent (λ j. is_terminal j.state) (delete_discs (is_history_disc db) db)
      (delete_discs-Consistent (is_history_disc db) db c)

drop_job-Consistent : (j : Job) (db : Db) → Consistent db → Consistent (drop_job j db)
unfolding drop_job
drop_job-Consistent j db c =
    let rest = delete_jobs (has_id j.id) db in
    delete_discs-Consistent (λ d. has_disc_id j.disc_id d && is_orphan_disc rest d) rest
      (delete_jobs-Consistent (has_id j.id) db c)

found-Consistent : (db : Db) (r : Option Job) → Consistent db → Consistent (delete_found db r).1
unfolding delete_found
found-Consistent db none c = c
found-Consistent db (some j) c = drop_job-Consistent j db c

counted-Consistent :
    (id : Text) (db : Db) (n : ℕ) → Consistent db → Consistent (delete_counted id db n).1
unfolding delete_counted
counted-Consistent id db zero c = c
counted-Consistent id db (suc n) c = delete_discs-Consistent (has_disc_id id) db c

module _ (rows_affected : (Job → Bool) → Db → ℕ) where
  -- Where every reference meets a row, every sequence of prunes, clears and deletions of single jobs
  -- and discs leaves it so.
  pub run_history-Consistent :
      (ops : List HistoryOp) (db : Db)
      → Consistent db
      → Consistent (run_history rows_affected ops db)
  unfolding run_history delete_job_and_orphans delete_disc
  run_history-Consistent [] db c = c
  run_history-Consistent (prune p now ∷ ops) db c =
      run_history-Consistent ops (prune_history rows_affected p now db).1
        (prune-Consistent rows_affected p now db c)
  run_history-Consistent (clear ∷ ops) db c =
      run_history-Consistent ops (clear_history db).1 (clear-Consistent db c)
  run_history-Consistent (delete_job id ∷ ops) db c =
      run_history-Consistent ops (delete_job_and_orphans id db).1
        (found-Consistent db (select (has_id id) db.jobs) c)
  run_history-Consistent (delete_disc_row id ∷ ops) db c =
      run_history-Consistent ops (delete_disc id db).1
        (counted-Consistent id db (count_where (has_disc_id id) db.discs) c)
