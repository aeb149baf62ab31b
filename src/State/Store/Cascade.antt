-- ===== src/State/Store/Cascade.antt =====
-- daemon/state/migrations: what a DELETE takes with it, since every foreign key of `jobs`,
-- `job_steps` and `log_lines` that the statements of daemon/state/store.go meet is declared
-- ON DELETE CASCADE: a job goes with its disc (001) and with its parent job (014), a step and a log
-- line go with their job (001).
pub mod Doomed
pub mod Consistent
use disc_echo_dd.Common.{
  ℕ, zero, suc, Bool, true, false, not, ◌&&◌, List, [], ◌∷◌, ◌++◌, Text, text_eq, is_empty, keep_if,
  any_of, length,
}
use disc_echo_dd.State.Types.{Job, JobStep}
use disc_echo_dd.State.Rows.{Db, Disc, LogLine}

-- `j.parent_job_id` refers to `k`; the empty text is NULL.
abbrev pub is_parent : Job → Job → Bool
is_parent k j = not (is_empty j.parent_job_id) && text_eq k.id j.parent_job_id

abbrev pub is_orphan : List Job → Job → Bool
is_orphan gone j = any_of (λ k. is_parent k j) gone

-- From the rows that a statement takes and the others, all rows that go and the rows that stay, in
-- rounds: a round takes the jobs whose parent went in the round before.
unfoldable pub cascade : ℕ → List Job → List Job → List Job × List Job
cascade zero gone kept = (gone, kept)
cascade (suc n) gone kept =
    let (more, rest) =
      cascade n (keep_if (is_orphan gone) kept) (keep_if (λ j. not (is_orphan gone j)) kept) in
    (gone ++ more, rest)

abbrev pub owner_gone : List Job → Text → Bool
owner_gone gone id = any_of (λ (j : Job). text_eq j.id id) gone

-- DELETE FROM jobs WHERE p. A round that takes no job is the last that does anything, so that as
-- many rounds as there are jobs are enough.
unfoldable pub delete_jobs : (Job → Bool) → Db → Db
unfolding cascade
delete_jobs p db =
    let others = keep_if (λ j. not (p j)) db.jobs in
    let (gone, rest) = cascade (length others) (keep_if p db.jobs) others in
    record db {
      jobs = rest;
      steps = keep_if (λ (s : JobStep). not (owner_gone gone s.job_id)) db.steps;
      logs = keep_if (λ (l : LogLine). not (owner_gone gone l.job_id)) db.logs;
    }

abbrev pub of_disc : List Disc → Job → Bool
of_disc gone j = any_of (λ (d : Disc). text_eq d.id j.disc_id) gone

-- DELETE FROM discs WHERE p
unfoldable pub delete_discs : (Disc → Bool) → Db → Db
unfolding delete_jobs
delete_discs p db = record (delete_jobs (of_disc (keep_if p db.discs)) db) {
  discs = keep_if (λ d. not (p d)) db.discs;
}
