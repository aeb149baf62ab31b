-- ===== src/State/Store/History.antt =====
-- daemon/state/store.go: the retention of finished jobs. Times are in nanoseconds; a limit in days is
-- one whose duration fits Go's 64 bits (under 106,752 days).
pub mod Selected
pub mod Pruned
pub mod Cleared
pub mod Ops
use disc_echo_dd.Common.{
  ℕ, zero, suc, ◌+◌, ◌-◌, ◌*◌, Bool, true, false, not, ◌&&◌, ◌||◌, List, [], ◌∷◌, Option, none,
  some, Text, text_eq, is_empty, ltb, leb, ◌==◌, if◌then◌else◌, keep_if, any_of, Result, ok, err,
  not_found, ℤ, pos, negsuc,
}
use disc_echo_dd.State.Types.{Job, JobState, is_active}
use disc_echo_dd.State.Rows.{Db, Disc}
use disc_echo_dd.State.Store.Table.{select, count_where}
use disc_echo_dd.State.Store.Jobs.{has_id, is_terminal}
use disc_echo_dd.State.Store.Lookups.{has_disc_id}
use disc_echo_dd.State.Store.Cascade.{delete_jobs, delete_discs}

pub record RetentionPolicy : Type 0 where
  pub success_days : ℤ
  pub success_count : ℤ
  pub failed_days : ℤ
  pub failed_count : ℤ

pub record RetentionResult : Type 0 where
  pub success_deleted : ℕ
  pub failed_deleted : ℕ
  pub discs_deleted : ℕ

-- A knob as the statements use it: 0 where the code's `> 0` fails, which is no limit.
unfoldable pub limit : ℤ → ℕ
limit (pos n) = n
limit (negsuc n) = 0

unfoldable pub active : RetentionPolicy → Bool
unfolding limit
active p =
    ltb 0 (limit p.success_days)
    || ltb 0 (limit p.success_count)
    || ltb 0 (limit p.failed_days)
    || ltb 0 (limit p.failed_count)

unfoldable pub total : RetentionResult → ℕ
total r = r.success_deleted + r.failed_deleted

abbrev pub is_success : JobState → Bool
is_success JobState.done = true
is_success _ = false

abbrev pub is_failure : JobState → Bool
is_failure JobState.failed = true
is_failure JobState.cancelled = true
is_failure JobState.interrupted = true
is_failure _ = false

-- 24 hours
abbrev pub day : ℕ
day = 86400000000000

-- `a < b` on timestamps; the empty one is before all others.
unfoldable pub before : Option ℕ → Option ℕ → Bool
before none none = false
before none (some u) = true
before (some t) none = false
before (some t) (some u) = ltb t u

-- `a < b` on texts, by their codes.
unfoldable pub text_before : Text → Text → Bool
text_before [] [] = false
text_before [] (d ∷ t) = true
text_before (c ∷ s) [] = false
text_before (c ∷ s) (d ∷ t) = ltb c d || (c == d) && text_before s t

abbrev pub is_stamped : Option ℕ → Bool
is_stamped none = false
is_stamped (some t) = true

-- state IN (…) AND finished_at != ''
unfoldable pub in_bucket : (JobState → Bool) → Job → Bool
in_bucket states j = states j.state && is_stamped j.finished_at

-- `k` comes before `j` in ORDER BY finished_at DESC, id DESC.
unfoldable pub ranks_above : Job → Job → Bool
unfolding before text_before
ranks_above k j =
    before j.finished_at k.finished_at
    || not (before k.finished_at j.finished_at) && text_before j.id k.id

-- id NOT IN (SELECT id … ORDER BY … LIMIT n): at least n rows of the bucket come before the row.
unfoldable pub beyond_newest : (JobState → Bool) → ℕ → List Job → Job → Bool
unfolding in_bucket ranks_above
beyond_newest states n jobs j =
    leb n (count_where (λ k. in_bucket states k && ranks_above k j) jobs)

unfoldable pub is_expired : ℕ → ℕ → Job → Bool
unfolding before
is_expired days now j = before j.finished_at (some (now - days * day))

-- The WHERE body of a bucket, on the table of jobs that the statement meets; without a limit, the
-- statement is left out.
unfoldable pub retention_where : (JobState → Bool) → ℕ → ℕ → ℕ → List Job → Job → Bool
unfolding beyond_newest is_expired in_bucket
retention_where states days count now jobs j =
    in_bucket states j
    && (ltb 0 days && is_expired days now j || ltb 0 count && beyond_newest states count jobs j)

unfoldable pub success_where : RetentionPolicy → ℕ → List Job → Job → Bool
unfolding limit retention_where
success_where p now jobs =
    retention_where is_success (limit p.success_days) (limit p.success_count) now jobs

unfoldable pub failed_where : RetentionPolicy → ℕ → List Job → Job → Bool
unfolding limit retention_where
failed_where p now jobs =
    retention_where is_failure (limit p.failed_days) (limit p.failed_count) now jobs

-- The guard that keeps the disc that was last seen in its drive.
unfoldable pub is_superseded : List Disc → Disc → Bool
is_superseded discs d =
    is_empty d.drive_id
    || any_of (λ (e : Disc). text_eq e.drive_id d.drive_id && ltb d.created_at e.created_at) discs

abbrev pub has_job : List Job → Disc → Bool
has_job jobs d = any_of (λ (j : Job). text_eq j.disc_id d.id) jobs

unfoldable pub is_orphan_disc : Db → Disc → Bool
unfolding is_superseded
is_orphan_disc db d = not (has_job db.jobs d) && is_superseded db.discs d

-- The result is a part of the pair: what RowsAffected reports for a DELETE on `jobs` is SQLite's,
-- whose cascades it does not count.
module _ (rows_affected : (Job → Bool) → Db → ℕ) where
  unfoldable pub prune_history : RetentionPolicy → ℕ → Db → RetentionResult × Db
  unfolding active success_where failed_where is_orphan_disc delete_jobs delete_discs
  prune_history p now db =
      let one = success_where p now db.jobs in
      let after_one = delete_jobs one db in
      let two = failed_where p now after_one.jobs in
      let after_two = delete_jobs two after_one in
      let orphan = is_orphan_disc after_two in
      if active p
      then (
        record {
          success_deleted = rows_affected one db;
          failed_deleted = rows_affected two after_one;
          discs_deleted = count_where orphan after_two.discs;
        },
        delete_discs orphan after_two,
      )
      else (record { success_deleted = 0; failed_deleted = 0; discs_deleted = 0 }, db)

unfoldable pub count_would_prune : RetentionPolicy → ℕ → Db → RetentionResult
unfolding success_where failed_where
count_would_prune p now db = record {
  success_deleted = count_where (success_where p now db.jobs) db.jobs;
  failed_deleted = count_where (failed_where p now db.jobs) db.jobs;
  discs_deleted = 0;
}

unfoldable pub history_bucket_totals : Db → ℕ × ℕ
unfolding in_bucket
history_bucket_totals db =
    (count_where (in_bucket is_success) db.jobs, count_where (in_bucket is_failure) db.jobs)

-- `if n == 0 { return ErrNotFound }` after the DELETE of a disc.
unfoldable pub delete_counted : Text → Db → ℕ → Result (Unit {0}) × Db
unfolding delete_discs
delete_counted id db zero = (err not_found, db)
delete_counted id db (suc n) = (ok tt, delete_discs (has_disc_id id) db)

-- DELETE FROM discs WHERE id = ?
unfoldable pub delete_disc : Text → Db → Result (Unit {0}) × Db
unfolding delete_counted
delete_disc id db = delete_counted id db (count_where (has_disc_id id) db.discs)

unfoldable pub drop_job : Job → Db → Db
unfolding is_orphan_disc delete_jobs delete_discs
drop_job j db =
    let rest = delete_jobs (has_id j.id) db in
    delete_discs (λ d. has_disc_id j.disc_id d && is_orphan_disc rest d) rest

unfoldable pub delete_found : Db → Option Job → Result (Unit {0}) × Db
unfolding drop_job
delete_found db none = (err not_found, db)
delete_found db (some j) = (ok tt, drop_job j db)

unfoldable pub delete_job_and_orphans : Text → Db → Result (Unit {0}) × Db
unfolding delete_found select
delete_job_and_orphans id db = delete_found db (select (has_id id) db.jobs)

-- A disc with history and no job in progress.
unfoldable pub is_history_disc : Db → Disc → Bool
unfolding is_superseded
is_history_disc db d =
    has_job db.jobs d
    && not (any_of (λ (j : Job). text_eq j.disc_id d.id && is_active j.state) db.jobs)
    && is_superseded db.discs d

unfoldable pub clear_history : Db → ℕ × Db
unfolding is_history_disc delete_jobs delete_discs
clear_history db = (
  count_where (λ j. is_terminal j.state) db.jobs,
  delete_jobs (λ j. is_terminal j.state) (delete_discs (is_history_disc db) db),
)
