-- ===== src/State/Sweeper/Ticks.antt =====
-- What a sweep of daemon/state/sweeper.go leaves, and when the next one is.
use disc_echo_dd.Common.{
  ℕ, ◌+◌, ◌≤◌, ◌<◌, ◌≡◌, refl, ◌⊎◌, inl, inr, Bool, true, false, Option, none, some, Text, codes,
  text_eq, Bool-cases, ltb, ltb→lt, pos, itoa, max_int, GoError,
}
use disc_echo_dd.State.Types.{Job}
use disc_echo_dd.State.Rows.{Db}
use disc_echo_dd.State.Settings.{
  Settings, get_bool, get_int, set_setting, get-set_other, get_int-set_setting,
}
use disc_echo_dd.State.Store.History.{active, total, day, prune_history, count_would_prune}
use disc_echo_dd.State.Store.History.Pruned.{prune_history_settles}
use disc_echo_dd.State.Sweeper.{Station, policy, record_run, pruned_station, tick, next_three_am}

-- The next sweep is strictly later, in a location where three o'clock of a day is less than 24 hours
-- before the day's end.
next_three_am_later :
    (three_am : ℕ → ℕ) (now : ℕ) → now < three_am now + day → now < next_three_am three_am now
unfolding next_three_am
next_three_am_later three_am now h = elim (Bool-cases (ltb now (three_am now))) [
  | inl t ↦ rw t (ltb→lt now (three_am now) t)
  | inr f ↦ rw f h
]

-- A sweep writes none of the four limits.
int_kept :
    (key at : Text) (n : ℕ) (s : Settings)
    → text_eq (codes "retention.last_run_count") key ≡ false
    → text_eq (codes "retention.last_run_at") key ≡ false
    → get_int key (record_run at n s) ≡ get_int key s
unfolding get_int record_run
int_kept key at n s a b = rw (
  get-set_other (codes "retention.last_run_count") key (itoa (pos n))
      (set_setting (codes "retention.last_run_at") at s) a,
  get-set_other (codes "retention.last_run_at") key at s b,
)

policy_kept : (at : Text) (n : ℕ) (s : Settings) → policy (record_run at n s) ≡ policy s
unfolding policy text_eq
policy_kept at n s = rw (
  int_kept (codes "retention.success.days") at n s refl refl,
  int_kept (codes "retention.success.count") at n s refl refl,
  int_kept (codes "retention.failed.days") at n s refl refl,
  int_kept (codes "retention.failed.count") at n s refl refl,
)

stored_count :
    (at : Text) (n : ℕ) (s : Settings)
    → n ≤ max_int
    → get_int (codes "retention.last_run_count") (record_run at n s) ≡ pos n
unfolding record_run
stored_count at n s h =
    get_int-set_setting (codes "retention.last_run_count") n
      (set_setting (codes "retention.last_run_at") at s) h

module _ (rows_affected : (Job → Bool) → Db → ℕ) (timestamp : ℕ → Text) (now : ℕ)
    (s : Station) where
  tick_on :
      get_bool (codes "retention.forever") s.settings ≡ false
      → active (policy s.settings) ≡ true
      → tick rows_affected timestamp none now s ≡ pruned_station rows_affected timestamp now s
  unfolding tick
  tick_on off on = rw (off, on)

  -- Where the history is not kept forever and a limit is set, a sweep that succeeds leaves nothing that
  -- the stored limits select at that time. It stores the total that PruneHistory returns, so that it
  -- reads back as long as it fits Go's int; that is the sum of what RowsAffected reports for each
  -- DELETE on the jobs, whatever that counts, and not a count of all the rows that are gone.
  pub tick_settles :
      get_bool (codes "retention.forever") s.settings ≡ false
      → active (policy s.settings) ≡ true
      → total (prune_history rows_affected (policy s.settings) now s.db).0 ≤ max_int
      → let after = tick rows_affected timestamp none now s in
        (count_would_prune (policy after.settings) now after.db
          ≡ record { success_deleted = 0; failed_deleted = 0; discs_deleted = 0 })
        × (get_int (codes "retention.last_run_count") after.settings
            ≡ pos (total (prune_history rows_affected (policy s.settings) now s.db).0))
  tick_settles off on fits =
      let (res, db) = prune_history rows_affected (policy s.settings) now s.db in
      rw (tick_on off on, policy_kept (timestamp now) (total res) s.settings)
        (
          prune_history_settles rows_affected (policy s.settings) now s.db,
          stored_count (timestamp now) (total res) s.settings fits,
        )

  -- A sweep changes nothing while the history is kept forever, where no limit is set, or where the
  -- prune fails.
  pub tick_quiet :
      (fault : Option GoError)
      → (get_bool (codes "retention.forever") s.settings ≡ true)
        ⊎ ((active (policy s.settings) ≡ false) ⊎ ((e : GoError) × (fault ≡ some e)))
      → tick rows_affected timestamp fault now s ≡ s
  unfolding tick
  tick_quiet fault (inl a) = rw a
  tick_quiet fault (inr (inl b)) =
      elim (Bool-cases (get_bool (codes "retention.forever") s.settings)) [
        | inl a ↦ rw a
        | inr a ↦ rw (a, b)
      ]
  tick_quiet fault (inr (inr (e, q))) = rw q (failed e)
    where
      failed : (e : GoError) → tick rows_affected timestamp (some e) now s ≡ s
      failed e = elim (Bool-cases (get_bool (codes "retention.forever") s.settings)) [
        | inl a ↦ rw a
        | inr a ↦ elim (Bool-cases (active (policy s.settings))) [
          | inl b ↦ rw (a, b)
          | inr b ↦ rw (a, b)
        ]
      ]
