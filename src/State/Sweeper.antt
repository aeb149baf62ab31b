-- ===== src/State/Sweeper.antt =====
-- daemon/state/sweeper.go: the periodic pruning of the history. Times are instants, in nanoseconds. The
-- calendar of the daemon's location is a parameter: `three_am` stands for time.Date of the date of an
-- instant in its location, at three o'clock. `timestamp` stands for the format of a time, and
-- `rows_affected` as in the store.
pub mod Ticks
use disc_echo_dd.Common.{
  ℕ, ◌+◌, ◌-◌, ◌*◌, ◌/◌, Bool, true, false, List, [], ◌∷◌, Option, none, some, Text, codes,
  if◌then◌else◌, ltb, GoError, itoa, pos,
}
use disc_echo_dd.State.Types.{Job}
use disc_echo_dd.State.Rows.{Db}
use disc_echo_dd.State.Settings.{Settings, get_bool, get_int, set_setting}
use disc_echo_dd.State.Store.History.{
  RetentionPolicy, RetentionResult, active, total, day, prune_history,
}

pub record Station : Type 0 where
  pub db : Db
  pub settings : Settings

unfoldable pub policy : Settings → RetentionPolicy
policy s = record {
  success_days = get_int (codes "retention.success.days") s;
  success_count = get_int (codes "retention.success.count") s;
  failed_days = get_int (codes "retention.failed.days") s;
  failed_count = get_int (codes "retention.failed.count") s;
}

unfoldable pub record_run : Text → ℕ → Settings → Settings
unfolding set_setting
record_run at deleted s =
    set_setting (codes "retention.last_run_count") (itoa (pos deleted))
      (set_setting (codes "retention.last_run_at") at s)

module _ (rows_affected : (Job → Bool) → Db → ℕ) (timestamp : ℕ → Text) where
  abbrev pub pruned_station : ℕ → Station → Station
  pruned_station now s =
      let (res, db) = prune_history rows_affected (policy s.settings) now s.db in
      record { db = db; settings = record_run (timestamp now) (total res) s.settings }

  -- `fault` is the error of PruneHistory, whose transaction is then rolled back.
  abbrev pub sweep_with : Option GoError → ℕ → Station → Station
  sweep_with none now s = pruned_station now s
  sweep_with (some e) now s = s

  unfoldable pub tick : Option GoError → ℕ → Station → Station
  unfolding policy record_run prune_history active get_bool
  tick fault now s =
      if get_bool (codes "retention.forever") s.settings
      then s
      else if active (policy s.settings)
      then sweep_with fault now s
      else s

-- Three o'clock of the day of `now`, or 24 hours later where that is past.
unfoldable pub next_three_am : (ℕ → ℕ) → ℕ → ℕ
next_three_am three_am now =
    let target = three_am now in if ltb now target then target else target + day

-- What the timer of the loop is set to.
unfoldable pub wait : (ℕ → ℕ) → ℕ → ℕ
unfolding next_three_am
wait three_am now = next_three_am three_am now - now

-- The loop: a sweep at once, then one after each timer. `late` is how much later than its time each
-- timer fires; the loop ends where the list does, when its context is cancelled.
module _ (rows_affected : (Job → Bool) → Db → ℕ) (timestamp : ℕ → Text) (three_am : ℕ → ℕ) where
  unfoldable pub run_sweeper : List (ℕ × Option GoError) → Option GoError → ℕ → Station → Station
  unfolding tick wait
  run_sweeper [] fault now s = tick rows_affected timestamp fault now s
  run_sweeper ((late, next) ∷ timers) fault now s =
      run_sweeper timers next (now + wait three_am now + late)
        (tick rows_affected timestamp fault now s)
