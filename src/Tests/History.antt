-- ===== src/Tests/History.antt =====
-- The history, the sweeps and the settings, on a small database.
use disc_echo_dd.Common.{
  if◌then◌else◌, ltb, ℕ, ◌≤◌, ◌*◌, ◌≡◌, ◌↔◌, refl, inl, Bool, true, [], ◌∷◌, List, some, none, Text,
  is_empty, codes, text_eq, Memᴰ, arith, pos, ℤ, map, itoa, max_int, length, All,
}
use disc_echo_dd.State.Types.{DiscLifecycleState, JobKind, JobState, Job}
use disc_echo_dd.State.Rows.{Db, Disc}
use disc_echo_dd.State.Events.{Event}
use disc_echo_dd.State.Store.Table.{count_where}
use disc_echo_dd.State.Store.Jobs.{is_terminal}
use disc_echo_dd.State.Store.Cascade.{cascade}
use disc_echo_dd.State.Store.Cascade.Doomed.{Doomed}
use disc_echo_dd.State.Store.Cascade.Consistent.{Consistent}
use disc_echo_dd.State.Store.History.{
  RetentionPolicy, clear_history, prune_history, count_would_prune, success_where, failed_where,
  total, active, day,
}
use disc_echo_dd.State.Store.History.Cleared.{clear_history_exact}
use disc_echo_dd.State.Store.History.Ops.{HistoryOp, run_history, run_history-Consistent}
use disc_echo_dd.State.Store.History.Pruned.{prune_history_keeps, prune_history_settles}
use disc_echo_dd.State.Store.Queries.{lifecycle_states}
use disc_echo_dd.State.Store.Queries.Batched.{lifecycle_states-each, state_of}
use disc_echo_dd.State.Settings.{
  Settings, get_int, get_bool, set_setting, get_setting, get_int-set_setting,
}
use disc_echo_dd.State.Sweeper.{Station, policy, tick, next_three_am}
use disc_echo_dd.State.Sweeper.Ticks.{tick_settles}
use disc_echo_dd.State.Broadcaster.{BroadcastOp, Broadcaster, Channel, run, new_broadcaster}
use disc_echo_dd.State.Broadcaster.Fed.{Since}
use disc_echo_dd.State.Broadcaster.Delivery.{broadcasts_delivered}
use disc_echo_dd.Tests.Samples.{job, disc, db}

abbrev finished_rip : Job
finished_rip = record (job (codes "r") JobKind.rip JobState.done [] 1) { finished_at = some 7 }

abbrev running_child : Job
running_child = record (job (codes "t") JobKind.transcode JobState.running [] 2) {
  parent_job_id = codes "r";
}

abbrev history_db : Db
history_db = record db { jobs = finished_rip ∷ running_child ∷ [] }

-- Clearing the history deletes a running transcode whose rip is done.
cleared_child : (clear_history history_db).1.jobs ≡ []
unfolding clear_history cascade text_eq
cleared_child = refl

clear_history_exact_example : Memᴰ running_child (clear_history history_db).1.jobs ↔ (
    Memᴰ running_child history_db.jobs
    × ¬ Doomed (λ k. is_terminal k.state) history_db.jobs running_child)
clear_history_exact_example = clear_history_exact history_db running_child

abbrev direct_rows : (Job → Bool) → Db → ℕ
direct_rows p d = count_where p d.jobs

abbrev limits : ℤ → ℤ → RetentionPolicy
limits days count = record {
  success_days = days;
  success_count = count;
  failed_days = pos 0;
  failed_count = pos 0;
}

abbrev small_db : Db
small_db = record db { jobs = finished_rip ∷ [] }

small-Consistent : Consistent small_db
unfolding text_eq
small-Consistent = record {
  disc_of = λ j m. its_disc j m;
  parent_of = λ j m. inl (no_parent j m);
  step_of = λ s m. elim m [ ];
  log_of = λ l m. elim m [ ];
}
  where
    its_disc :
        (j : Job)
        → Memᴰ j (finished_rip ∷ [])
        → (d : Disc) × Memᴰ d small_db.discs × (text_eq d.id j.disc_id ≡ true)
    its_disc j (Memᴰ.head e) = (disc, Memᴰ.head refl, rw e refl)
    its_disc j (Memᴰ.tail m) = elim m [ ]

    no_parent : (j : Job) → Memᴰ j (finished_rip ∷ []) → is_empty j.parent_job_id ≡ true
    no_parent j (Memᴰ.head e) = rw e refl
    no_parent j (Memᴰ.tail m) = elim m [ ]

run_history-Consistent_example : Consistent (
    run_history direct_rows
      (HistoryOp.prune (limits (pos 1) (pos 0)) (9 * day)
        ∷ HistoryOp.delete_job (codes "r")
        ∷ HistoryOp.clear
        ∷ [])
      small_db)
run_history-Consistent_example =
    run_history-Consistent direct_rows
      (HistoryOp.prune (limits (pos 1) (pos 0)) (9 * day)
        ∷ HistoryOp.delete_job (codes "r")
        ∷ HistoryOp.clear
        ∷ [])
      small_db small-Consistent

prune_history_settles_example :
    count_would_prune
      (limits (pos 1) (pos 0))
      (9 * day)
      (prune_history direct_rows (limits (pos 1) (pos 0)) (9 * day) history_db).1
    ≡ record { success_deleted = 0; failed_deleted = 0; discs_deleted = 0 }
prune_history_settles_example =
    prune_history_settles direct_rows (limits (pos 1) (pos 0)) (9 * day) history_db

prune_history_keeps_example :
    Memᴰ finished_rip
      (prune_history direct_rows (limits (pos 0) (pos 1)) (9 * day) history_db).1.jobs
unfolding success_where failed_where text_eq count_where
prune_history_keeps_example =
    prune_history_keeps direct_rows (limits (pos 0) (pos 1)) (9 * day) history_db finished_rip
      (Memᴰ.head refl) refl refl refl

lifecycle_states-each_example :
    lifecycle_states (codes "disc" ∷ []) history_db
    ≡ map {B = Text × DiscLifecycleState} (λ id. (id, state_of history_db id)) (codes "disc" ∷ [])
lifecycle_states-each_example = lifecycle_states-each (codes "disc" ∷ []) history_db

abbrev settings : Settings
settings = (codes "retention.success.count", codes "1") ∷ []

get_int-set_setting_example :
    get_int
      (codes "retention.failed.days")
      (set_setting (codes "retention.failed.days") (itoa (pos 30)) settings)
    ≡ pos 30
unfolding max_int
get_int-set_setting_example =
    get_int-set_setting (codes "retention.failed.days") 30 settings (omega arith)

-- A location in which the day after the first has 23 hours: its three o'clock is two hours after its
-- midnight, since the clock goes from two to three.
abbrev spring : ℕ → ℕ
spring now = if ltb now 86400000000000 then 10800000000000 else 93600000000000

-- On the first day at noon the next sweep is 24 hours after the last three o'clock, an hour after the
-- next one.
sweeps_at_four : next_three_am spring 43200000000000 ≡ 97200000000000
unfolding next_three_am
sweeps_at_four = refl

abbrev station : Station
station = record { db = history_db; settings = settings }

tick_settles_example :
    let after = tick direct_rows (λ t. []) none (9 * day) station in
    (count_would_prune (policy after.settings) (9 * day) after.db
      ≡ record { success_deleted = 0; failed_deleted = 0; discs_deleted = 0 })
    × (get_int (codes "retention.last_run_count") after.settings
        ≡ pos (total (prune_history direct_rows (policy settings) (9 * day) history_db).0))
unfolding get_bool get_setting policy active total prune_history max_int text_eq get_int count_where
tick_settles_example = tick_settles direct_rows (λ t. []) (9 * day) station refl refl (omega arith)

abbrev ops : List BroadcastOp
ops =
    BroadcastOp.subscribe 1 1
    ∷ BroadcastOp.publish (Event.job_done (codes "r"))
    ∷ BroadcastOp.receive 1
    ∷ BroadcastOp.publish (Event.job_done (codes "t"))
    ∷ []

broadcasts_delivered_example :
    (b : Broadcaster) × (run ops new_broadcaster ≡ some b)
    × All
        (λ (c : Channel). (length c.buffer ≤ c.capacity) × (c.subscribed ≡ true → Since ops c))
        b.channels
broadcasts_delivered_example = broadcasts_delivered ops
