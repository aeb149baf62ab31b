-- ===== src/State/Store/History/Cleared.antt =====
-- What ClearHistory of daemon/state/store.go leaves, and what every statement on the history keeps.
use disc_echo_dd.Common.{
  ◌≡◌, refl, ◌↔◌, inl, inr, Bool, true, false, not, ◌&&◌, List, [], text_eq, text_eq_sym, keep_if,
  any_of, Memᴰ, keep_if_mem, any_of_mem, any_of-mem, Bool-cases, and_true,
}
use disc_echo_dd.State.Types.{Job, JobState, is_active}
use disc_echo_dd.State.Rows.{Db, Disc}
use disc_echo_dd.State.Store.Jobs.{is_terminal}
use disc_echo_dd.State.Store.Cascade.{delete_jobs, delete_discs, of_disc}
use disc_echo_dd.State.Store.Cascade.Doomed.{
  Doomed, Closed, delete_jobs_mem, delete_jobs-Closed, delete_jobs_exact,
}
use disc_echo_dd.State.Store.History.{is_history_disc, is_superseded, has_job, clear_history}

terminal_of_inactive : (s : JobState) → is_active s ≡ false → is_terminal s ≡ true
terminal_of_inactive JobState.queued e = absurd cc
terminal_of_inactive JobState.identifying e = absurd cc
terminal_of_inactive JobState.running e = absurd cc
terminal_of_inactive JobState.paused e = absurd cc
terminal_of_inactive JobState.done e = refl
terminal_of_inactive JobState.failed e = refl
terminal_of_inactive JobState.cancelled e = refl
terminal_of_inactive JobState.interrupted e = refl

abbrev pub terminal_job : Job → Bool
terminal_job j = is_terminal j.state

module _ (db : Db) where
  abbrev history : List Disc
  history = keep_if (is_history_disc db) db.discs

  abbrev left : Db
  left = delete_discs (is_history_disc db) db

  -- The jobs of a disc that goes have all ended.
  history_terminal :
      (j : Job) → Memᴰ j db.jobs → of_disc history j ≡ true → is_terminal j.state ≡ true
  unfolding is_history_disc
  history_terminal j m t =
      let (d, n, e) = any_of_mem (λ (d : Disc). text_eq d.id j.disc_id) history t in
      let h = (keep_if_mem (is_history_disc db) db.discs d n).1 in
      let in_progress : Job → Bool = λ k. text_eq k.disc_id d.id && is_active k.state in
      let idle = not (any_of in_progress db.jobs) in
      let b =
        (and_true (has_job db.jobs d) idle
          (and_true (has_job db.jobs d && idle) (is_superseded db.discs d) h).0).1 in
      elim (Bool-cases (is_active j.state)) [
        | inr f ↦ terminal_of_inactive j.state f
        | inl a ↦ absurd (
            let u =
              any_of-mem in_progress db.jobs j m (rw (text_eq_sym d.id j.disc_id e, a) refl) in
            let v = rw u at b in cc (v))
      ]

  Doomed-by_disc : (j : Job) → Doomed (of_disc history) db.jobs j → Doomed terminal_job db.jobs j
  Doomed-by_disc j (Doomed.selected m t) = Doomed.selected m (history_terminal j m t)
  Doomed-by_disc j (Doomed.below {k = k} m e d) = Doomed.below m e (Doomed-by_disc k d)

  left_mem : (j : Job) → Memᴰ j left.jobs → Memᴰ j db.jobs
  unfolding delete_discs
  left_mem j m = (delete_jobs_mem (of_disc history) db j m).0

  left_keeps : (j : Job) → Memᴰ j db.jobs → ¬ Doomed (of_disc history) db.jobs j → Memᴰ j left.jobs
  unfolding delete_discs
  left_keeps j m safe = (delete_jobs_exact (of_disc history) db j).1 (m, safe)

  left-Closed : Closed db.jobs [] left.jobs
  unfolding delete_discs
  left-Closed = delete_jobs-Closed (of_disc history) db

  Doomed-larger : (j : Job) → Doomed terminal_job left.jobs j → Doomed terminal_job db.jobs j
  Doomed-larger j (Doomed.selected m t) = Doomed.selected (left_mem j m) t
  Doomed-larger j (Doomed.below {k = k} m e d) = Doomed.below (left_mem j m) e (Doomed-larger k d)

  Doomed-smaller :
      (j : Job) → Memᴰ j left.jobs → Doomed terminal_job db.jobs j → Doomed terminal_job left.jobs j
  Doomed-smaller j l (Doomed.selected m t) = Doomed.selected l t
  Doomed-smaller j l (Doomed.below {k = k} m e d) = elim (left-Closed j k l (doomed_row k d) e) [
    | inl n ↦ elim n [ ]
    | inr n ↦ Doomed.below l e (Doomed-smaller k n d)
  ]
    where
      doomed_row : (k : Job) → Doomed terminal_job db.jobs k → Memᴰ k db.jobs
      doomed_row k (Doomed.selected m e) = m
      doomed_row k (Doomed.below m e d) = m

  -- Clearing the history removes the jobs that have ended and every job below one of these, also one
  -- that is queued or running, and no other job.
  pub clear_history_exact :
      (j : Job)
      → Memᴰ j (clear_history db).1.jobs
        ↔ (Memᴰ j db.jobs × ¬ Doomed (λ k. is_terminal k.state) db.jobs j)
  unfolding clear_history
  clear_history_exact j = (kept, stays)
    where
      kept :
          Memᴰ j (delete_jobs terminal_job left).jobs
          → Memᴰ j db.jobs × ¬ Doomed terminal_job db.jobs j
      kept m =
          let (l, safe) = (delete_jobs_exact terminal_job left j).0 m in
          (left_mem j l, λ d. safe (Doomed-smaller j l d))

      stays :
          Memᴰ j db.jobs × ¬ Doomed terminal_job db.jobs j
          → Memᴰ j (delete_jobs terminal_job left).jobs
      stays (m, safe) =
          let l = left_keeps j m (λ d. safe (Doomed-by_disc j d)) in
          (delete_jobs_exact terminal_job left j).1 (l, λ d. safe (Doomed-larger j d))
