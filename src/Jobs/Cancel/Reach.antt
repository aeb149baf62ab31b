-- ===== src/Jobs/Cancel/Reach.antt =====
-- What the kill switch of daemon/jobs/orchestrator.go reaches.
use disc_echo_dd.Common.{
  ℕ, ◌≡◌, ◌⊎◌, refl, Bool, true, false, not, ◌&&◌, List, [], ◌∷◌, Option, none, some, Text, text_eq,
  text_eq_iff, Bool-cases, inl, inr, any_of, GoError, ok, Memᴰ, mem-map, mem-keep_if, keep_if,
}
use disc_echo_dd.State.Types.{JobState, Job, is_active}
use disc_echo_dd.State.Store.Table.{select_mem}
use disc_echo_dd.State.Store.Jobs.{
  get_job, has_id, is_terminal, cancel_job_if_active, list_active_job_ids,
}
use disc_echo_dd.State.Store.Jobs.States.{get-cancel_job_if_active, get_job-id, select_of_get}
use disc_echo_dd.Jobs.World.{Faults, World}
use disc_echo_dd.Jobs.Compute.{owns}
use disc_echo_dd.Jobs.Cancel.{signal, compute_cancel, cancel, first_error, cancel_each, cancel_all}

-- The job's context was cancelled, or its row is.
abbrev pub Reached : Text → World → Type 0
Reached id w =
    Memᴰ id w.signalled ⊎ ((k : Job) × (get_job w.db id ≡ ok k) × (k.state ≡ JobState.cancelled))

-- The job has not ended in the table.
abbrev Pending : Text → World → Type 0
Pending id w = (k : Job) × (get_job w.db id ≡ ok k) × (is_terminal k.state ≡ false)

-- A cancel signals the job, or cancels its row.
cancel_cases :
    (f : Faults) (now : ℕ) (id : Text) (w : World)
    → f.cancel_active ≡ none
    → ((cancel f now id w).1 ≡ signal id w)
      ⊎ ((cancel f now id w).1 ≡ record w { db = cancel_job_if_active now id w.db })
unfolding cancel compute_cancel
cancel_cases f now id w h = elim (Bool-cases (any_of (λ k. text_eq k id) w.cancels)) [
  | inl t ↦ inl (rw (t, cancel) refl)
  | inr t ↦ elim (Bool-cases (owns w id)) [
    | inl o ↦ inl (rw (t, o, cancel) refl)
    | inr o ↦ inr (rw (t, o, h, cancel) refl)
  ]
]

module _ (now : ℕ) (id k : Text) (w : World) where
  stored_reaches :
      (j : Job)
      → get_job w.db id ≡ ok j
      → is_terminal j.state ≡ false
      → text_eq j.id k ≡ true
      → Reached id (record w { db = cancel_job_if_active now k w.db })
  stored_reaches j e a same =
      let found = get-cancel_job_if_active now k id w.db j e in
      inr (
        record j { state = JobState.cancelled; finished_at = some now },
        rw (same, a) at found,
        refl,
      )

  stored_keeps : Reached id w → Reached id (record w { db = cancel_job_if_active now k w.db })
  stored_keeps (inl m) = inl m
  stored_keeps (inr (j, e, c)) =
      let found = get-cancel_job_if_active now k id w.db j e in
      let over : (text_eq j.id k && not (is_terminal j.state)) ≡ false =
        rw c (and_false (text_eq j.id k)) in
      inr (j, rw over at found, c)
    where
      and_false : (b : Bool) → (b && false) ≡ false
      and_false true = refl
      and_false false = refl

  -- A pending job stays pending, or is reached.
  stored-Pending :
      Pending id w
      → Pending id (record w { db = cancel_job_if_active now k w.db })
        ⊎ Reached id (record w { db = cancel_job_if_active now k w.db })
  stored-Pending (j, e, a) =
      let found = get-cancel_job_if_active now k id w.db j e in
      elim (Bool-cases (text_eq j.id k)) [
        | inl t ↦ inr (stored_reaches j e a t)
        | inr t ↦ inl (j, rw t at found, a)
      ]

module _ (f : Faults) (now : ℕ) (stored : f.cancel_active ≡ none) where
  cancel_hits : (id : Text) (w : World) → Pending id w → Reached id (cancel f now id w).1
  cancel_hits id w (j, e, a) = elim (cancel_cases f now id w stored) [
    | inl s ↦ rw s (inl (Memᴰ.head refl))
    | inr s ↦
        rw s (stored_reaches now id id w j e a ((text_eq_iff j.id id).1 (get_job-id w.db id e)))
  ]

  cancel_keeps : (id k : Text) (w : World) → Reached id w → Reached id (cancel f now k w).1
  cancel_keeps id k w r = elim (cancel_cases f now k w stored) [
    | inl s ↦ rw s (signalled r)
    | inr s ↦ rw s (stored_keeps now id k w r)
  ]
    where
      signalled : Reached id w → Reached id (signal k w)
      signalled (inl m) = inl (Memᴰ.tail m)
      signalled (inr c) = inr c

  cancel-Pending :
      (id k : Text) (w : World)
      → Pending id w
      → Pending id (cancel f now k w).1 ⊎ Reached id (cancel f now k w).1
  cancel-Pending id k w p = elim (cancel_cases f now k w stored) [
    | inl s ↦ rw s (inl p)
    | inr s ↦ rw s (stored-Pending now id k w p)
  ]

  each_keeps :
      (ids : List Text) (first : Option GoError) (id : Text) (w : World)
      → Reached id w
      → Reached id (cancel_each f now ids first w).1
  unfolding cancel_each
  each_keeps [] first id w r = r
  each_keeps (k ∷ ids) first id w r =
      each_keeps ids (first_error first (cancel f now k w).0) id (cancel f now k w).1
        (cancel_keeps id k w r)

  each_reaches :
      (ids : List Text) (first : Option GoError) (id : Text) (w : World)
      → Memᴰ id ids
      → Pending id w
      → Reached id (cancel_each f now ids first w).1
  unfolding cancel_each
  each_reaches [] first id w m p = elim m [ ]
  each_reaches (k ∷ ids) first id w (Memᴰ.head same) p =
      each_keeps ids (first_error first (cancel f now k w).0) id (cancel f now k w).1
        (rw (← same) (cancel_hits id w p))
  each_reaches (k ∷ ids) first id w (Memᴰ.tail m) p =
      let next = first_error first (cancel f now k w).0 in
      let w1 = (cancel f now k w).1 in
      elim (cancel-Pending id k w p) [
        | inl q ↦ each_reaches ids next id w1 m q
        | inr r ↦ each_keeps ids next id w1 r
      ]

  active_pending : (st : JobState) → is_active st ≡ true → is_terminal st ≡ false
  active_pending JobState.queued a = refl
  active_pending JobState.identifying a = refl
  active_pending JobState.running a = refl
  active_pending JobState.paused a = refl
  active_pending JobState.done a = absurd cc
  active_pending JobState.failed a = absurd cc
  active_pending JobState.cancelled a = absurd cc
  active_pending JobState.interrupted a = absurd cc

  -- The kill switch reaches every job that is queued, identifying, running or paused: afterwards its
  -- context was cancelled or its row says cancelled, whatever other jobs there are, where the list of
  -- active jobs can be read and the cancel statement does not fail.
  pub cancel_all_reaches :
      (id : Text) (w : World) (j : Job)
      → f.list_active ≡ none
      → get_job w.db id ≡ ok j
      → is_active j.state ≡ true
      → Reached id (cancel_all f now w).2
  unfolding cancel_all list_active_job_ids
  cancel_all_reaches id w j listed e a =
      let found =
        mem-keep_if (λ (r : Job). is_active r.state) w.db.jobs j
          (select_mem (has_id id) w.db.jobs (select_of_get w.db id e)) a in
      let named =
        mem-map (λ (r : Job). r.id) (keep_if (λ (r : Job). is_active r.state) w.db.jobs) j found in
      rw (listed, cancel_all)
        (each_reaches (list_active_job_ids w.db) none id w (rw (get_job-id w.db id e) at named)
          (j, e, active_pending j.state a))
