-- ===== src/State/Store/History/Selected.antt =====
-- Which rows the retention statements of daemon/state/store.go select, and how a smaller table
-- changes that.
use disc_echo_dd.Common.{
  ℕ, zero, suc, ◌≤◌, ◌≡◌, refl, Bool, true, false, not, ◌&&◌, List, [], ◌∷◌, keep_if, length,
  Bool-cases, inl, inr, arith,
}
use disc_echo_dd.State.Types.{Job, JobState, is_active}
use disc_echo_dd.State.Rows.{Db, Disc}
use disc_echo_dd.State.Store.Table.{count_where}
use disc_echo_dd.State.Store.Cascade.{cascade, delete_jobs, delete_discs, is_orphan, of_disc}
use disc_echo_dd.State.Store.History.{
  RetentionPolicy, limit, active, in_bucket, ranks_above, beyond_newest, retention_where,
  success_where, failed_where, is_success, is_failure,
}

-- No test accepts more rows of the first list than of the second.
abbrev pub Fewer : List Job → List Job → Type 0
Fewer xs ys = (q : Job → Bool) → count_where q xs ≤ count_where q ys

keep_if-Fewer : (p : Job → Bool) (xs : List Job) → Fewer (keep_if p xs) xs
unfolding count_where
keep_if-Fewer p [] q = omega arith
keep_if-Fewer p (x ∷ xs) q = elim (Bool-cases (p x)) [
  | inl t ↦ rw t (elim (Bool-cases (q x)) [
    | inl u ↦ rw u (omega (arith, keep_if-Fewer p xs q))
    | inr u ↦ rw u (keep_if-Fewer p xs q)
  ])
  | inr t ↦ rw t (elim (Bool-cases (q x)) [
    | inl u ↦ rw u (omega (arith, keep_if-Fewer p xs q))
    | inr u ↦ rw u (keep_if-Fewer p xs q)
  ])
]

pub Fewer-trans : (xs ys zs : List Job) → Fewer xs ys → Fewer ys zs → Fewer xs zs
Fewer-trans xs ys zs h k q = omega (arith, h q, k q)

cascade-Fewer : (n : ℕ) (gone kept : List Job) → Fewer (cascade n gone kept).1 kept
unfolding cascade
cascade-Fewer zero gone kept q = omega arith
cascade-Fewer (suc n) gone kept q =
    let rest = keep_if (λ j. not (is_orphan gone j)) kept in
    omega (
      arith,
      cascade-Fewer n (keep_if (is_orphan gone) kept) rest q,
      keep_if-Fewer (λ j. not (is_orphan gone j)) kept q,
    )

pub delete_jobs-Fewer : (p : Job → Bool) (db : Db) → Fewer (delete_jobs p db).jobs db.jobs
unfolding delete_jobs
delete_jobs-Fewer p db q =
    let others = keep_if (λ j. not (p j)) db.jobs in
    omega (
      arith,
      cascade-Fewer (length others) (keep_if p db.jobs) others q,
      keep_if-Fewer (λ j. not (p j)) db.jobs q,
    )

pub delete_discs-Fewer : (p : Disc → Bool) (db : Db) → Fewer (delete_discs p db).jobs db.jobs
unfolding delete_discs
delete_discs-Fewer p db = delete_jobs-Fewer (of_disc (keep_if p db.discs)) db

-- A row that a smaller table has beyond its newest is beyond them in the larger one.
retention_monotone :
    (states : JobState → Bool) (days count now : ℕ) (xs ys : List Job) (j : Job)
    → Fewer xs ys
    → retention_where states days count now xs j ≡ true
    → retention_where states days count now ys j ≡ true
unfolding retention_where beyond_newest
retention_monotone states days count now xs ys j h t =
    ground (arith, h (λ k. in_bucket states k && ranks_above k j))

module _ (p : RetentionPolicy) (now : ℕ) (xs ys : List Job) (j : Job) (h : Fewer xs ys) where
  pub success_where_kept : success_where p now ys j ≡ false → success_where p now xs j ≡ false
  unfolding success_where
  success_where_kept e = elim (Bool-cases (success_where p now xs j)) [
    | inl t ↦ absurd (
        let u =
          retention_monotone is_success (limit p.success_days) (limit p.success_count) now xs ys j h
            t in
        cc (u, e))
    | inr f ↦ f
  ]

  pub failed_where_kept : failed_where p now ys j ≡ false → failed_where p now xs j ≡ false
  unfolding failed_where
  failed_where_kept e = elim (Bool-cases (failed_where p now xs j)) [
    | inl t ↦ absurd (
        let u =
          retention_monotone is_failure (limit p.failed_days) (limit p.failed_count) now xs ys j h
            t in
        cc (u, e))
    | inr f ↦ f
  ]

active_outside :
    (s : JobState) → is_active s ≡ true → (is_success s ≡ false) × (is_failure s ≡ false)
active_outside JobState.queued e = (refl, refl)
active_outside JobState.identifying e = (refl, refl)
active_outside JobState.running e = (refl, refl)
active_outside JobState.paused e = (refl, refl)
active_outside JobState.done e = absurd cc
active_outside JobState.failed e = absurd cc
active_outside JobState.cancelled e = absurd cc
active_outside JobState.interrupted e = absurd cc

module _ (p : RetentionPolicy) (now : ℕ) (jobs : List Job) (j : Job) where
  -- A policy without a limit selects nothing.
  pub inactive_selects_none :
      active p ≡ false → (success_where p now jobs j ≡ false) × (failed_where p now jobs j ≡ false)
  unfolding active success_where failed_where retention_where
  inactive_selects_none e = (ground arith, ground arith)

  -- A job in progress is in neither bucket.
  pub active_not_selected :
      is_active j.state ≡ true
      → (success_where p now jobs j ≡ false) × (failed_where p now jobs j ≡ false)
  unfolding success_where failed_where retention_where in_bucket
  active_not_selected e = let (a, b) = active_outside j.state e in (rw a refl, rw b refl)
