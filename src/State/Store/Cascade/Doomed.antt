-- ===== src/State/Store/Cascade/Doomed.antt =====
-- Which rows a cascade takes: a job goes exactly if the statement selects it or an ancestor of it.
use disc_echo_dd.Common.{
  ℕ, zero, suc, ◌≤◌, ◌≡◌, refl, ◌⊎◌, ◌↔◌, inl, inr, Bool, true, false, not, List, [], ◌∷◌, keep_if,
  length, length-split, length-zero, Memᴰ, zero_or_more, not-true, keep_if_mem, any_of_mem,
  any_of-mem, mem-split, arith,
}
use mathlib.Core.List.Memᴰ
use disc_echo_dd.State.Types.{Job}
use disc_echo_dd.State.Rows.{Db}
use disc_echo_dd.State.Store.Cascade.{is_parent, is_orphan, cascade, delete_jobs}

-- A job that a DELETE takes: a selected row, or one below such a row.
pub data Doomed (p : Job → Bool) (jobs : List Job) : Job → Type 0 where
  selected : {j : Job} → Memᴰ j jobs → p j ≡ true → Doomed p jobs j
  below : {j k : Job} → Memᴰ j jobs → is_parent k j ≡ true → Doomed p jobs k → Doomed p jobs j

-- A parent of a row that stays is itself left, or goes next.
abbrev pub Closed : List Job → List Job → List Job → Type 0
Closed jobs gone kept =
    (j k : Job) → Memᴰ j kept → Memᴰ k jobs → is_parent k j ≡ true → Memᴰ k gone ⊎ Memᴰ k kept

module _ (jobs : List Job) where
  Closed-step :
      (gone kept : List Job)
      → Closed jobs gone kept
      → Closed jobs (keep_if (is_orphan gone) kept) (keep_if (λ j. not (is_orphan gone j)) kept)
  Closed-step gone kept h j k m n e =
      let (m, t) = keep_if_mem (λ j. not (is_orphan gone j)) kept j m in
      elim (h j k m n e) [
        | inl g ↦
            absurd
              (let o = any_of-mem (λ k. is_parent k j) gone k g e in let u = rw o at t in cc (u))
        | inr l ↦ mem-split (is_orphan gone) kept k l
      ]

  none_orphan : (kept : List Job) → keep_if (is_orphan []) kept ≡ []
  none_orphan [] = refl
  none_orphan (j ∷ kept) = none_orphan kept

  fewer :
      (n : ℕ) (gone kept : List Job)
      → (length kept ≤ suc n) ⊎ (gone ≡ [])
      → (length (keep_if (λ j. not (is_orphan gone j)) kept) ≤ n)
        ⊎ (keep_if (is_orphan gone) kept ≡ [])
  fewer n gone kept (inr e) = inr (rw e (none_orphan kept))
  fewer n gone kept (inl h) =
      let total = length-split (is_orphan gone) kept in
      elim (zero_or_more (length (keep_if (is_orphan gone) kept))) [
        | inl z ↦ inr (length-zero (keep_if (is_orphan gone) kept) z)
        | inr o ↦ inl (omega (arith, total, o, h))
      ]

  -- With a round for each job, what stays has its parents.
  pub cascade-Closed :
      (n : ℕ) (gone kept : List Job)
      → (length kept ≤ n) ⊎ (gone ≡ [])
      → Closed jobs gone kept
      → Closed jobs [] (cascade n gone kept).1
  unfolding cascade
  cascade-Closed zero gone kept (inl h) c j k m =
      absurd (let none : kept ≡ [] = length-zero kept (omega (arith, h)) in elim (rw none at m) [ ])
  cascade-Closed zero gone kept (inr h) c j k m = (rw h at c) j k m
  cascade-Closed (suc n) gone kept h c j k m =
      cascade-Closed n (keep_if (is_orphan gone) kept) (keep_if (λ j. not (is_orphan gone j)) kept)
        (fewer n gone kept h) (Closed-step gone kept c) j k m

  -- Every row goes or stays.
  pub cascade_all :
      (n : ℕ) (gone kept : List Job) (j : Job)
      → Memᴰ j gone ⊎ Memᴰ j kept
      → Memᴰ j (cascade n gone kept).0 ⊎ Memᴰ j (cascade n gone kept).1
  unfolding cascade
  cascade_all zero gone kept j m = m
  cascade_all (suc n) gone kept j (inl m) = inl (
      Memᴰ.append_left
        (cascade n (keep_if (is_orphan gone) kept) (keep_if (λ j. not (is_orphan gone j)) kept)).0
        m)
  cascade_all (suc n) gone kept j (inr m) =
      elim (cascade_all n (keep_if (is_orphan gone) kept)
        (keep_if (λ j. not (is_orphan gone j)) kept) j (mem-split (is_orphan gone) kept j m)) [
          | inl g ↦ inl (Memᴰ.append_right gone g)
          | inr r ↦ inr r
        ]

  -- What stays is a part of what was left at first.
  pub cascade_kept :
      (n : ℕ) (gone kept : List Job) (j : Job) → Memᴰ j (cascade n gone kept).1 → Memᴰ j kept
  unfolding cascade
  cascade_kept zero gone kept j m = m
  cascade_kept (suc n) gone kept j m =
      (keep_if_mem (λ j. not (is_orphan gone j)) kept j
        (cascade_kept n (keep_if (is_orphan gone) kept) (keep_if (λ j. not (is_orphan gone j)) kept)
          j m)).0

  -- What goes is doomed.
  pub cascade_gone :
      (p : Job → Bool) (n : ℕ) (gone kept : List Job) (j : Job)
      → ((k : Job) → Memᴰ k gone → Doomed p jobs k)
      → ((k : Job) → Memᴰ k kept → Memᴰ k jobs)
      → Memᴰ j (cascade n gone kept).0
      → Doomed p jobs j
  unfolding cascade
  cascade_gone p zero gone kept j d sub m = d j m
  cascade_gone p (suc n) gone kept j d sub m = elim (Memᴰ.append_cases gone m) [
    | inl g ↦ d j g
    | inr r ↦
        cascade_gone p n (keep_if (is_orphan gone) kept)
          (keep_if (λ j. not (is_orphan gone j)) kept) j next rest r
  ]
    where
      next : (k : Job) → Memᴰ k (keep_if (is_orphan gone) kept) → Doomed p jobs k
      next k m =
          let (m, o) = keep_if_mem (is_orphan gone) kept k m in
          let (l, g, e) = any_of_mem (λ l. is_parent l k) gone o in Doomed.below (sub k m) e (d l g)

      rest : (k : Job) → Memᴰ k (keep_if (λ j. not (is_orphan gone j)) kept) → Memᴰ k jobs
      rest k m = sub k (keep_if_mem (λ j. not (is_orphan gone j)) kept k m).0

module _ (p : Job → Bool) (db : Db) where
  -- The rows that stay were there and are not selected.
  pub delete_jobs_mem : (j : Job) → Memᴰ j (delete_jobs p db).jobs → Memᴰ j db.jobs × (p j ≡ false)
  unfolding delete_jobs
  delete_jobs_mem j m =
      let others = keep_if (λ j. not (p j)) db.jobs in
      let kept = cascade_kept db.jobs (length others) (keep_if p db.jobs) others j m in
      let (m, e) = keep_if_mem (λ j. not (p j)) db.jobs j kept in (m, not-true (p j) e)

  pub delete_jobs-Closed : Closed db.jobs [] (delete_jobs p db).jobs
  unfolding delete_jobs
  delete_jobs-Closed =
      let others = keep_if (λ j. not (p j)) db.jobs in
      cascade-Closed db.jobs (length others) (keep_if p db.jobs) others (inl (omega arith))
        (λ j k m n e. mem-split p db.jobs k n)

  none_left : (j : Job) → Doomed p db.jobs j → ¬ Memᴰ j (delete_jobs p db).jobs
  none_left j (Doomed.selected m e) l =
      let (n, f) = delete_jobs_mem j l in let u : true ≡ false = rw e at f in absurd cc (u)
  none_left j (Doomed.below {k = k} m e d) l = elim (delete_jobs-Closed j k l (doomed_mem k d) e) [
    | inl n ↦ elim n [ ]
    | inr n ↦ none_left k d n
  ]
    where
      doomed_mem : (k : Job) → Doomed p db.jobs k → Memᴰ k db.jobs
      doomed_mem k (Doomed.selected m e) = m
      doomed_mem k (Doomed.below m e d) = m

  -- A DELETE takes exactly the rows that it selects and those below them.
  pub delete_jobs_exact :
      (j : Job) → Memᴰ j (delete_jobs p db).jobs ↔ (Memᴰ j db.jobs × ¬ Doomed p db.jobs j)
  unfolding delete_jobs
  delete_jobs_exact j =
      (λ m. ((delete_jobs_mem j m).0, λ d. none_left j d m), λ (m, safe). stays m safe)
    where
      others : List Job
      others = keep_if (λ j. not (p j)) db.jobs

      doomed : (k : Job) → Memᴰ k (keep_if p db.jobs) → Doomed p db.jobs k
      doomed k m = let (m, e) = keep_if_mem p db.jobs k m in Doomed.selected m e

      stays :
          Memᴰ j db.jobs
          → ¬ Doomed p db.jobs j
          → Memᴰ j (cascade (length others) (keep_if p db.jobs) others).1
      stays m safe =
          elim (cascade_all db.jobs (length others) (keep_if p db.jobs) others j
            (mem-split p db.jobs j m)) [
              | inl g ↦ absurd (
                  safe (
                    cascade_gone db.jobs p (length others) (keep_if p db.jobs) others j doomed
                      (λ k m. (keep_if_mem (λ j. not (p j)) db.jobs k m).0) g))
              | inr l ↦ l
            ]
