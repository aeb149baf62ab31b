-- ===== src/State/Lifecycle/Latest.antt =====
-- The loops of daemon/state/disc_lifecycle.go return the newest job that passes their test.
use disc_echo_dd.Common.{
  ℕ, ◌≤◌, ◌<◌, ◌≡◌, refl, ◌⊎◌, inl, inr, Bool, true, false, List, [], ◌∷◌, Memᴰ, Option, none, some,
  arith, ltb, All, All-mem, Bool-cases,
}
use disc_echo_dd.State.Types.{Job}
use disc_echo_dd.State.Lifecycle.{newer, latest_from, latest}

-- `j` is the newest of the jobs that pass the test.
pub record IsLatest (p : Job → Bool) (js : List Job) (j : Job) : Type 0 where
  pub listed : Memᴰ j js
  pub passes : p j ≡ true
  pub newest : All (λ k. p k ≡ true → k.created_at ≤ j.created_at) js

abbrev pub NonePasses : (Job → Bool) → List Job → Type 0
NonePasses p = All (λ k. p k ≡ false)

-- The candidate that the loop ends with, from a candidate `b`: `b` itself or a listed job.
Improves : (Job → Bool) → List Job → Job → Job → Type 0
Improves p js b j =
    (b.created_at ≤ j.created_at)
    × All (λ k. p k ≡ true → k.created_at ≤ j.created_at) js
    × ((j ≡ b) ⊎ (Memᴰ j js × (p j ≡ true)))

newer-some :
    (p : Job → Bool) (k b : Job)
    → ((newer p k (some b) ≡ some k) × (p k ≡ true) × (b.created_at ≤ k.created_at))
      ⊎ ((newer p k (some b) ≡ some b) × (p k ≡ true → k.created_at ≤ b.created_at))
unfolding newer
newer-some p k b = elim (Bool-cases (p k)) [
  | inl t ↦ elim (Bool-cases (ltb b.created_at k.created_at)) [
    | inl l ↦ inl (rw (t, l), t, ground arith)
    | inr l ↦ inr (rw (t, l), λ _. ground arith)
  ]
  | inr f ↦ inr (rw f, λ t. cc)
]

latest_from-some :
    (p : Job → Bool) (js : List Job) (b : Job)
    → (j : Job) × (latest_from p js (some b) ≡ some j) × Improves p js b j
unfolding latest_from Improves
latest_from-some p [] b = (b, refl, (omega arith, tt, inl refl))
latest_from-some p (k ∷ js) b = elim (newer-some p k b) [
  | inl (e, t, le) ↦ after_new e t le (latest_from-some p js k)
  | inr (e, le) ↦ after_old e le (latest_from-some p js b)
]
  where
    after_new :
        newer p k (some b) ≡ some k
        → p k ≡ true
        → b.created_at ≤ k.created_at
        → (j : Job) × (latest_from p js (some k) ≡ some j) × Improves p js k j
        → (j : Job) × (latest_from p js (newer p k (some b)) ≡ some j) × Improves p (k ∷ js) b j
    after_new e t le (j, r, (kj, all, inl same)) =
        (j, rw e r, (omega arith, (λ _. kj, all), inr (Memᴰ.head same, rw same t)))
    after_new e t le (j, r, (kj, all, inr (m, pj))) =
        (j, rw e r, (omega arith, (λ _. kj, all), inr (Memᴰ.tail m, pj)))

    after_old :
        newer p k (some b) ≡ some b
        → (p k ≡ true → k.created_at ≤ b.created_at)
        → (j : Job) × (latest_from p js (some b) ≡ some j) × Improves p js b j
        → (j : Job) × (latest_from p js (newer p k (some b)) ≡ some j) × Improves p (k ∷ js) b j
    after_old e le (j, r, (bj, all, inl same)) =
        (j, rw e r, (bj, (λ t. omega (arith, le t), all), inl same))
    after_old e le (j, r, (bj, all, inr (m, pj))) =
        (j, rw e r, (bj, (λ t. omega (arith, le t), all), inr (Memᴰ.tail m, pj)))

-- The loop finds no job exactly where none passes, and else the newest one.
pub latest-cases :
    (p : Job → Bool) (js : List Job)
    → ((latest p js ≡ none) × NonePasses p js)
      ⊎ ((j : Job) × (latest p js ≡ some j) × IsLatest p js j)
unfolding latest latest_from Improves
latest-cases p [] = inl (refl, tt)
latest-cases p (k ∷ js) = elim (Bool-cases (p k)) [
  | inl t ↦ inr (started t (latest_from-some p js k))
  | inr f ↦ skipped f (latest-cases p js)
]
  where
    started :
        p k ≡ true
        → (j : Job) × (latest_from p js (some k) ≡ some j) × Improves p js k j
        → (j : Job) × (latest p (k ∷ js) ≡ some j) × IsLatest p (k ∷ js) j
    started t (j, r, (kj, all, inl same)) =
        (j, rw t r, record { listed = Memᴰ.head same; passes = rw same t; newest = (λ _. kj, all) })
    started t (j, r, (kj, all, inr (m, pj))) =
        (j, rw t r, record { listed = Memᴰ.tail m; passes = pj; newest = (λ _. kj, all) })

    skipped :
        p k ≡ false
        → ((latest p js ≡ none) × NonePasses p js)
          ⊎ ((j : Job) × (latest p js ≡ some j) × IsLatest p js j)
        → ((latest p (k ∷ js) ≡ none) × NonePasses p (k ∷ js))
          ⊎ ((j : Job) × (latest p (k ∷ js) ≡ some j) × IsLatest p (k ∷ js) j)
    skipped f (inl (e, n)) = inl (rw f e, (f, n))
    skipped f (inr (j, e, l)) = inr (
      j,
      rw f e,
      record { listed = Memᴰ.tail l.listed; passes = l.passes; newest = (λ t. cc, l.newest) },
    )

-- With distinct creation times two newest jobs of lists with the same members are one.
pub IsLatest-unique :
    (p : Job → Bool) (js ks : List Job) (a b : Job)
    → ((x : Job) → Memᴰ x js → Memᴰ x ks)
    → ((x : Job) → Memᴰ x ks → Memᴰ x js)
    → ((x y : Job) → Memᴰ x js → Memᴰ y js → x.created_at ≡ y.created_at → x ≡ y)
    → IsLatest p js a
    → IsLatest p ks b
    → a ≡ b
IsLatest-unique p js ks a b to back distinct la lb = distinct a b la.listed (back b lb.listed) (
    omega (
      arith,
      All-mem _ js b la.newest (back b lb.listed) lb.passes,
      All-mem _ ks a lb.newest (to a la.listed) la.passes,
    ))

-- A candidate that is older than a time, or none.
abbrev OlderThan : ℕ → Option Job → Type 0
OlderThan n none = Unit
OlderThan n (some b) = b.created_at < n

newer-OlderThan :
    (p : Job → Bool) (k : Job) (n : ℕ) (b : Option Job)
    → OlderThan n b
    → ((p k ≡ true) × (n ≤ k.created_at)) ⊎ OlderThan n (newer p k b)
unfolding newer
newer-OlderThan p k n none o = ground arith
newer-OlderThan p k n (some b) o = ground arith

newer_wins :
    (p : Job → Bool) (k : Job) (n : ℕ) (b : Option Job)
    → OlderThan n b
    → p k ≡ true
    → n ≤ k.created_at
    → newer p k b ≡ some k
unfolding newer
newer_wins p k n none o t le = rw t
newer_wins p k n (some b) o t le = ground arith

-- With a newer job ahead that passes, it does not matter which older candidate the loop starts from.
forget_older :
    (p : Job → Bool) (js : List Job) (r : Job) (b c : Option Job)
    → Memᴰ r js
    → p r ≡ true
    → OlderThan r.created_at b
    → OlderThan r.created_at c
    → latest_from p js b ≡ latest_from p js c
unfolding latest_from
forget_older p [] r b c m t ob oc = elim m [ ]
forget_older p (k ∷ js) r b c (Memᴰ.head e) t ob oc =
    rw (newer_wins p k r.created_at b ob (rw (← e) t) (rw e (omega arith)))
      (rw (newer_wins p k r.created_at c oc (rw (← e) t) (rw e (omega arith))) refl)
forget_older p (k ∷ js) r b c (Memᴰ.tail m) t ob oc = elim (newer-OlderThan p k r.created_at b ob) [
  | inl (pk, le) ↦
      rw (newer_wins p k r.created_at b ob pk le) (rw (newer_wins p k r.created_at c oc pk le) refl)
  | inr ob' ↦ elim (newer-OlderThan p k r.created_at c oc) [
    | inl (pk, le) ↦
        rw (newer_wins p k r.created_at b ob pk le)
          (rw (newer_wins p k r.created_at c oc pk le) refl)
    | inr oc' ↦ forget_older p js r (newer p k b) (newer p k c) m t ob' oc'
  ]
]

pub latest-older :
    (p : Job → Bool) (js : List Job) (old r : Job)
    → Memᴰ r js
    → p r ≡ true
    → old.created_at < r.created_at
    → latest p (old ∷ js) ≡ latest p js
unfolding latest latest_from
latest-older p js old r m t older =
    forget_older p js r (newer p old none) none m t (start (Bool-cases (p old))) tt
  where
    start : (p old ≡ true) ⊎ (p old ≡ false) → OlderThan r.created_at (newer p old none)
    start (inl e) = unfold newer in rw e older
    start (inr e) = unfold newer in rw e tt

pub latest_skip :
    (p : Job → Bool) (js : List Job) (j : Job) → p j ≡ false → latest p (j ∷ js) ≡ latest p js
unfolding latest latest_from newer
latest_skip p js j f = rw f
