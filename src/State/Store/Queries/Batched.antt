-- ===== src/State/Store/Queries/Batched.antt =====
-- The batched query of the discs' lifecycle states gives what each disc alone would.
use disc_echo_dd.Common.{
  ◌≡◌, refl, ap, sym, ◌∙◌, inl, inr, Bool, true, false, List, [], ◌∷◌, ◌++◌, map, Text, text_eq,
  text_eq_iff, text_eq_refl, if◌then◌else◌, keep_if, any_of-mem, Memᴰ, Bool-cases, append_assoc,
  append-nil,
}
use disc_echo_dd.State.Types.{DiscLifecycleState, Job}
use disc_echo_dd.State.Rows.{Db, Disc}
use disc_echo_dd.State.Lifecycle.{derive_lifecycle_state}
use disc_echo_dd.State.Store.Table.{select}
use disc_echo_dd.State.Store.Lookups.{has_disc_id}
use disc_echo_dd.State.Store.Queries.{
  append_at, by_disc, jobs_at, type_at, is_asked, lifecycle_states,
}

abbrev pub of_disc_id : Text → Job → Bool
of_disc_id id j = text_eq j.disc_id id

jobs_at-append_at :
    (id k : Text) (j : Job) (m : List (Text × List Job))
    → jobs_at id (append_at k j m) ≡ (if text_eq k id then jobs_at id m ++ j ∷ [] else jobs_at id m)
unfolding jobs_at append_at
jobs_at-append_at id k j [] = elim (Bool-cases (text_eq k id)) [ inl t ↦ rw t | inr f ↦ rw f ]
jobs_at-append_at id k j ((i, js) ∷ m) = elim (Bool-cases (text_eq i k)) [
  | inl t ↦
      let same : i ≡ k = (text_eq_iff i k).0 t in
      elim (Bool-cases (text_eq k id)) [
        | inl u ↦ let v : text_eq i id ≡ true = rw same u in rw (t, u, v)
        | inr u ↦ let v : text_eq i id ≡ false = rw same u in rw (t, u, v)
      ]
  | inr f ↦ elim (Bool-cases (text_eq i id)) [
    | inr u ↦ rw (f, u) (jobs_at-append_at id k j m)
    | inl u ↦ elim (Bool-cases (text_eq k id)) [
      | inr v ↦ rw (f, v, u)
      | inl v ↦
          let same : i ≡ k = (text_eq_iff i id).0 u ∙ sym ((text_eq_iff k id).0 v) in
          absurd (let g = rw same at f in cc (g, text_eq_refl k))
    ]
  ]
]

jobs_at-by_disc :
    (id : Text) (js : List Job) (m : List (Text × List Job))
    → jobs_at id (by_disc js m) ≡ jobs_at id m ++ keep_if (of_disc_id id) js
unfolding by_disc
jobs_at-by_disc id [] m = sym (append-nil (jobs_at id m))
jobs_at-by_disc id (j ∷ js) m = elim (Bool-cases (text_eq j.disc_id id)) [
  | inl t ↦
      rw (jobs_at-by_disc id js (append_at j.disc_id j m), jobs_at-append_at id j.disc_id j m, t)
        (append_assoc (jobs_at id m) (j ∷ []) (keep_if (of_disc_id id) js))
  | inr f ↦
      rw (jobs_at-by_disc id js (append_at j.disc_id j m), jobs_at-append_at id j.disc_id j m, f)
]

-- A filter for a part of what another filter keeps.
keep_if-narrow :
    (p q : Job → Bool) (js : List Job)
    → ((j : Job) → p j ≡ true → q j ≡ true)
    → keep_if p (keep_if q js) ≡ keep_if p js
keep_if-narrow p q [] h = refl
keep_if-narrow p q (j ∷ js) h = elim (Bool-cases (q j)) [
  | inl t ↦ elim (Bool-cases (p j)) [
    | inl u ↦ rw (t, u, keep_if-narrow p q js h)
    | inr u ↦ rw (t, u) (keep_if-narrow p q js h)
  ]
  | inr t ↦ elim (Bool-cases (p j)) [
    | inl u ↦ absurd (let v = h j u in cc (v, t))
    | inr u ↦ rw (t, u) (keep_if-narrow p q js h)
  ]
]

select-narrow :
    (p q : Disc → Bool) (ds : List Disc)
    → ((d : Disc) → p d ≡ true → q d ≡ true)
    → select p (keep_if q ds) ≡ select p ds
unfolding select
select-narrow p q [] h = refl
select-narrow p q (d ∷ ds) h = elim (Bool-cases (q d)) [
  | inl t ↦ elim (Bool-cases (p d)) [
    | inl u ↦ rw (t, u)
    | inr u ↦ rw (t, u) (select-narrow p q ds h)
  ]
  | inr t ↦ elim (Bool-cases (p d)) [
    | inl u ↦ absurd (let v = h d u in cc (v, t))
    | inr u ↦ rw (t, u) (select-narrow p q ds h)
  ]
]

-- The state of one disc from its row and its jobs.
abbrev pub state_of : Db → Text → DiscLifecycleState
state_of db id =
    derive_lifecycle_state (type_at (select (has_disc_id id) db.discs))
      (keep_if (of_disc_id id) db.jobs)

asked_for :
    (ids : List Text) (id k : Text) → Memᴰ id ids → text_eq k id ≡ true → is_asked ids k ≡ true
asked_for ids id k m e =
    let same : k ≡ id = (text_eq_iff k id).0 e in
    any_of-mem (λ i. text_eq i k) ids id m (rw same (text_eq_refl id))

module _ (ids : List Text) (db : Db) where
  abbrev types : List Disc
  types = keep_if (λ (d : Disc). is_asked ids d.id) db.discs

  abbrev grouped : List (Text × List Job)
  grouped = by_disc (keep_if (λ (j : Job). is_asked ids j.disc_id) db.jobs) []

  batched_state :
      (id : Text)
      → Memᴰ id ids
      → derive_lifecycle_state (type_at (select (has_disc_id id) types)) (jobs_at id grouped)
        ≡ state_of db id
  unfolding jobs_at
  batched_state id m =
      let jobs =
        jobs_at-by_disc id (keep_if (λ (j : Job). is_asked ids j.disc_id) db.jobs) []
        ∙ keep_if-narrow (of_disc_id id) (λ (j : Job). is_asked ids j.disc_id) db.jobs
            (λ j. asked_for ids id j.disc_id m) in
      let discs =
        select-narrow (has_disc_id id) (λ (d : Disc). is_asked ids d.id) db.discs
          (λ d. asked_for ids id d.id m) in
      ap (λ t. derive_lifecycle_state (type_at t) (jobs_at id grouped)) discs
      ∙ ap (λ js. derive_lifecycle_state (type_at (select (has_disc_id id) db.discs)) js) jobs

  each_asked :
      (asked : List Text)
      → ((id : Text) → Memᴰ id asked → Memᴰ id ids)
      → map {B = Text × DiscLifecycleState}
          (λ id. (
            id,
            derive_lifecycle_state (type_at (select (has_disc_id id) types)) (jobs_at id grouped),
          ))
          asked
        ≡ map {B = Text × DiscLifecycleState} (λ id. (id, state_of db id)) asked
  each_asked [] h = refl
  each_asked (id ∷ asked) h =
      rw (batched_state id (h id (Memᴰ.head refl)), each_asked asked (λ k m. h k (Memᴰ.tail m)))

  -- The two batched queries and the grouping give, for each disc asked for, the state derived from that
  -- disc's row and its jobs alone, in the table's order.
  pub lifecycle_states-each :
      lifecycle_states ids db ≡ map {B = Text × DiscLifecycleState} (λ id. (id, state_of db id)) ids
  unfolding lifecycle_states
  lifecycle_states-each = each_asked ids (λ id m. m)
