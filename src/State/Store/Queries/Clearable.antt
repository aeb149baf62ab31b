-- ===== src/State/Store/Queries/Clearable.antt =====
-- Clearing the disc of a drive on eject takes no job in progress (daemon/state/store.go).
use disc_echo_dd.Common.{
  ℕ, zero, suc, ◌≡◌, Bool, true, false, ◌&&◌, List, [], ◌∷◌, Option, none, some, Text, text_eq,
  text_eq_iff, is_empty, ltb, keep_if, any_of_mem, keep_if_mem, Memᴰ, Bool-cases, inl, inr, ◌⊎◌,
  text_eq_sym, arith,
}
use mathlib.Core.List.Memᴰ
use disc_echo_dd.State.Types.{Job, is_active}
use disc_echo_dd.State.Rows.{Db, Disc}
use disc_echo_dd.State.Store.Table.{count_where}
use disc_echo_dd.State.Store.Jobs.{disc_has_active_job}
use disc_echo_dd.State.Store.Lookups.{has_disc_id}
use disc_echo_dd.State.Store.Cascade.{delete_discs, of_disc}
use disc_echo_dd.State.Store.History.{delete_disc, delete_counted}
use disc_echo_dd.State.Store.History.Pruned.{delete_jobs_keeps}
use disc_echo_dd.State.Store.Queries.{
  clearable_disc_on_drive, clearable_disc, newest_disc, on_drive, is_clearable, first_state,
  lifecycle_states,
}

clearable_idle :
    (db : Db) (o : Option Disc) (id : Text)
    → clearable_disc db o ≡ some id
    → disc_has_active_job id db ≡ false
unfolding clearable_disc
clearable_idle db none id e = absurd cc
clearable_idle db (some d) id e = elim (Bool-cases (disc_has_active_job d.id db)) [
  | inl busy ↦ absurd (let h = rw busy at e in cc (h))
  | inr idle ↦ elim (Bool-cases (is_clearable (first_state (lifecycle_states (d.id ∷ []) db)))) [
    | inl t ↦ let same : d.id ≡ id = cc (rw (idle, t) at e) in rw same at idle
    | inr t ↦ absurd (let h = rw (idle, t) at e in cc (h))
  ]
]

none_counted :
    (p : Job → Bool) (js : List Job) (j : Job)
    → Memᴰ j js
    → ltb 0 (count_where p js) ≡ false
    → p j ≡ false
unfolding count_where
none_counted p [] j m e = elim m [ ]
none_counted p (k ∷ js) j m e = elim (Bool-cases (p k)) [
  | inl t ↦ absurd (let h = rw t at e in ground (arith, h))
  | inr f ↦ elim (Memᴰ.cases_cons m) [
    | inl same ↦ rw same f
    | inr n ↦ none_counted p js j n (rw f at e)
  ]
]

idle_elsewhere :
    (id : Text) (db : Db) (j : Job)
    → is_empty id ≡ false
    → disc_has_active_job id db ≡ false
    → Memᴰ j db.jobs
    → is_active j.state ≡ true
    → text_eq j.disc_id id ≡ false
unfolding disc_has_active_job
idle_elsewhere id db j named idle m busy =
    let none =
      none_counted (λ j. text_eq j.disc_id id && is_active j.state) db.jobs j m
        (rw named at idle) in
    elim (Bool-cases (text_eq j.disc_id id)) [
      | inr f ↦ f
      | inl t ↦ absurd (let h = rw (t, busy) at none in cc (h))
    ]

delete_disc_keeps :
    (id : Text) (db : Db) (j : Job)
    → Memᴰ j db.jobs
    → is_empty j.parent_job_id ≡ true
    → text_eq j.disc_id id ≡ false
    → Memᴰ j (delete_discs (has_disc_id id) db).jobs
unfolding delete_discs
delete_disc_keeps id db j m top other =
    delete_jobs_keeps (of_disc gone) db j m top (elsewhere (Bool-cases (of_disc gone j)))
  where
    gone : List Disc
    gone = keep_if (has_disc_id id) db.discs

    elsewhere : (of_disc gone j ≡ true) ⊎ (of_disc gone j ≡ false) → of_disc gone j ≡ false
    elsewhere (inr f) = f
    elsewhere (inl t) =
        let (d, n, e) = any_of_mem (λ (d : Disc). text_eq d.id j.disc_id) gone t in
        let is : d.id ≡ id =
          (text_eq_iff d.id id).0 (keep_if_mem (has_disc_id id) db.discs d n).1 in
        let its : text_eq d.id j.disc_id ≡ true = e in
        let flipped : text_eq j.disc_id d.id ≡ true = text_eq_sym d.id j.disc_id its in
        let hit : text_eq j.disc_id id ≡ true = rw is at flipped in absurd (cc (hit, other))

counted_keeps :
    (id : Text) (db : Db) (n : ℕ) (j : Job)
    → Memᴰ j db.jobs
    → is_empty j.parent_job_id ≡ true
    → text_eq j.disc_id id ≡ false
    → Memᴰ j (delete_counted id db n).1.jobs
unfolding delete_counted
counted_keeps id db zero j m top other = m
counted_keeps id db (suc n) j m top other = delete_disc_keeps id db j m top other

-- Deleting the disc that may be cleared from a drive keeps every job in progress that has no parent,
-- where the disc's identifier is not empty.
pub clear_keeps_active :
    (drive id : Text) (db : Db) (j : Job)
    → clearable_disc_on_drive drive db ≡ some id
    → is_empty id ≡ false
    → Memᴰ j db.jobs
    → is_active j.state ≡ true
    → is_empty j.parent_job_id ≡ true
    → Memᴰ j (delete_disc id db).1.jobs
unfolding clearable_disc_on_drive delete_disc
clear_keeps_active drive id db j e named m busy top = elim (Bool-cases (is_empty drive)) [
  | inl t ↦ absurd (let h = rw t at e in cc (h))
  | inr f ↦
      let idle =
        clearable_idle db (newest_disc (keep_if (on_drive drive) db.discs) none) id (rw f at e) in
      counted_keeps id db (count_where (has_disc_id id) db.discs) j m top
        (idle_elsewhere id db j named idle m busy)
]
