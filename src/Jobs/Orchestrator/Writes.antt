-- ===== src/Jobs/Orchestrator/Writes.antt =====
-- The writes that a run of daemon/jobs/orchestrator.go makes to the job and to its drive, one by one.
use disc_echo_dd.Common.{
  ℕ, ◌≡◌, refl, ◌∙◌, ◌⊎◌, Bool, true, false, Option, none, some, Text, text_eq, if◌then◌else◌,
  Bool-cases, inl, inr, GoError, is_cancellation, ok,
}
use disc_echo_dd.State.Types.{DriveState, JobState, Job}
use disc_echo_dd.State.Rows.{Db, Drive}
use disc_echo_dd.State.Store.Jobs.{get_job, update_job_state, with_state, is_terminal}
use disc_echo_dd.State.Store.Jobs.States.{get-update_own, with_state-id, with_state-state}
use disc_echo_dd.State.Store.Jobs.Keeps.{Keeps, Keeps-same_jobs}
use disc_echo_dd.State.Store.Drives.{get_drive, has_drive_id, update_drive_state, with_drive_state}
use disc_echo_dd.State.Store.Drives.Claim.{get-update_drives}
use disc_echo_dd.Jobs.World.{Faults, World, exec, send_terminal_notification}
use disc_echo_dd.Jobs.Orchestrator.{Ran, final_of, publish_final, finish, notifies, is_cancelled}

-- The job is there and has ended.
abbrev pub HasEnded : Text → Db → Type 0
HasEnded id db = (k : Job) × (get_job db id ≡ ok k) × (is_terminal k.state ≡ true)

abbrev pub Exists : Text → Db → Type 0
Exists id db = (k : Job) × (get_job db id ≡ ok k)

-- Each drive is as it was, or idle.
abbrev pub IdleOrSame : Db → Db → Type 0
IdleOrSame db db' =
    (k : Text) (d : Drive)
    → get_drive db k ≡ ok d
    → (d' : Drive) × (get_drive db' k ≡ ok d') × ((d' ≡ d) ⊎ (d'.state ≡ DriveState.idle))

with_drive_state-id :
    (st : DriveState) (now : ℕ) (d : Drive) → (with_drive_state st now d).id ≡ d.id
unfolding with_drive_state
with_drive_state-id DriveState.idle now d = refl
with_drive_state-id _ now d = refl

with_drive_state-state :
    (st : DriveState) (now : ℕ) (d : Drive) → (with_drive_state st now d).state ≡ st
unfolding with_drive_state
with_drive_state-state DriveState.idle now d = refl
with_drive_state-state _ now d = refl

pub state_stored :
    (now : ℕ) (id : Text) (st : JobState) (msg : Text) (db : Db)
    → Exists id db
    → (k : Job) × (get_job (update_job_state now id st msg db).1 id ≡ ok k) × (k.state ≡ st)
unfolding update_job_state
state_stored now id st msg db (j, e) = (
  with_state st now msg j,
  get-update_own (with_state st now msg) db id j (with_state-id st now msg) e,
  with_state-state st now msg j,
)

pub ended_by :
    (now : ℕ) (id : Text) (st : JobState) (msg : Text) (db : Db)
    → is_terminal st ≡ true
    → Exists id db
    → HasEnded id (update_job_state now id st msg db).1
ended_by now id st msg db t j = let (k, e, s) = state_stored now id st msg db j in (k, e, rw s t)

pub update_job_state-Exists :
    (fault : Option GoError) (now : ℕ) (id : Text) (st : JobState) (msg : Text) (w : World)
    → Exists id w.db
    → Exists id (exec fault (update_job_state now id st msg) w).1.db
unfolding update_job_state
update_job_state-Exists (some x) now id st msg w j = j
update_job_state-Exists none now id st msg w (j, e) = (
  with_state st now msg j,
  get-update_own (with_state st now msg) w.db id j (with_state-id st now msg) e,
)

pub update_drive_state-Keeps :
    (fault : Option GoError) (now : ℕ) (id : Text) (st : DriveState) (w : World)
    → Keeps w.db (exec fault (update_drive_state now id st) w).1.db
unfolding update_drive_state
update_drive_state-Keeps (some x) now id st w = Keeps-same_jobs w.db _ refl
update_drive_state-Keeps none now id st w = Keeps-same_jobs w.db _ refl

pub Keeps-Exists : (db db' : Db) (id : Text) → Keeps db db' → Exists id db → Exists id db'
Keeps-Exists db db' id k (j, e) = let (i, f, same) = k id j e in (i, f)

pub Keeps-HasEnded : (db db' : Db) (id : Text) → Keeps db db' → HasEnded id db → HasEnded id db'
Keeps-HasEnded db db' id k (j, e, t) = let (i, f, same) = k id j e in (i, f, rw (same.state) t)

pub final_of-is_terminal : (e : Option GoError) → is_terminal (final_of e).0 ≡ true
final_of-is_terminal none = refl
final_of-is_terminal (some e) = elim (Bool-cases (is_cancellation e)) [
  | inl t ↦ rw t refl
  | inr t ↦ rw t refl
]

-- The events and the notification leave the tables alone.
pub finish-db :
    (f : Faults) (now : ℕ) (drv : Drive) (job : Job) (ran : Ran)
    → (finish f now drv job ran).db
      ≡ (exec f.set_idle
          (update_drive_state now drv.id DriveState.idle)
          (exec f.set_final
            (update_job_state now job.id (final_of ran.error).0 (final_of ran.error).1)
            ran.world).1).1.db
unfolding finish publish_final send_terminal_notification
finish-db f now drv job ran =
    let final = final_of ran.error in
    sent (notifies job final.0 ran.went_split) final.0 _ ∙ published final.0 final.1 _
  where
    published : (st : JobState) (msg : Text) (w : World) → (publish_final job.id st msg w).db ≡ w.db
    published JobState.done msg w = refl
    published JobState.cancelled msg w = refl
    published JobState.failed msg w = refl
    published _ msg w = refl

    sent :
        (b : Bool) (st : JobState) (w : World)
        → (if b then send_terminal_notification job.id st w else w).db ≡ w.db
    sent false st w = refl
    sent true JobState.done w = refl
    sent true JobState.failed w = refl
    sent true _ w = refl

-- A write to one drive leaves the others alone.
drive_step :
    (fault : Option GoError) (now : ℕ) (id : Text) (st : DriveState) (w : World) (k : Text)
    (d : Drive)
    → get_drive w.db k ≡ ok d
    → (d' : Drive) × (get_drive (exec fault (update_drive_state now id st) w).1.db k ≡ ok d')
      × (d'.id ≡ d.id)
      × ((d' ≡ d) ⊎ (text_eq d.id id ≡ true))
unfolding update_drive_state
drive_step (some x) now id st w k d e = (d, e, refl, inl refl)
drive_step none now id st w k d e =
    let found =
      get-update_drives (has_drive_id id) (with_drive_state st now) w.db k d
        (with_drive_state-id st now) e in
    elim (Bool-cases (text_eq d.id id)) [
      | inl t ↦ (with_drive_state st now d, rw t at found, with_drive_state-id st now d, inr t)
      | inr t ↦ (d, rw t at found, refl, inl refl)
    ]

idle_step :
    (now : ℕ) (id : Text) (w : World) (k : Text) (d : Drive)
    → get_drive w.db k ≡ ok d
    → (d' : Drive) × (get_drive (update_drive_state now id DriveState.idle w.db).1 k ≡ ok d')
      × (((d' ≡ d) × (text_eq d.id id ≡ false)) ⊎ (d'.state ≡ DriveState.idle))
unfolding update_drive_state
idle_step now id w k d e =
    let found =
      get-update_drives (has_drive_id id) (with_drive_state DriveState.idle now) w.db k d
        (with_drive_state-id DriveState.idle now) e in
    elim (Bool-cases (text_eq d.id id)) [
      | inl t ↦ (
        with_drive_state DriveState.idle now d,
        rw t at found,
        inr (with_drive_state-state DriveState.idle now d),
      )
      | inr t ↦ (d, rw t at found, inl (refl, t))
    ]

same_drives : (a b : Db) (k : Text) → b.drives ≡ a.drives → get_drive b k ≡ get_drive a k
unfolding get_drive
same_drives a b k h = rw h refl

-- The two writes to one drive, put together.
idle_or_same :
    (id : Text) (d d1 d2 : Drive)
    → d1.id ≡ d.id
    → (d1 ≡ d) ⊎ (text_eq d.id id ≡ true)
    → ((d2 ≡ d1) × (text_eq d1.id id ≡ false)) ⊎ (d2.state ≡ DriveState.idle)
    → (d2 ≡ d) ⊎ (d2.state ≡ DriveState.idle)
idle_or_same id d d1 d2 named _ (inr t) = inr t
idle_or_same id d d1 d2 named (inl q) (inl (p, f)) = inl (p ∙ q)
idle_or_same id d d1 d2 named (inr t) (inl (p, f)) =
    absurd (let h : text_eq d.id id ≡ false = rw (← named) f in cc (h, t))

-- A drive that was set to ripping and then to idle.
pub idle_after :
    (ripping : Option GoError) (now : ℕ) (id : Text) (a b : World)
    → b.db.drives ≡ (exec ripping (update_drive_state now id DriveState.ripping) a).1.db.drives
    → IdleOrSame a.db (update_drive_state now id DriveState.idle b.db).1
idle_after ripping now id a b same k d e =
    let (d1, e1, named, kept) = drive_step ripping now id DriveState.ripping a k d e in
    let there : get_drive b.db k ≡ ok d1 =
      same_drives (exec ripping (update_drive_state now id DriveState.ripping) a).1.db b.db k same
      ∙ e1 in
    let (d2, e2, outcome) = idle_step now id b k d1 there in
    (d2, e2, idle_or_same id d d1 d2 named kept outcome)

pub cancelled_ended : (st : JobState) → is_cancelled st ≡ true → is_terminal st ≡ true
cancelled_ended JobState.cancelled t = refl
cancelled_ended JobState.queued t = absurd cc
cancelled_ended JobState.identifying t = absurd cc
cancelled_ended JobState.running t = absurd cc
cancelled_ended JobState.done t = absurd cc
cancelled_ended JobState.failed t = absurd cc
cancelled_ended JobState.paused t = absurd cc
cancelled_ended JobState.interrupted t = absurd cc
