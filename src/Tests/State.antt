-- ===== src/Tests/State.antt =====
-- The derived state of a disc, and the statements of the store, on a small database.
use disc_echo_dd.Common.{◌≡◌, sym, ◌∙◌, false, ◌&&◌, [], ◌∷◌, codes, All, Memᴰ}
use disc_echo_dd.State.Types.{DiscType, DriveState, JobKind, JobState, Job, JobStep, is_active}
use disc_echo_dd.State.Rows.{Db}
use disc_echo_dd.State.Lifecycle.{derive_lifecycle_state}
use disc_echo_dd.State.Lifecycle.Meaning.{Lifecycle, derive-Lifecycle, derive_order_independent}
use disc_echo_dd.State.Store.Recovery.{mark_interrupted_jobs, is_running_step, of_interrupted}
use disc_echo_dd.State.Store.Recovery.Startup.{mark_interrupted_jobs-settled}
use disc_echo_dd.Tests.Samples.{job, drive, db}

abbrev done_rip : Job
done_rip = job (codes "r") JobKind.rip JobState.done [] 5

abbrev old_rip : Job
old_rip = job (codes "o") JobKind.rip JobState.failed [] 4

abbrev scan : Job
scan = job (codes "s") JobKind.scan JobState.done [] 9

abbrev with_drive : DriveState → Db
with_drive st = record db { drives = drive st ∷ [] }

derive-Lifecycle_example :
    Lifecycle DiscType.dvd (done_rip ∷ []) (derive_lifecycle_state DiscType.dvd (done_rip ∷ []))
derive-Lifecycle_example = derive-Lifecycle DiscType.dvd (done_rip ∷ [])

derive_order_independent_example :
    derive_lifecycle_state DiscType.dvd (done_rip ∷ [])
    ≡ derive_lifecycle_state DiscType.dvd (done_rip ∷ done_rip ∷ [])
derive_order_independent_example =
    derive_order_independent DiscType.dvd (done_rip ∷ []) (done_rip ∷ done_rip ∷ [])
      (λ x m. Memᴰ.tail m) (λ x m. only x m) (λ x y m n e. same x m ∙ sym (same y n))
  where
    same : (x : Job) → Memᴰ x (done_rip ∷ []) → x ≡ done_rip
    same x (Memᴰ.head e) = e
    same x (Memᴰ.tail m) = elim m [ ]

    only : (x : Job) → Memᴰ x (done_rip ∷ done_rip ∷ []) → Memᴰ x (done_rip ∷ [])
    only x (Memᴰ.head e) = Memᴰ.head e
    only x (Memᴰ.tail m) = m

mark_interrupted_jobs-settled_example :
    let db' = (mark_interrupted_jobs 9 db).1 in
    All (λ (j : Job). is_active j.state ≡ false) db'.jobs
    × All
        (λ (s : JobStep). (is_running_step s.state && of_interrupted db'.jobs s) ≡ false)
        db'.steps
mark_interrupted_jobs-settled_example = mark_interrupted_jobs-settled 9 db
