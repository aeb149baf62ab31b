-- ===== src/State/Store/Drives/Claim.antt =====
-- The claim of a drive for identify, daemon/state/store.go: a compare-and-swap on its state.
use disc_echo_dd.Common.{
  ℕ, ◌≡◌, refl, ap, Bool, false, ◌&&◌, List, [], ◌∷◌, Option, none, some, Text, arith, text_eq,
  text_eq_iff, if◌then◌else◌, ok, ltb, All, Bool-cases, inl, inr,
}
use disc_echo_dd.State.Types.{DriveState}
use disc_echo_dd.State.Rows.{Db, Drive}
use disc_echo_dd.State.Store.Table.{select, update_row, count_where, select-update_where}
use disc_echo_dd.State.Store.Jobs.{row_result}
use disc_echo_dd.State.Store.Drives.{
  has_drive_id, get_drive, update_drives, is_identifying, is_claimable, claim_drive_for_identify,
  release_drive_from_identify,
}

-- The primary key: no two rows of the table have one identifier.
abbrev pub DistinctIds : List Drive → Type 0
DistinctIds [] = Unit
DistinctIds (d ∷ ds) = All (λ (e : Drive). text_eq e.id d.id ≡ false) ds × DistinctIds ds

other_rows :
    (id : Text) (q : Drive → Bool) (ds : List Drive)
    → All (λ (e : Drive). text_eq e.id id ≡ false) ds
    → count_where (λ e. has_drive_id id e && q e) ds ≡ 0
unfolding count_where
other_rows id q [] h = refl
other_rows id q (e ∷ ds) (f, h) = rw f (other_rows id q ds h)

-- At most one row has the key, so the count of a guarded update tells of that row.
count_keyed :
    (id : Text) (q : Drive → Bool) (ds : List Drive) (d : Drive)
    → DistinctIds ds
    → select (has_drive_id id) ds ≡ some d
    → ltb 0 (count_where (λ e. has_drive_id id e && q e) ds) ≡ q d
unfolding select count_where
count_keyed id q [] d k e = absurd cc
count_keyed id q (x ∷ ds) d (kx, k) e = elim (Bool-cases (text_eq x.id id)) [
  | inl t ↦
      let found : some x ≡ some d = rw t at e in
      let same : x ≡ d = cc (found) in
      let rest = other_rows id q ds (rw ((text_eq_iff x.id id).0 t) at kx) in
      rw (← same) (ground arith)
  | inr f ↦ rw f (count_keyed id q ds d k (rw f at e))
]

select_of_drive :
    (db : Db) (id : Text) {d : Drive}
    → get_drive db id ≡ ok d
    → select (has_drive_id id) db.drives ≡ some d
unfolding get_drive
select_of_drive db id {d} e = go (select (has_drive_id id) db.drives) e
  where
    go : (o : Option Drive) → row_result o ≡ ok d → o ≡ some d
    go none h = absurd cc
    go (some k) h = cc

pub get-update_drives :
    (p : Drive → Bool) (f : Drive → Drive) (db : Db) (id : Text) (d : Drive)
    → ((x : Drive) → (f x).id ≡ x.id)
    → get_drive db id ≡ ok d
    → get_drive (update_drives p f db) id ≡ ok (update_row p f d)
unfolding get_drive
get-update_drives p f db id d keeps e =
    rw (select-update_where (has_drive_id id) p f db.drives (λ x. ap (λ i. text_eq i id) (keeps x)))
      (rw (select_of_drive db id e))

-- A claim succeeds exactly on an idle or failed drive, which it makes identifying; a drive in any
-- other state stays as it is.
pub claim_drive :
    (now : ℕ) (id : Text) (db : Db) (d : Drive)
    → DistinctIds db.drives
    → get_drive db id ≡ ok d
    → let (won, db') = claim_drive_for_identify now id db in
      (won ≡ is_claimable d.state)
      × (get_drive db' id
          ≡ ok (
              if text_eq d.id id && is_claimable d.state
              then record d { state = DriveState.identifying; last_seen_at = now }
              else d))
unfolding claim_drive_for_identify
claim_drive now id db d k e = (
  count_keyed id (λ r. is_claimable r.state) db.drives d k (select_of_drive db id e),
  get-update_drives (λ r. has_drive_id id r && is_claimable r.state)
      (λ r. record r { state = DriveState.identifying; last_seen_at = now }) db id d (λ x. refl) e,
)

-- A release moves exactly a drive that is still identifying: once another flow owns the drive, it
-- is left alone.
pub release_drive :
    (id : Text) (to : DriveState) (db : Db) (d : Drive)
    → DistinctIds db.drives
    → get_drive db id ≡ ok d
    → let (moved, db') = release_drive_from_identify id to db in
      (moved ≡ is_identifying d.state)
      × (get_drive db' id
          ≡ ok (if text_eq d.id id && is_identifying d.state then record d { state = to } else d))
unfolding release_drive_from_identify
release_drive id to db d k e = (
  count_keyed id (λ r. is_identifying r.state) db.drives d k (select_of_drive db id e),
  get-update_drives (λ r. has_drive_id id r && is_identifying r.state)
      (λ r. record r { state = to }) db id d (λ x. refl) e,
)

-- What the identify passes of any number of uevents do to the drives.
pub data IdentifyOp : Type 0 where
  claim : ℕ → Text → IdentifyOp
  release : Text → DriveState → IdentifyOp

unfoldable pub run_identify : List IdentifyOp → Db → Db
run_identify [] db = db
run_identify (claim now id ∷ ops) db = run_identify ops (claim_drive_for_identify now id db).1
run_identify (release id to ∷ ops) db = run_identify ops (release_drive_from_identify id to db).1
