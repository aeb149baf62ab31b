-- ===== src/State/Store/Drives.antt =====
-- daemon/state/store.go: the statements on `drives`, among them the claim of a drive for identify.
pub mod Claim
use disc_echo_dd.Common.{
  ℕ, Bool, true, false, ◌&&◌, List, [], ◌∷◌, Option, none, some, Text, text_eq, if◌then◌else◌,
  Result, ltb,
}
use disc_echo_dd.State.Types.{DriveState}
use disc_echo_dd.State.Rows.{Db, Drive}
use disc_echo_dd.State.Store.Table.{select, update_where, count_where, affected}
use disc_echo_dd.State.Store.Jobs.{row_result}

abbrev pub has_drive_id : Text → Drive → Bool
has_drive_id id d = text_eq d.id id

unfoldable pub get_drive : Db → Text → Result Drive
get_drive db id = row_result (select (has_drive_id id) db.drives)

abbrev pub update_drives : (Drive → Bool) → (Drive → Drive) → Db → Db
update_drives p f db = record db { drives = update_where p f db.drives }

abbrev pub is_identifying : DriveState → Bool
is_identifying DriveState.identifying = true
is_identifying _ = false

-- state IN ('idle','error')
abbrev pub is_claimable : DriveState → Bool
is_claimable DriveState.idle = true
is_claimable DriveState.error = true
is_claimable _ = false

unfoldable pub reset_identifying_drives : ℕ → Db → ℕ × Db
reset_identifying_drives now db = (
  count_where (λ (d : Drive). is_identifying d.state) db.drives,
  update_drives (λ d. is_identifying d.state)
      (λ d. record d { state = DriveState.idle; last_seen_at = now }) db,
)

-- A drive that becomes idle forgets its last error.
unfoldable pub with_drive_state : DriveState → ℕ → Drive → Drive
with_drive_state DriveState.idle now d = record d {
  state = DriveState.idle;
  last_seen_at = now;
  last_error = [];
}
with_drive_state st now d = record d { state = st; last_seen_at = now }

unfoldable pub update_drive_state : ℕ → Text → DriveState → Db → Result (Unit {0}) × Db
unfolding with_drive_state
update_drive_state now id st db = (
  affected (count_where (has_drive_id id) db.drives),
  update_drives (has_drive_id id) (with_drive_state st now) db,
)

unfoldable pub update_drive_last_error : Text → Text → Db → Result (Unit {0}) × Db
update_drive_last_error id msg db = (
  affected (count_where (has_drive_id id) db.drives),
  update_drives (has_drive_id id) (λ d. record d { last_error = msg }) db,
)

unfoldable pub claim_drive_for_identify : ℕ → Text → Db → Bool × Db
claim_drive_for_identify now id db = (
  ltb 0 (count_where (λ d. has_drive_id id d && is_claimable d.state) db.drives),
  update_drives (λ d. has_drive_id id d && is_claimable d.state)
      (λ d. record d { state = DriveState.identifying; last_seen_at = now }) db,
)

unfoldable pub release_drive_from_identify : Text → DriveState → Db → Bool × Db
release_drive_from_identify id to db = (
  ltb 0 (count_where (λ d. has_drive_id id d && is_identifying d.state) db.drives),
  update_drives (λ d. has_drive_id id d && is_identifying d.state) (λ d. record d { state = to })
      db,
)
