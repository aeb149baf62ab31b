-- ===== src/Pipelines/DriveRole.antt =====
-- daemon/pipelines/drive_role.go: which drive a disc belongs in.
use disc_echo_dd.Common.{
  ◌≡◌, refl, ◌||◌, Option, none, some, Text, codes, contains, to_upper, if◌then◌else◌, ◌++◌,
}
use disc_echo_dd.State.Types.{DiscType}
use disc_echo_dd.State.DriveError.{drive_error_tip, wrong_drive_tip}

-- The empty role, no preference, is a `none` where the functions below return one.
pub data DriveRole : Type 0 where
  cd_ps1 bd_console : DriveRole

unfoldable pub preferred_drive_role : DiscType → Option DriveRole
preferred_drive_role DiscType.audio_cd = some cd_ps1
preferred_drive_role DiscType.psx = some cd_ps1
preferred_drive_role DiscType.sat = some cd_ps1
preferred_drive_role DiscType.dc = some cd_ps1
preferred_drive_role DiscType.segacd = some cd_ps1
preferred_drive_role DiscType.three_do = some cd_ps1
preferred_drive_role DiscType.pcfx = some cd_ps1
preferred_drive_role DiscType.jaguar_cd = some cd_ps1
preferred_drive_role DiscType.cdi = some cd_ps1
preferred_drive_role DiscType.pcecd = some cd_ps1
preferred_drive_role DiscType.neocd = some cd_ps1
preferred_drive_role DiscType.cd32 = some cd_ps1
preferred_drive_role DiscType.fmtowns = some cd_ps1
preferred_drive_role DiscType.pippin = some cd_ps1
preferred_drive_role DiscType.vcd = some cd_ps1
preferred_drive_role DiscType.bdmv = some bd_console
preferred_drive_role DiscType.uhd = some bd_console
preferred_drive_role DiscType.ps2 = some bd_console
preferred_drive_role DiscType.xbox = some bd_console
preferred_drive_role DiscType.xbox360 = some bd_console
preferred_drive_role DiscType.wii = some bd_console
preferred_drive_role DiscType.wiiu = some bd_console
preferred_drive_role DiscType.ps3 = some bd_console
preferred_drive_role _ = none

unfoldable pub drive_role_for_model : Text → Option DriveRole
unfolding to_upper contains
drive_role_for_model model =
    let upper = to_upper model in
    if contains upper (codes "PLEXTOR")
    then some cd_ps1
    else if contains upper (codes "ASUS")
        || contains upper (codes "BW-16D1HT")
        || contains upper (codes "PIONEER")
        || contains upper (codes "UJ260")
        || contains upper (codes "UJ-260")
    then some bd_console
    else none

unfoldable pub drive_role_label : DriveRole → Text
drive_role_label cd_ps1 = codes "Audio CD / PS1"
drive_role_label bd_console = codes "Blu-ray / console"

abbrev pub mismatch_text : DriveRole → DriveRole → Text
mismatch_text want have =
    codes "wrong drive: "
    ++ drive_role_label want
    ++ codes " disc in a "
    ++ drive_role_label have
    ++ codes " drive -- this disc reads best on the "
    ++ drive_role_label want
    ++ codes " drive."

-- What a wanted and a present role give.
unfoldable pub mismatch : Option DriveRole → Option DriveRole → Option Text
unfolding drive_role_label
mismatch (some cd_ps1) (some bd_console) = some (mismatch_text cd_ps1 bd_console)
mismatch (some bd_console) (some cd_ps1) = some (mismatch_text bd_console cd_ps1)
mismatch _ _ = none

-- `none` is `ok == false`.
unfoldable pub wrong_drive_message : DiscType → Text → Option Text
unfolding mismatch preferred_drive_role drive_role_for_model
wrong_drive_message t model = mismatch (preferred_drive_role t) (drive_role_for_model model)

tip_of_mismatch :
    (want have : DriveRole) → drive_error_tip (mismatch_text want have) ≡ wrong_drive_tip
unfolding drive_error_tip drive_role_label
tip_of_mismatch cd_ps1 cd_ps1 = refl
tip_of_mismatch cd_ps1 bd_console = refl
tip_of_mismatch bd_console cd_ps1 = refl
tip_of_mismatch bd_console bd_console = refl

mismatch_tip :
    (want have : Option DriveRole) (msg : Text)
    → mismatch want have ≡ some msg
    → drive_error_tip msg ≡ wrong_drive_tip
unfolding mismatch
mismatch_tip (some cd_ps1) (some bd_console) msg e =
    let same : mismatch_text cd_ps1 bd_console ≡ msg = cc (e) in
    rw same at (tip_of_mismatch cd_ps1 bd_console)
mismatch_tip (some bd_console) (some cd_ps1) msg e =
    let same : mismatch_text bd_console cd_ps1 ≡ msg = cc (e) in
    rw same at (tip_of_mismatch bd_console cd_ps1)
mismatch_tip none have msg e = absurd cc
mismatch_tip (some cd_ps1) none msg e = absurd cc
mismatch_tip (some bd_console) none msg e = absurd cc
mismatch_tip (some cd_ps1) (some cd_ps1) msg e = absurd cc
mismatch_tip (some bd_console) (some bd_console) msg e = absurd cc

-- Every message of a disc in the wrong drive has the tip that the disc was ejected.
pub wrong_drive_tipped :
    (t : DiscType) (model msg : Text)
    → wrong_drive_message t model ≡ some msg
    → drive_error_tip msg ≡ wrong_drive_tip
unfolding wrong_drive_message
wrong_drive_tipped t model msg e =
    mismatch_tip (preferred_drive_role t) (drive_role_for_model model) msg e
