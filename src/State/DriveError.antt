-- ===== src/State/DriveError.antt =====
-- daemon/state/driveerror.go: the tip that the interface shows under a drive's error.
use disc_echo_dd.Common.{
  Bool, ◌&&◌, ◌||◌, [], Text, codes, is_empty, has_prefix, contains, to_lower, if◌then◌else◌,
}

unfoldable pub is_makemkv_key_error : Text → Bool
unfolding contains
is_makemkv_key_error lower =
    contains lower (codes "evaluation")
    || contains lower (codes "trial period")
    || contains lower (codes "expired")
    || contains lower (codes "not registered")
    || contains lower (codes "register makemkv")

abbrev pub read_error_tip : Text
read_error_tip =
    codes
      "The drive couldn't read this disc. Two common, recoverable causes: a dirty or scratched surface (clean the disc and try again), or the drive spinning the disc down before cd-info finishes (eject and re-insert — the second spin-up is usually faster). One hardware cause: original Xbox game discs need a drive flashed with Kreon firmware (https://kreon.dev) — XGD media is unreadable on stock optical drives, so the disc won't be detected at all."

abbrev pub slow_read_tip : Text
slow_read_tip =
    codes
      "The drive is reading this disc very slowly — the identify step timed out before cd-info or isoinfo could finish. Try ejecting and re-inserting (often the second spin-up is faster), clean the disc surface, or try a different drive."

abbrev pub wrong_drive_tip : Text
wrong_drive_tip =
    codes
      "The disc was ejected automatically. Move it to the drive named in the message above and re-insert."

abbrev pub makemkv_key_tip : Text
makemkv_key_tip =
    codes
      "MakeMKV's beta key looks expired or missing. Open Settings → Integrations → MakeMKV and paste a fresh key from https://forum.makemkv.com/forum/viewtopic.php?t=1053, then retry the rip. The legacy HandBrake-engine DVD profiles (DVD-Movie, DVD-Movie + Extras, DVD-Series) rip via dvdbackup and don't need a MakeMKV key — they remain usable in the meantime."

-- The empty text where no tip applies.
unfoldable pub drive_error_tip : Text → Text
unfolding to_lower is_makemkv_key_error contains has_prefix
drive_error_tip msg =
    let lower = to_lower msg in
    if is_empty msg
    then []
    else if contains lower (codes "cd-info") && contains lower (codes "exit status")
    then read_error_tip
    else if contains lower (codes "deadline exceeded")
    then slow_read_tip
    else if has_prefix lower (codes "wrong drive:")
    then wrong_drive_tip
    else if contains lower (codes "makemkv") && is_makemkv_key_error lower
    then makemkv_key_tip
    else []
