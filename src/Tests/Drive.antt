-- ===== src/Tests/Drive.antt =====
-- Runs of the model of daemon/drive/udev.go.
use disc_echo_dd.Common.{◌≡◌, refl, true, false, [], ◌∷◌, some, Text, codes}
use disc_echo_dd.Drive.{
  Uevent, parse_uevent, read_lines, empty_uevent, is_optical_media_change, has_media,
}
use disc_echo_dd.Drive.Printed.{Sendable, Agrees, printed, parse_uevent-printed}

abbrev node : Text × Text
node = (codes "DEVNAME", codes "/dev/sr0")

plain : Sendable node
plain = record {
  key_plain = (refl, (refl, (refl, (refl, (refl, (refl, (refl, tt)))))));
  key_line = (refl, (refl, (refl, (refl, (refl, (refl, (refl, tt)))))));
  key_text = (refl, (refl, (refl, (refl, (refl, (refl, (refl, tt)))))));
  value_line = (refl, (refl, (refl, (refl, (refl, (refl, (refl, (refl, tt))))))));
  value_text = (refl, (refl, (refl, (refl, (refl, (refl, (refl, (refl, tt))))))));
}

inserted :
    is_optical_media_change (
      read_lines
        (codes "DISK_MEDIA_CHANGE=1" ∷ codes "ID_CDROM=1" ∷ codes "SUBSYSTEM=block" ∷ [])
        empty_uevent)
    ≡ true
unfolding is_optical_media_change read_lines
inserted = refl

node_is_short :
    (read_lines (codes "change@/devices" ∷ codes "DEVNAME=/dev/sr0" ∷ []) empty_uevent).dev_name
    ≡ codes "sr0"
unfolding read_lines
node_is_short = refl

no_media : has_media empty_uevent ≡ false
unfolding has_media
no_media = refl

parse_uevent-printed_example :
    (e : Uevent) × (parse_uevent (printed (node ∷ [])) ≡ some e)
    × (e.properties ≡ node ∷ [])
    × Agrees e
parse_uevent-printed_example = parse_uevent-printed node [] (plain, tt)
