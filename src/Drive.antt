-- ===== src/Drive.antt =====
-- daemon/drive/udev.go: the events of udev that announce a disc.
pub mod Printed
use disc_echo_dd.Common.{
  ℕ, Bool, true, false, not, ◌&&◌, ◌||◌, List, [], ◌∷◌, Option, none, some, Text, codes, text_eq,
  is_empty, if◌then◌else◌, ◌==◌, any_of, map, split_on, has_prefix,
}

-- The map of properties is the list of what was stored, the latest first.
pub record Uevent : Type 0 where
  pub action : Text
  pub dev_path : Text
  pub subsystem : Text
  pub dev_name : Text
  pub dev_type : Text
  pub properties : List (Text × Text)

abbrev pub empty_uevent : Uevent
empty_uevent = record {
  action = [];
  dev_path = [];
  subsystem = [];
  dev_name = [];
  dev_type = [];
  properties = [];
}

-- `m[k]`, which is empty for a missing key.
unfoldable pub property : Text → List (Text × Text) → Text
unfolding text_eq
property k [] = []
property k ((l, v) ∷ m) = if text_eq l k then v else property k m

-- strings.Cut at "=".
unfoldable pub cut_key : Text → Text
cut_key [] = []
cut_key (c ∷ s) = if c == b'=' then [] else c ∷ cut_key s

unfoldable pub cut_value : Text → Text
cut_value [] = []
cut_value (c ∷ s) = if c == b'=' then s else cut_value s

abbrev without : Text → Text → Text
without [] s = s
without (c ∷ p) [] = []
without (c ∷ p) (d ∷ s) = without p s

-- strings.TrimPrefix(v, "/dev/")
unfoldable pub trim_dev : Text → Text
unfolding has_prefix
trim_dev v = if has_prefix v (codes "/dev/") then without (codes "/dev/") v else v

unfoldable pub set_property : Text → Text → Uevent → Uevent
unfolding text_eq trim_dev
set_property k v e =
    let ev = record e { properties = (k, v) ∷ e.properties } in
    if text_eq k (codes "ACTION")
    then record ev { action = v }
    else if text_eq k (codes "DEVPATH")
    then record ev { dev_path = v }
    else if text_eq k (codes "SUBSYSTEM")
    then record ev { subsystem = v }
    else if text_eq k (codes "DEVNAME")
    then record ev { dev_name = trim_dev v }
    else if text_eq k (codes "DEVTYPE")
    then record ev { dev_type = v }
    else ev

abbrev pub has_equals : Text → Bool
has_equals = any_of (λ c. c == b'=')

unfoldable pub read_line : Text → Uevent → Uevent
unfolding cut_key cut_value set_property
read_line line ev =
    if is_empty line || not (has_equals line)
    then ev
    else set_property (cut_key line) (cut_value line) ev

unfoldable pub read_lines : List Text → Uevent → Uevent
unfolding read_line
read_lines [] ev = ev
read_lines (l ∷ ls) ev = read_lines ls (read_line l ev)

-- strings.ReplaceAll(payload, "\x00", "\n")
unfoldable pub normalise : Text → Text
normalise = map (λ c. if c == 0 then b'\n' else c)

unfoldable pub parse_uevent : Text → Option Uevent
unfolding normalise split_on read_lines
parse_uevent payload =
    if is_empty payload
    then none
    else some (read_lines (split_on b'\n' (normalise payload)) empty_uevent)

unfoldable pub is_optical_media_change : Uevent → Bool
unfolding text_eq property
is_optical_media_change e =
    if not (text_eq e.subsystem (codes "block"))
    then false
    else if not (text_eq (property (codes "ID_CDROM") e.properties) (codes "1"))
    then false
    else if not (text_eq (property (codes "DISK_MEDIA_CHANGE") e.properties) (codes "1"))
    then false
    else true

unfoldable pub has_media : Uevent → Bool
unfolding text_eq property
has_media e = text_eq (property (codes "ID_CDROM_MEDIA") e.properties) (codes "1")
