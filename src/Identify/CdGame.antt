-- ===== src/Identify/CdGame.antt =====
-- daemon/identify/cdgameprobe.go: the consoles whose discs carry a magic text on the data track.
pub mod Types
use disc_echo_dd.Common.{
  ℕ, zero, suc, ◌+◌, ◌-◌, Bool, ◌&&◌, ◌||◌, List, [], ◌∷◌, Option, none, some, Text, codes, text_eq,
  contains, length, if◌then◌else◌, leb,
}
use disc_echo_dd.State.Types.{DiscType}

-- `exact_at` is the offset of the magic, or none for a scan.
pub record CdGameMagic : Type 0 where
  pub dt : DiscType
  pub magic : Text
  pub exact_at : Option ℕ

abbrev pub cd_game_magic_table : List CdGameMagic
cd_game_magic_table =
    record { dt = DiscType.segacd; magic = codes "SEGADISCSYSTEM"; exact_at = some 0 }
    ∷ record { dt = DiscType.segacd; magic = codes "SEGABOOTDISC"; exact_at = some 0 }
    ∷ record { dt = DiscType.segacd; magic = codes "SEGADISCSYSTEM"; exact_at = some 16 }
    ∷ record { dt = DiscType.segacd; magic = codes "SEGABOOTDISC"; exact_at = some 16 }
    ∷ record {
      dt = DiscType.three_do;
      magic = 1 ∷ 90 ∷ 90 ∷ 90 ∷ 90 ∷ 90 ∷ 1 ∷ [];
      exact_at = some 0;
    }
    ∷ record { dt = DiscType.pcfx; magic = codes "PC-FX:Hu_CD-ROM"; exact_at = none }
    ∷ record {
      dt = DiscType.jaguar_cd;
      magic = codes "ATARI APPROVED DATA HEADER ATRI";
      exact_at = none;
    }
    ∷ []

-- `buf[n:]` and `buf[:n]`, for at most as many bytes as the buffer has.
abbrev pub skip_bytes : ℕ → Text → Text
skip_bytes zero s = s
skip_bytes (suc n) [] = []
skip_bytes (suc n) (c ∷ s) = skip_bytes n s

abbrev pub first_bytes : ℕ → Text → Text
first_bytes zero s = []
first_bytes (suc n) [] = []
first_bytes (suc n) (c ∷ s) = c ∷ first_bytes n s

abbrev pub slice : ℕ → ℕ → Text → Text
slice a b s = first_bytes (b - a) (skip_bytes a s)

unfoldable pub has_magic : Text → CdGameMagic → Bool
unfolding text_eq contains
has_magic buf m = elim m.exact_at [
  | some at ↦
      (let end = at + length m.magic in leb end (length buf) && text_eq (slice at end buf) m.magic)
  | none ↦ contains buf m.magic
]

unfoldable pub match_from : List CdGameMagic → Text → Option DiscType
unfolding has_magic
match_from [] buf = none
match_from (m ∷ ms) buf =
    let rest = match_from ms buf in if has_magic buf m then some m.dt else rest

unfoldable pub match_magic_table : Text → Option DiscType
unfolding match_from
match_magic_table buf = match_from cd_game_magic_table buf

-- The volume descriptor stands at 0x8000.
unfoldable pub probe_cdi : Text → Option DiscType
unfolding text_eq contains
probe_cdi buf =
    let std = slice 32769 32774 buf in
    let sys = slice 32776 32808 buf in
    if leb 32808 (length buf)
      && (text_eq std (codes "CD-I ")
          || (contains sys (codes "CD-RTOS") || contains sys (codes "CD-I")))
    then some DiscType.cdi
    else none

-- `content` is what can be read from the data track.
unfoldable pub probe_cd_game_reader : Text → Option DiscType
unfolding match_magic_table probe_cdi
probe_cd_game_reader content =
    let buf = first_bytes 34816 content in
    elim (match_magic_table buf) [ some dt ↦ some dt | none ↦ probe_cdi buf ]
