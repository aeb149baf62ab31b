-- ===== src/Identify/CdGame/Types.antt =====
-- The types of disc that daemon/identify/cdgameprobe.go can answer.
use disc_echo_dd.Common.{
  ◌≡◌, subst, All, inl, inr, Bool, true, false, List, [], ◌∷◌, Option, none, some, Text,
  if◌then◌else◌, Bool-cases,
}
use disc_echo_dd.State.Types.{DiscType}
use disc_echo_dd.Identify.CdGame.{
  CdGameMagic, cd_game_magic_table, has_magic, match_from, match_magic_table, probe_cdi,
  probe_cd_game_reader, first_bytes,
}

pub data IsCdGame : DiscType → Type 0 where
  segacd : IsCdGame DiscType.segacd
  three_do : IsCdGame DiscType.three_do
  pcfx : IsCdGame DiscType.pcfx
  jaguar_cd : IsCdGame DiscType.jaguar_cd
  cdi : IsCdGame DiscType.cdi

abbrev Answers : Option DiscType → Type 0
Answers none = Unit
Answers (some dt) = IsCdGame dt

match_from-Answers :
    (ms : List CdGameMagic) (buf : Text) → All (λ m. IsCdGame m.dt) ms → Answers (match_from ms buf)
unfolding match_from
match_from-Answers [] buf a = tt
match_from-Answers (m ∷ ms) buf (g, a) = elim (Bool-cases (has_magic buf m)) [
  | inl t ↦ rw t g
  | inr f ↦ rw f (match_from-Answers ms buf a)
]

table-Answers : (buf : Text) → Answers (match_magic_table buf)
unfolding match_magic_table
table-Answers buf = match_from-Answers cd_game_magic_table buf (
  IsCdGame.segacd,
  (
    IsCdGame.segacd,
    (
      IsCdGame.segacd,
      (IsCdGame.segacd, (IsCdGame.three_do, (IsCdGame.pcfx, (IsCdGame.jaguar_cd, tt)))),
    ),
  ),
)

if-Answers : (b : Bool) → Answers (if b then some DiscType.cdi else none)
if-Answers true = IsCdGame.cdi
if-Answers false = tt

probe_cdi-Answers : (buf : Text) → Answers (probe_cdi buf)
unfolding probe_cdi
probe_cdi-Answers buf = if-Answers _

-- The prober answers one of its five types or nothing.
pub probe-IsCdGame :
    (content : Text) (dt : DiscType) → probe_cd_game_reader content ≡ some dt → IsCdGame dt
unfolding probe_cd_game_reader
probe-IsCdGame content dt e = subst Answers e (all content)
  where
    pick :
        (o : Option DiscType) (buf : Text)
        → Answers o
        → Answers (elim o [ some d ↦ some d | none ↦ probe_cdi buf ])
    pick none buf a = probe_cdi-Answers buf
    pick (some d) buf a = a

    all : (content : Text) → Answers (probe_cd_game_reader content)
    all content =
        pick (match_magic_table (first_bytes 34816 content)) (first_bytes 34816 content)
          (table-Answers (first_bytes 34816 content))
