-- ===== src/Identify/Classify/Movie.antt =====
-- Which discs daemon/identify/classify.go takes for a DVD.
use disc_echo_dd.Common.{
  ◌≡◌, ◌≢◌, refl, ◌∙◌, ap, sym, ◌↔◌, Bool, true, false, ◌&&◌, List, [], Option, none, some, Text,
  codes, Result, ok, err, if◌then◌else◌,
}
use disc_echo_dd.State.Types.{DiscType}
use disc_echo_dd.Identify.CdGame.{probe_cd_game_reader}
use disc_echo_dd.Identify.CdGame.Types.{IsCdGame, probe-IsCdGame}
use disc_echo_dd.Identify.Classify.{
  BdInfo, SystemCnf, Probes, has_path, seen, files_of, refine_blu_ray, refine_system_cnf,
  refine_sectors, refine_listing, refine_disc_type,
}

abbrev Other : DiscType → Type 0
Other t = t ≢ DiscType.dvd

-- A Boolean that tells the DVD apart.
abbrev is_dvd : DiscType → Bool
is_dvd DiscType.dvd = true
is_dvd _ = false

other : (t : DiscType) → is_dvd t ≡ false → Other t
other t f e = let apart : true ≡ false = sym (ap is_dvd e) ∙ f in absurd cc

if-Other : (b : Bool) (x y : DiscType) → Other x → Other y → Other (if b then x else y)
if-Other true x y p q = p
if-Other false x y p q = q

blu_ray-Other : (o : Option (Result (Option BdInfo))) → Other (refine_blu_ray o)
unfolding refine_blu_ray
blu_ray-Other none = other DiscType.bdmv refl
blu_ray-Other (some (err e)) = other DiscType.bdmv refl
blu_ray-Other (some (ok none)) = other DiscType.bdmv refl
blu_ray-Other (some (ok (some info))) =
    if-Other info.has_aacs2 DiscType.uhd DiscType.bdmv (other DiscType.uhd refl)
      (other DiscType.bdmv refl)

system_cnf-Other : (o : Option (Result (Option SystemCnf))) → Other (refine_system_cnf o)
unfolding refine_system_cnf
system_cnf-Other none = other DiscType.data_disc refl
system_cnf-Other (some (err e)) = other DiscType.data_disc refl
system_cnf-Other (some (ok none)) = other DiscType.data_disc refl
system_cnf-Other (some (ok (some info))) =
    if-Other info.is_ps2 DiscType.ps2 DiscType.psx (other DiscType.ps2 refl)
      (other DiscType.psx refl)

game-Other : (t : DiscType) → IsCdGame t → Other t
game-Other _ IsCdGame.segacd = other DiscType.segacd refl
game-Other _ IsCdGame.three_do = other DiscType.three_do refl
game-Other _ IsCdGame.pcfx = other DiscType.pcfx refl
game-Other _ IsCdGame.jaguar_cd = other DiscType.jaguar_cd refl
game-Other _ IsCdGame.cdi = other DiscType.cdi refl

-- The probes of a device whose data track has the content.
abbrev pub on_track : Text → Probes → Probes
on_track content p = record p { cd_game = some (probe_cd_game_reader content) }

sectors-Other :
    (content : Text) (files : List Text) (p : Probes)
    → Other (refine_sectors files (on_track content p))
unfolding refine_sectors
sectors-Other content files p =
    if-Other (has_path files (codes "/default.xbe") && seen p.xbox) DiscType.xbox _
      (other DiscType.xbox refl)
      (if-Other (seen p.saturn) DiscType.sat _ (other DiscType.sat refl) (
        if-Other (seen p.dc) DiscType.dc _ (other DiscType.dc refl)
          (game (probe_cd_game_reader content) (probe-IsCdGame content))))
  where
    last : Other (if seen p.xgd_decoy then DiscType.xbox360 else DiscType.data_disc)
    last =
        if-Other (seen p.xgd_decoy) DiscType.xbox360 DiscType.data_disc
          (other DiscType.xbox360 refl) (other DiscType.data_disc refl)

    game :
        (o : Option DiscType)
        → ((t : DiscType) → o ≡ some t → IsCdGame t)
        → Other (elim o [
          | some t ↦ t
          | none ↦ if seen p.xgd_decoy then DiscType.xbox360 else DiscType.data_disc
        ])
    game none h = last
    game (some t) h = game-Other t (h t refl)

-- A choice between the PS3, a type that is not the DVD and what the listing gives.
chosen :
    (a b : Bool) (x y : DiscType)
    → Other x
    → ((if a then DiscType.ps3 else if b then x else y) ≡ DiscType.dvd)
      ↔ ((a ≡ false) × (b ≡ false) × (y ≡ DiscType.dvd))
chosen true b x y o = (λ e. absurd (other DiscType.ps3 refl e), λ (a, b, e). absurd cc)
chosen false true x y o = (λ e. absurd (o e), λ (a, b, e). absurd cc)
chosen false false x y o = (λ e. (refl, refl, e), λ (a, b, e). e)

listed :
    (a v : Bool) (x : DiscType)
    → (v ≡ false → Other x)
    → ((if a then DiscType.xbox360 else if v then DiscType.dvd else x) ≡ DiscType.dvd)
      ↔ ((a ≡ false) × (v ≡ true))
listed true v x o = (λ e. absurd (other DiscType.xbox360 refl e), λ (a, h). absurd cc)
listed false true x o = (λ e. (refl, refl), λ h. refl)
listed false false x o = (λ e. absurd (o refl e), λ (a, h). absurd cc)

by_listing :
    (content : Text) (p : Probes) (o : Option (Result (List Text)))
    → (elim o as (λ x. DiscType) [
      | none ↦ DiscType.data_disc
      | some r ↦ refine_listing (files_of o) (on_track content p)
    ]
        ≡ DiscType.dvd)
      ↔ ((has_path (files_of o) (codes "/_SYSTEMU") ≡ false)
          × (has_path (files_of o) (codes "/VIDEO_TS") ≡ true))
unfolding refine_listing
by_listing content p none =
    (λ e. absurd (other DiscType.data_disc refl e), λ (s, v). absurd (no_file v))
  where
    no_file : has_path [] (codes "/VIDEO_TS") ≡ true → ⊥
    no_file v = absurd cc
by_listing content p (some r) =
    let files = files_of (some r) in
    listed (has_path files (codes "/_SYSTEMU")) (has_path files (codes "/VIDEO_TS")) _ (λ f.
      if-Other _ DiscType.vcd _ (other DiscType.vcd refl) (
        if-Other (has_path files (codes "/BDMV/index.bdmv")) (refine_blu_ray p.bd) _
          (blu_ray-Other p.bd)
          (if-Other (has_path files (codes "/SYSTEM.CNF")) (refine_system_cnf p.sys_cnf) _
            (system_cnf-Other p.sys_cnf) (sectors-Other content files p))))

-- A data disc is taken for a DVD exactly where its listing has VIDEO_TS, but neither the marker of
-- Xbox 360 nor that of PS3, and udev does not report a Blu-ray: no failure of a probe and no
-- content of the data track changes that.
pub dvd_exactly :
    (content : Text) (p : Probes)
    → (refine_disc_type DiscType.data_disc (on_track content p) ≡ DiscType.dvd) ↔ (
        (has_path (files_of p.fs) (codes "/PS3_GAME/PARAM.SFO") ≡ false)
        × (p.blu_ray ≡ false)
        × (has_path (files_of p.fs) (codes "/_SYSTEMU") ≡ false)
        × (has_path (files_of p.fs) (codes "/VIDEO_TS") ≡ true))
unfolding refine_disc_type refine_listing
dvd_exactly content p =
    let top =
      chosen (has_path (files_of p.fs) (codes "/PS3_GAME/PARAM.SFO")) p.blu_ray
        (refine_blu_ray p.bd) _ (blu_ray-Other p.bd) in
    let below = by_listing content p p.fs in
    (
      (λ e. let (a, b, y) = top.0 e in let (s, v) = below.0 y in (a, b, s, v)),
      (λ (a, b, s, v). top.1 (a, b, below.1 (s, v))),
    )
