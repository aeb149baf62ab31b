-- ===== src/Identify/Classify.antt =====
-- daemon/identify/classify.go: RefineDiscType, which finds the type of a data disc from the
-- answers of the probers, and Classify, which runs it behind the retries.
pub mod Movie
pub mod Spun
use disc_echo_dd.Common.{
  ℕ, Bool, true, false, ◌&&◌, ◌||◌, List, [], Option, none, some, Text, codes, text_eq, any_of,
  if◌then◌else◌, GoError, Result, ok, err, wrapped,
}
use disc_echo_dd.State.Types.{DiscType, disc_type_eq}
use disc_echo_dd.Identify.Watcher.{classify_from_cd_info}
use disc_echo_dd.Identify.Retry.{Attempt, run_cd_info, list_retrying, probe_retrying}

pub record BdInfo : Type 0 where
  pub volume_id : Text
  pub profile : Text
  pub has_aacs2 : Bool
  pub aacs_encrypted : Bool
  pub disc_name : Text

pub record SystemCnf : Type 0 where
  pub boot_code : Text
  pub is_ps2 : Bool

-- The answers of the probers on the device, each none where the prober is not configured. Of the
-- information that the Xbox and Saturn probers return, the answer says whether there is any.
pub record Probes : Type 0 where
  pub fs : Option (Result (List Text))
  pub blu_ray : Bool
  pub bd : Option (Result (Option BdInfo))
  pub sys_cnf : Option (Result (Option SystemCnf))
  pub saturn : Option (Result Bool)
  pub xbox : Option (Result Bool)
  pub dc : Option (Result Bool)
  pub cd_game : Option (Option DiscType)
  pub xgd_decoy : Option (Result Bool)

unfoldable pub has_path : List Text → Text → Bool
unfolding text_eq
has_path haystack needle = any_of (λ h. text_eq h needle) haystack

-- A prober that is missing or fails has not seen its disc.
abbrev pub seen : Option (Result Bool) → Bool
seen none = false
seen (some (err e)) = false
seen (some (ok b)) = b

abbrev pub files_of : Option (Result (List Text)) → List Text
files_of none = []
files_of (some (err e)) = []
files_of (some (ok files)) = files

-- The disc is a Blu-ray: bd_info tells the UHD ones.
unfoldable pub refine_blu_ray : Option (Result (Option BdInfo)) → DiscType
refine_blu_ray (some (ok (some info))) = if info.has_aacs2 then DiscType.uhd else DiscType.bdmv
refine_blu_ray _ = DiscType.bdmv

-- The listing has /SYSTEM.CNF.
unfoldable pub refine_system_cnf : Option (Result (Option SystemCnf)) → DiscType
refine_system_cnf (some (ok (some info))) = if info.is_ps2 then DiscType.ps2 else DiscType.psx
refine_system_cnf _ = DiscType.data_disc

-- The probers of sectors, from Xbox's on.
unfoldable pub refine_sectors : List Text → Probes → DiscType
unfolding has_path
refine_sectors files p =
    let last = if seen p.xgd_decoy then DiscType.xbox360 else DiscType.data_disc in
    if has_path files (codes "/default.xbe") && seen p.xbox
    then DiscType.xbox
    else if seen p.saturn
    then DiscType.sat
    else if seen p.dc
    then DiscType.dc
    else elim p.cd_game [ some o ↦ elim o [ some dt ↦ dt | none ↦ last ] | none ↦ last ]

-- The markers of the listing, from Xbox 360's on.
unfoldable pub refine_listing : List Text → Probes → DiscType
unfolding has_path refine_blu_ray refine_system_cnf refine_sectors
refine_listing files p =
    if has_path files (codes "/_SYSTEMU")
    then DiscType.xbox360
    else if has_path files (codes "/VIDEO_TS")
    then DiscType.dvd
    else if has_path files (codes "/MPEGAV")
        || has_path files (codes "/VCD")
        || has_path files (codes "/MPEG2")
        || has_path files (codes "/SVCD")
    then DiscType.vcd
    else if has_path files (codes "/BDMV/index.bdmv")
    then refine_blu_ray p.bd
    else if has_path files (codes "/SYSTEM.CNF")
    then refine_system_cnf p.sys_cnf
    else refine_sectors files p

unfoldable pub refine_disc_type : DiscType → Probes → DiscType
unfolding disc_type_eq has_path refine_blu_ray refine_listing
refine_disc_type base p =
    let files = files_of p.fs in
    if disc_type_eq base DiscType.audio_cd
    then DiscType.audio_cd
    else if has_path files (codes "/PS3_GAME/PARAM.SFO")
    then DiscType.ps3
    else if p.blu_ray
    then refine_blu_ray p.bd
    else elim p.fs [ none ↦ base | some r ↦ refine_listing files p ]

-- The classifier on a device: its probers, and what the turns of the retry loops meet. Where `fs` or
-- `sys_cnf` is none, the classifier has no such prober, whatever the field of `probes` says.
pub record MultiProbeClassifier : Type 0 where
  pub probes : Probes
  pub fs : Option (ℕ → Attempt (List Text))
  pub sys_cnf : Option (ℕ → Attempt (Option SystemCnf))
  pub runner : ℕ → Attempt Text
  pub backoff : List ℕ

abbrev pub settled : MultiProbeClassifier → Probes
settled c = record c.probes {
  fs = elim c.fs [ none ↦ none | some at ↦ some (list_retrying c.backoff at) ];
  sys_cnf = elim c.sys_cnf [ none ↦ none | some at ↦ some (probe_retrying c.backoff at) ];
}

abbrev pub refined : MultiProbeClassifier → Result DiscType → Result DiscType
refined c (err e) = err e
refined c (ok base) = ok (refine_disc_type base (settled c))

abbrev pub classify_output : MultiProbeClassifier → Result Text → Result DiscType
classify_output c (err e) = err (wrapped (codes "cd-info") e)
classify_output c (ok out) = refined c (classify_from_cd_info out)

unfoldable pub classify : MultiProbeClassifier → Result DiscType
unfolding run_cd_info list_retrying probe_retrying classify_from_cd_info refine_disc_type
classify c = classify_output c (run_cd_info c.backoff c.runner)
