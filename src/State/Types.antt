-- ===== src/State/Types.antt =====
-- daemon/state/types.go: the string enumerations as data types, and the step lists.
use disc_echo_dd.Common.{ℕ, Bool, true, false, List, [], ◌∷◌, Option, Text, codes, text_eq, ◌==◌}

pub data DiscType : Type 0 where
  audio_cd dvd bdmv uhd psx ps2 xbox xbox360 wii wiiu ps3 sat dc segacd three_do pcfx jaguar_cd
        cdi :
      DiscType
  pcecd neocd cd32 fmtowns pippin vcd data_disc : DiscType

-- The constants' texts.
unfoldable pub disc_type_text : DiscType → Text
disc_type_text audio_cd = codes "AUDIO_CD"
disc_type_text dvd = codes "DVD"
disc_type_text bdmv = codes "BDMV"
disc_type_text uhd = codes "UHD"
disc_type_text psx = codes "PSX"
disc_type_text ps2 = codes "PS2"
disc_type_text xbox = codes "XBOX"
disc_type_text xbox360 = codes "XBOX360"
disc_type_text wii = codes "WII"
disc_type_text wiiu = codes "WIIU"
disc_type_text ps3 = codes "PS3"
disc_type_text sat = codes "SAT"
disc_type_text dc = codes "DC"
disc_type_text segacd = codes "SEGACD"
disc_type_text three_do = codes "3DO"
disc_type_text pcfx = codes "PCFX"
disc_type_text jaguar_cd = codes "JAGCD"
disc_type_text cdi = codes "CDI"
disc_type_text pcecd = codes "PCECD"
disc_type_text neocd = codes "NEOCD"
disc_type_text cd32 = codes "CD32"
disc_type_text fmtowns = codes "FMTOWNS"
disc_type_text pippin = codes "PIPPIN"
disc_type_text vcd = codes "VCD"
disc_type_text data_disc = codes "DATA"

unfoldable pub has_transcode_half : DiscType → Bool
has_transcode_half dvd = true
has_transcode_half bdmv = true
has_transcode_half uhd = true
has_transcode_half _ = false

pub data DiscLifecycleState : Type 0 where
  awaiting_decision ripping awaiting_encode encoding : DiscLifecycleState
  done failed cancelled interrupted : DiscLifecycleState

pub data DriveState : Type 0 where
  idle identifying ripping ejecting error : DriveState

pub data JobState : Type 0 where
  queued identifying running paused done failed cancelled interrupted : JobState

unfoldable pub job_state_text : JobState → Text
job_state_text queued = codes "queued"
job_state_text identifying = codes "identifying"
job_state_text running = codes "running"
job_state_text paused = codes "paused"
job_state_text done = codes "done"
job_state_text failed = codes "failed"
job_state_text cancelled = codes "cancelled"
job_state_text interrupted = codes "interrupted"

pub data StepId : Type 0 where
  detect identify rip transcode compress move notify eject : StepId

-- `legacy` is the empty string of rows written before the column existed.
pub data JobKind : Type 0 where
  rip transcode scan legacy : JobKind

pub data JobStepState : Type 0 where
  pending running done skipped failed : JobStepState

pub data LogLevel : Type 0 where
  debug info warn error : LogLevel

unfoldable pub canonical_steps : List StepId
canonical_steps = detect ∷ identify ∷ rip ∷ transcode ∷ compress ∷ move ∷ notify ∷ eject ∷ []

unfoldable pub canonical_rip_steps : List StepId
canonical_rip_steps = detect ∷ identify ∷ rip ∷ eject ∷ []

unfoldable pub canonical_transcode_steps : List StepId
canonical_transcode_steps = transcode ∷ compress ∷ move ∷ notify ∷ []

unfoldable pub canonical_scan_steps : List StepId
canonical_scan_steps = identify ∷ []

-- What a step's notes hold under a key: a text, a list of texts, or any other JSON value.
pub data Note : Type 0 where
  text : Text → Note
  texts : List Text → Note
  other : Note

-- A row of `job_steps`. A timestamp is a number, and the empty one is `none`.
pub record JobStep : Type 0 where
  pub job_id : Text
  pub step : StepId
  pub state : JobStepState
  pub attempt_count : ℕ
  pub started_at : Option ℕ
  pub finished_at : Option ℕ
  pub notes : List (Text × Note)

-- A row of `jobs`; the steps have rows of their own. `progress` is only copied, never computed with.
pub record Job : Type 0 where
  pub id : Text
  pub disc_id : Text
  pub drive_id : Text
  pub profile_id : Text
  pub kind : JobKind
  pub parent_job_id : Text
  pub spool_path : Text
  pub state : JobState
  pub active_step : Option StepId
  pub active_substep : Text
  pub progress : ℕ
  pub speed : Text
  pub eta_seconds : ℕ
  pub elapsed_seconds : ℕ
  pub output_bytes : ℕ
  pub started_at : Option ℕ
  pub finished_at : Option ℕ
  pub error_message : Text
  pub created_at : ℕ

pub StepId-discrete : Discrete StepId
StepId-discrete = hlevel

-- `a == b` on step identifiers, by the position in the canonical list.
abbrev pub step_code : StepId → ℕ
step_code detect = 0
step_code identify = 1
step_code rip = 2
step_code transcode = 3
step_code compress = 4
step_code move = 5
step_code notify = 6
step_code eject = 7

abbrev pub step_eq : StepId → StepId → Bool
step_eq a b = step_code a == step_code b

-- `a == b` on disc types, by their texts.
unfoldable pub disc_type_eq : DiscType → DiscType → Bool
unfolding disc_type_text
disc_type_eq a b = text_eq (disc_type_text a) (disc_type_text b)

-- The states in which a job still counts as active in the store's queries.
abbrev pub is_active : JobState → Bool
is_active queued = true
is_active identifying = true
is_active running = true
is_active paused = true
is_active _ = false
