-- ===== src/State/Rows.antt =====
-- daemon/state/types.go: the rows of the tables other than `jobs` and `job_steps`, and the database.
use disc_echo_dd.Common.{ℕ, Bool, List, Option, Text}
use disc_echo_dd.State.Types.{DiscType, DriveState, Job, JobStep, LogLevel, StepId}

pub record Drive : Type 0 where
  pub id : Text
  pub model : Text
  pub dev_path : Text
  pub state : DriveState
  pub last_seen_at : ℕ
  pub last_error : Text
  pub tray_open : Bool

pub record Candidate : Type 0 where
  pub source : Text
  pub title : Text
  pub year : ℕ
  pub confidence : ℕ

pub record Disc : Type 0 where
  pub id : Text
  pub drive_id : Text
  pub disc_type : DiscType
  pub title : Text
  pub year : ℕ
  pub metadata_provider : Text
  pub metadata_id : Text
  pub metadata_json : Text
  pub candidates : List Candidate
  pub created_at : ℕ

-- A JSON value of an options blob; a number is kept by its whole part, its only use.
pub data OptionValue : Type 0 where
  number : ℕ → OptionValue
  text : Text → OptionValue
  bool : Bool → OptionValue
  other : OptionValue

pub record Profile : Type 0 where
  pub id : Text
  pub disc_type : DiscType
  pub options : List (Text × OptionValue)
  pub enabled : Bool

pub record LogLine : Type 0 where
  pub job_id : Text
  pub time : ℕ
  pub step : Option StepId
  pub level : LogLevel
  pub message : Text

-- The tables that the modelled statements read and write.
pub record Db : Type 0 where
  pub jobs : List Job
  pub steps : List JobStep
  pub drives : List Drive
  pub discs : List Disc
  pub profiles : List Profile
  pub logs : List LogLine
