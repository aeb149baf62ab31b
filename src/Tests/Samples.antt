-- ===== src/Tests/Samples.antt =====
-- Small jobs, drives and databases.
use disc_echo_dd.Common.{ℕ, true, false, List, [], ◌∷◌, ◌++◌, none, some, Text, codes, Result, ok}
use disc_echo_dd.State.Types.{DiscType, DriveState, JobKind, JobState, StepId, Job, Note}
use disc_echo_dd.State.Rows.{Db, Disc, Drive, Profile}
use disc_echo_dd.Spool.{Spool}
use disc_echo_dd.Jobs.Sink.{Sink, PendingProgress}
use disc_echo_dd.Jobs.World.{Config, Faults, World, Handler, SplittableHandler, SinkCall}

abbrev pub job : Text → JobKind → JobState → Text → ℕ → Job
job id kind state spool_path at = record {
  id = id;
  disc_id = codes "disc";
  drive_id = codes "drive";
  profile_id = codes "prof";
  kind = kind;
  parent_job_id = [];
  spool_path = spool_path;
  state = state;
  active_step = none;
  active_substep = [];
  progress = 0;
  speed = [];
  eta_seconds = 0;
  elapsed_seconds = 0;
  output_bytes = 0;
  started_at = none;
  finished_at = none;
  error_message = [];
  created_at = at;
}

abbrev pub rip_job : Job
rip_job = job (codes "r") JobKind.rip JobState.queued [] 1

abbrev pub staged : Text
staged = codes "/spool" ++ codes "/r"

abbrev pub transcode_job : Job
transcode_job = job (codes "t") JobKind.transcode JobState.queued staged 2

abbrev pub failed_job : Job
failed_job = job (codes "f") JobKind.transcode JobState.failed staged 3

abbrev pub drive : DriveState → Drive
drive state = record {
  id = codes "drive";
  model = [];
  dev_path = codes "/dev/sr0";
  state = state;
  last_seen_at = 0;
  last_error = [];
  tray_open = false;
}

abbrev pub disc : Disc
disc = record {
  id = codes "disc";
  drive_id = codes "drive";
  disc_type = DiscType.dvd;
  title = [];
  year = 0;
  metadata_provider = [];
  metadata_id = [];
  metadata_json = codes "{}";
  candidates = [];
  created_at = 0;
}

abbrev pub profile : Profile
profile = record { id = codes "prof"; disc_type = DiscType.dvd; options = []; enabled = true }

abbrev pub db : Db
db = record {
  jobs = rip_job ∷ transcode_job ∷ failed_job ∷ [];
  steps = [];
  drives = drive DriveState.idle ∷ [];
  discs = disc ∷ [];
  profiles = profile ∷ [];
  logs = [];
}

abbrev pub spool : Spool
spool = record {
  root_dir = codes "/spool";
  entries = (codes "r", 7) ∷ (codes "old", 3) ∷ [];
  cached_bytes = 0;
  cached_at = none;
}

abbrev pub world : World
world = record {
  db = db;
  spool = spool;
  published = [];
  queue = [];
  cancels = [];
  compute_cancels = [];
  notified = [];
  stopped = false;
  drive_queue = [];
  closed = false;
  signalled = [];
  refused = [];
}

abbrev pub no_faults : Faults
no_faults = record {
  get_job = none;
  get_disc = none;
  get_drive = none;
  get_profile = none;
  set_running = none;
  set_ripping = none;
  set_failed = none;
  set_final = none;
  set_idle = none;
  spool_create = none;
  spool_cleanup = none;
  create_child = none;
  set_metadata = none;
  set_candidates = none;
  create_job = none;
  list_active = none;
  cancel_active = none;
}

abbrev pub report : StepId → ℕ → PendingProgress
report step pct = record { step = step; pct = pct; spd = []; eta = 0 }

abbrev pub reports : List (ℕ × PendingProgress)
reports = (5, report StepId.rip 1) ∷ (6, report StepId.rip 2) ∷ []

-- A rip with its calls on the sink, and a transcode that names the disc; `result` is how the rip ends.
abbrev pub splittable : Result Text → SplittableHandler
splittable result = record {
  plan_transcode = λ d p. (StepId.transcode, false) ∷ (StepId.compress, true) ∷ [];
  run_rip = λ v d p path. (
    SinkCall.step_start 10 StepId.rip
        ∷ SinkCall.progress 11 (report StepId.rip 40)
        ∷ SinkCall.step_done 12 StepId.rip []
        ∷ [],
    result,
    700,
  );
  run_transcode = λ path d p entries. (
    SinkCall.step_done 20 StepId.move ((codes "path", Note.text (codes "/out/a")) ∷ []) ∷ [],
    none,
    record d { title = codes "A" },
    (codes "encoded", 80) ∷ entries,
  );
}

abbrev pub handler : Result Text → Handler
handler result = record {
  plan = λ d p. [];
  run = λ v d p. ([], none);
  splittable = some (splittable result);
  scanner = none;
}

abbrev pub config : Config
config = record { handlers = λ t. some (handler (ok [])); stat = λ p. some 5; splits = true }

abbrev pub scanning : Config
scanning = record config {
  handlers = λ t. some (record (handler (ok [])) {
    scanner = some (record { scan_titles = λ v d p. ([], ok (codes "{}")) });
  });
}

abbrev pub sink : Sink
sink = record {
  job_id = codes "r";
  store = db;
  published = [];
  last_progress_at = none;
  pending_progress = none;
  current_step = none;
  refused = [];
}
