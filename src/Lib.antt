-- ===== src/Lib.antt =====
-- DiscEcho's daemon (daemon/, Go) watches optical drives, identifies discs, rips them and transcodes the
-- result. This library models the part that decides what happens to a job, and what is kept of it.
--
-- How the parts work together. The API or the disc flow submits a job: the orchestrator writes its row and
-- puts it in the queue of the disc's drive. One worker for each drive takes the jobs in their order and
-- runs them through a pipeline handler, which reports on a sink. Where the handler splits its work, the
-- rip goes to a staging directory of the spool, and a child job waits in the queue of the compute pool,
-- which transcodes it without the drive. At startup the daemon marks what was cut off as interrupted and
-- sweeps the spool against the rows of the jobs.
--
-- Which file models what:
--   State/Types, State/Rows           daemon/state/types.go: enumerations, steps of a job, rows of the tables
--   State/Events                      daemon/state/broadcaster.go: the events, one constructor for each name
--   State/Lifecycle                   daemon/state/disc_lifecycle.go: DeriveLifecycleState, its two loops
--                                     (latest), its switches (of_rip, after_rip, of_transcode)
--   State/Store/Table                 SELECT, UPDATE and COUNT over a table, which is a list of rows
--   State/Store/Jobs, Steps, Drives,  daemon/state/store.go: the methods of Store, each with its name in
--     Lookups, Recovery               snake_case
--   State/Store/Cascade               daemon/state/migrations: what the foreign keys make a DELETE take along
--   State/Store/History               the retention of the same file: retentionWhere, PruneHistory,
--                                     CountWouldPrune, DeleteJobAndOrphans, DeleteDisc, ClearHistory
--   State/Store/Queries               TailLogLines, ListLogLines, LifecycleStates, ClearableDiscOnDrive and
--                                     HasRecentJobOnDrive of the same file
--   State/Settings                    the settings of the same file, a table of texts
--   State/Sweeper                     daemon/state/sweeper.go: Tick, NextThreeAM and the loop
--   State/Broadcaster                 daemon/state/broadcaster.go: subscriptions, publishing, shutdown
--   State/DriveError                  daemon/state/driveerror.go
--   Spool                             daemon/spool/spool.go: Path, Create, Cleanup, GC, UsageBytes
--   Jobs/Sink                         daemon/jobs/sink.go: PersistentSink
--   Jobs/World                        the state that the orchestrator and the pool share; the interfaces of
--                                     daemon/pipelines/handler.go; daemon/jobs/notify.go
--   Jobs/Orchestrator                 daemon/jobs/orchestrator.go: runJob in the pieces of its control flow
--                                     (lookups, run_handler, dispatch, run_splittable, hand_over, finish)
--   Jobs/Submit, Jobs/Cancel          Submit, SubmitScan, enqueue, Cancel and CancelAll of the same file
--   Jobs/Compute                      daemon/jobs/compute.go: runOne in its pieces, finalise, cleanupSpool
--   Jobs/Compute/Slots                acquire, release and SetConcurrency of the same file, one atomic operation
--                                     of one worker at a time, in any order (run_slots)
--   Identify                          daemon/identify/classify.go: cdInfoWatcher and ClassifyFromCDInfo (Watcher),
--                                     the retry loops (Retry), RefineDiscType and Classify (Classify), where
--                                     refine_disc_type goes on to refine_listing and refine_sectors;
--                                     daemon/identify/cdgameprobe.go (CdGame)
--   Drive                             daemon/drive/udev.go: ParseUevent (a line in read_line, a property in
--                                     set_property), IsOpticalMediaChange, HasMedia
--   Pipelines/DriveRole, Options,     daemon/pipelines: drive_role.go, options.go, output.go,
--     Output, Titles, Steps           movie_title_select.go with extras.go, and steps.go
--   Api/Jobs                          daemon/api/jobs.go: GetJob, CancelJob, CancelAllJobs, RetryTranscode (in its
--                                     stages: admit_retry, apply_retry) and DeleteJob
--   Common                            lists, texts, paths, errors and Boolean tests
--   Tests                             the theorems on small inputs
-- The other files hold proofs and are named for what they prove.
--
-- Conventions. The database is a record of tables, and every method of the store is a function from it to
-- its result and the database after it. A statement that SQLite refuses changes nothing; such refusals,
-- those of the file system, and the failures of calls on a context that was cancelled are the fields of
-- Faults, so that a theorem that does not restrict them holds whatever fails. The statements that a sink
-- runs, whose errors are only logged, are refused by a schedule (refused) in the state. A handler is a
-- parameter: a run of it yields the calls that it made on its sink and its result; a rip also yields the
-- bytes below its directory, and a transcode the entries that it leaves in the staging area. Times are
-- natural numbers, in nanoseconds where the throttle of the sink reads them; a new identifier and the clock
-- are arguments. Progress is a natural number that is copied and never computed with. Texts are lists of code points. All
-- functions are structural recursions. Two of them count rounds: cascade has as many as there are rows left
-- and a round that takes no row is the last that does anything; the digits of n are written in at most n + 1
-- rounds, each of which divides by ten. What is outside the repository is a parameter: the engine of
-- text/template, the format of times, the calendar of the daemon's location, RowsAffected of a DELETE with
-- cascades, and the one product in floating point of the title selection.
--
-- The sweeper runs the prune of the store on the settings that the interface writes; the broadcaster takes
-- the events that the jobs publish; a retry through the interface goes to the queue of the compute pool;
-- a wrong drive is refused with a message that the drive errors explain. The classifier takes the answers of
-- its probers as values, one for each turn of a retry loop, each with the context's error after it and during
-- the wait; case folding and white space are those of ASCII output.
--
-- Not modelled: the worker goroutines and their locks (each function here is one run of one of them, on its
-- own, except for the slots), the wait for spool capacity, Close of the orchestrator, the lists of the
-- history page and the statistics, the pipelines of the disc types and the tools, which run external
-- programs, the rest of identification (the parsers of the probers' output and the web services), the
-- other handlers of the HTTP interface, the socket of udev, the integrations, the web
-- interface and the vendored PS3 dumper.
pub mod Common
pub mod State
pub mod Spool
pub mod Jobs
pub mod Identify
pub mod Drive
pub mod Pipelines
pub mod Api
pub mod Tests
