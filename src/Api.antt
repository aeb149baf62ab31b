-- ===== src/Api.antt =====
-- daemon/api: the handlers of the HTTP interface that change jobs.
pub mod Jobs
