-- ===== src/Examples.antt =====
-- The rows of a job and the answers of rclone that the tests run on.
mod Decisions
mod Runs
mod Records
mod Places
mod Watching
mod Keeping
mod Access
mod Remote
mod Moving
mod Logs
mod Schedules
mod Life
mod Secrets
mod Settings
mod Paired
use hivesync.Prelude.{
  ℕ, zero, suc, ◌+◌, ◌-◌, ◌*◌, ◌≤◌, ◌<◌, ◌≡◌, ◌↔◌, refl, sym, ap, ◌∙◌, ◌⊎◌, inl, inr, Bool, false,
  true, not, ◌&&◌, ◌||◌, Option, none, some, List, [], ◌∷◌, ◌++◌, Text, codes, length, min, max,
  arith, if◌then◌else◌, ◌==◌, ltb, leb, Bool-cases,
}
use hivesync.Models.{
  Connection, local, Job, JobRun, JobRunChange, RunStatus, RunMode, RunTrigger, queued, running,
  success, failed, cancelled, skipped, schedule, manual, live, dry_run, source_to_dest,
  bidirectional, Direction, timestamped_dir, suffix, mtime_size, newer, always, delete, archive,
  exited, is_active, ChangeAction,
}
use hivesync.Parsers.{
  PlannedOperation, skipped_copy, skipped_delete, skipped_archive, DryRunLog, PresenceReport,
}
use hivesync.Runner.State.{World, BisyncReport, specs}

abbrev pub disk : Text → Connection
disk root = record {
  name = root;
  type = local;
  host = none;
  port = none;
  share = none;
  base_path = root;
  username = none;
  extra_opts = [];
  rclone_mode = none;
  rclone_remote_name = none;
  rclone_backend_type = none;
  host_keys = none;
  host_keys_trusted = false;
  sentinel_file = none;
  hashes = codes "md5" ∷ [];
  probed = true;
}

abbrev pub nightly : Direction → Job
nightly direction = record {
  id = 7;
  name = codes "Nightly Photos";
  enabled = true;
  source_connection = disk (codes "/photos");
  source_path = codes "2024";
  dest_connection = disk (codes "/backup");
  dest_path = codes "photos";
  direction = direction;
  delete_mode = delete;
  archive_base = none;
  archive_layout = timestamped_dir;
  archive_retention_days = none;
  filters = record { include_rules = []; exclude_rules = []; min_size = none; max_age = none };
  filter_presets = [];
  compare_mode = mtime_size;
  modify_window = codes "1s";
  transfers = none;
  checkers = none;
  bwlimit = none;
  max_delete_pct = 50;
  conflict_resolve = newer;
  schedule_cron = none;
  timezone = codes "UTC";
  continuous = false;
  continuous_interval_seconds = 60;
  continuous_idle_interval_seconds = 900;
  quiet_period_seconds = 0;
  last_checked_at = none;
  notify_on = always;
  bisync_initialized = false;
  check_access = false;
}

abbrev pub photos : Job
photos = nightly source_to_dest

abbrev pub pair : Job
pair = nightly bidirectional

abbrev pub fresh_run : JobRun
fresh_run = record {
  id = 1;
  job_id = 7;
  trigger = schedule;
  is_resync = false;
  forced_max_delete = none;
  archive_dirs = none;
  mode = live;
  status = queued;
  started_at = none;
  finished_at = none;
  exit_code = none;
  files_transferred = 0;
  files_deleted = 0;
  files_archived = 0;
  bytes_transferred = 0;
  errors_count = 0;
  log_path = none;
  summary = none;
  command_redacted = none;
  skip_reason = none;
  changes = [];
}

abbrev pub removal : Text → PlannedOperation
removal path = record { path = path; operation = skipped_delete; size = some 10; replaced = none }

-- The dry run of a source that was emptied under a destination of three files.
abbrev pub wipe_log : DryRunLog
wipe_log = record {
  operations = removal (codes "a") ∷ removal (codes "b") ∷ removal (codes "c") ∷ [];
  errors = [];
  stats_bytes = none;
  max_delete_hit = false;
  peak_speeds = [];
}

abbrev pub wipe_presence : PresenceReport
wipe_presence = record {
  missing_on_dest = [];
  missing_on_source = codes "a" ∷ codes "b" ∷ codes "c" ∷ [];
  differing = [];
  matching = [];
  errored = [];
}

abbrev pub no_deltas : BisyncReport
no_deltas = record {
  needs_resync = false;
  deltas = record {
    path1_new = 0;
    path1_modified = 0;
    path1_deleted = 0;
    path2_new = 0;
    path2_modified = 0;
    path2_deleted = 0;
    safety_abort = none;
  };
  changes = [];
}

abbrev pub emptied : World
emptied = record {
  started_at = 100;
  finished_at = 130;
  checked_at = 131;
  stamp = codes "20240101";
  exists = λ root path. true;
  prepared = specs (codes "hs_src:/photos/2024") (codes "hs_dst:/backup/photos");
  argv = λ args. codes "rclone" ∷ args;
  check_exit = exited 1;
  check_failure = [];
  presence = wipe_presence;
  dry_exit = exited 0;
  dry_failure = [];
  dry_log = wipe_log;
  output = [];
  exit_code = exited 0;
  log_path = codes "/logs/1.log";
  command_line = codes "rclone sync";
  notify_configured = true;
  bisync_dir = codes "/state/bisync";
  bisync_dry = no_deltas;
  bisync_run = no_deltas;
  fault = none;
}
