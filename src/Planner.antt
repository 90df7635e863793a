-- ===== src/Planner.antt =====
-- app/jobs/planner.py: the life of a run row, and the dry run. The database is the lists of its
-- rows; the partial unique index `uq_job_run_active_per_job` of app/models/job.py refuses a second
-- queued or running row of one job.
pub mod OneActive
pub mod DryRun
use hivesync.Prelude.{
  ℕ, suc, ◌+◌, ◌-◌, Bool, true, false, ◌&&◌, ◌||◌, Option, none, some, List, [], ◌∷◌, ◌++◌, ◌==◌,
  if◌then◌else◌, length, take, Text,
}
use hivesync.Models.{
  Job, JobRun, JobRunChange, RunTrigger, schedule, RunMode, live, RunStatus, queued, running,
  success, failed, skipped, exited, is_active, is_bidirectional, ChangeSide, Message, failure,
  plan_result,
}
use hivesync.Engines.Plan.{
  PlannedChange, Plan, new_count, updated_count, deleted_count, error_count,
}
use hivesync.Engines.Rclone.{resolve_max_delete, side_for}
use hivesync.Runner.Record.{max_persisted_changes, refused_rows}

pub record Db : Type 0 where
  pub runs : List JobRun
  pub next_id : ℕ

abbrev pub active_of : ℕ → JobRun → Bool
active_of job_id run = (run.job_id == job_id) && is_active run.status

abbrev pub has_active : ℕ → List JobRun → Bool
has_active job_id [] = false
has_active job_id (run ∷ runs) = active_of job_id run || has_active job_id runs

-- A new row, with the defaults of its columns.
abbrev pub new_run : ℕ → ℕ → RunTrigger → RunMode → RunStatus → JobRun
new_run id job_id trigger mode status = record {
  id = id;
  job_id = job_id;
  trigger = trigger;
  is_resync = false;
  forced_max_delete = none;
  archive_dirs = none;
  mode = mode;
  status = status;
  started_at = none;
  finished_at = none;
  exit_code = none;
  files_transferred = 0;
  files_deleted = 0;
  files_archived = 0;
  bytes_transferred = 0;
  errors_count = 0;
  log_path = none;
  summary = none;
  command_redacted = none;
  skip_reason = none;
  changes = [];
}

-- The insertion that the index guards; `none` is its `IntegrityError`.
unfoldable pub insert_run : JobRun → Db → Option Db
insert_run run db =
    if is_active run.status && has_active run.job_id db.runs
    then none
    else some (record { runs = run ∷ db.runs; next_id = suc db.next_id })

-- The queued run, or `none` for `RunConflict`, after which the database is as it was.
unfoldable pub create_run : Db → ℕ → RunTrigger → RunMode → Option (JobRun × Db)
unfolding insert_run
create_run db job_id trigger mode =
    let run = new_run db.next_id job_id trigger mode queued in
    elim (insert_run run db) [ none ↦ none | some db' ↦ some (run, db') ]

-- A write of a row that is there.
unfoldable pub update_run : (JobRun → JobRun) → ℕ → List JobRun → List JobRun
update_run f id [] = []
update_run f id (run ∷ runs) =
    let rest = update_run f id runs in if run.id == id then f run ∷ rest else run ∷ rest

-- `_threshold`: a percentage for bisync, and else the count that the brake enforces.
unfoldable pub threshold : Job → Plan → ℕ
threshold job plan =
    if is_bidirectional job.direction
    then job.max_delete_pct
    else resolve_max_delete job.max_delete_pct plan.dest_file_count

-- The row of a dry run as `_persist_plan` leaves it.
unfoldable pub persist_plan : ℕ → Job → Plan → JobRun → JobRun
unfolding threshold new_count updated_count deleted_count error_count
persist_plan now job plan run = record run {
  changes =
      run.changes
      ++ refused_rows (side_for job.direction) (take max_persisted_changes plan.changes);
  status = success;
  finished_at = some now;
  exit_code = some (exited 0);
  files_transferred = new_count plan + updated_count plan;
  files_deleted = deleted_count plan;
  bytes_transferred = plan.bytes_to_transfer;
  errors_count = error_count plan;
  summary = some (
      plan_result (record {
        new = new_count plan;
        updated = updated_count plan;
        deleted = deleted_count plan;
        unchanged = plan.unchanged_count;
        errors = plan.errors;
        warnings = plan.warnings;
        bytes = plan.bytes_to_transfer;
        dest_file_count = plan.dest_file_count;
        max_delete_threshold = threshold job plan;
        bidirectional = is_bidirectional job.direction;
        truncated = plan.truncated;
        rows_omitted = length plan.changes - max_persisted_changes;
      }));
}

-- `_finish_failed`
unfoldable pub finish_failed : ℕ → Message → JobRun → JobRun
finish_failed now message run = record run {
  status = failed;
  finished_at = some now;
  errors_count = 1;
  summary = some (failure message none);
}

-- `_record_skip` of app/jobs/scheduler.py: the row of a scheduled run that did not happen.
unfoldable pub record_skip : ℕ → ℕ → Text → Db → Option Db
unfolding insert_run
record_skip now job_id reason db =
    insert_run
      (record (new_run db.next_id job_id schedule live skipped) {
        started_at = some now;
        finished_at = some now;
        skip_reason = some reason;
      })
      db
