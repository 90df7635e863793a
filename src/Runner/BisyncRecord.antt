-- ===== src/Runner/BisyncRecord.antt =====
-- What `_record_bisync` of app/jobs/runner.py stores.
use hivesync.Prelude.{
  ℕ, Bool, true, false, ◌&&◌, none, some, List, [], ◌∷◌, ◌++◌, Text, text_eq, if◌then◌else◌, length,
  take, total,
}
use hivesync.Models.{Job, JobRun, JobRunChange, ChangeSide, dest, is_cancelled, bisync_result}
use hivesync.Parsers
use hivesync.Parsers.{
  PlannedOperation, DryRunLog, copies, removals, created, replacements, summarise_errors, empty_log,
}
use hivesync.Engines.Plan.{PlannedChange}
use hivesync.Engines.Reconcile.{size_or_zero}
use hivesync.Runner.State.{World}
use hivesync.Runner.Record.{max_persisted_changes, action_of, peak_of, final_status}

-- `{change.path: change.side for change in changes}`, then `.get(path, dest)`: the last one counts. What
-- `parse_planned_changes` reads always names a side.
abbrev pub side_in : ChangeSide → Text → List PlannedChange → ChangeSide
side_in default path [] = default
side_in default path (c ∷ cs) =
    side_in
      (if text_eq c.path path then elim c.side [ none ↦ default | some side ↦ side ] else default)
      path cs

abbrev pub bisync_rows :
    List PlannedChange → List (Text × ℕ) → List PlannedOperation → List JobRunChange
bisync_rows changes peaks [] = []
bisync_rows changes peaks (op ∷ ops) =
    record {
      action = action_of op;
      side = side_in dest op.path changes;
      path = op.path;
      size = op.size;
      peak_speed_bps = peak_of op.path peaks;
      message = none;
    }
    ∷ bisync_rows changes peaks ops

abbrev any_work : List PlannedOperation → List PlannedOperation → Bool
any_work [] [] = false
any_work _ _ = true

-- The row of the run as `_record_bisync` leaves it.
unfoldable pub recorded_bisync : World → Job → DryRunLog → JobRun → JobRun
unfolding copies removals created replacements final_status
recorded_bisync w job observed run =
    let copied = copies observed in
    let removed = removals observed in
    let archived = Parsers.archived observed in
    let d = w.bisync_run.deltas in
    let status = final_status run.status w.exit_code in
    record run {
      status = status;
      finished_at = some w.finished_at;
      exit_code = some w.exit_code;
      files_transferred = length copied;
      files_deleted = length removed;
      files_archived = length archived;
      bytes_transferred = total size_or_zero copied;
      errors_count = length observed.errors;
      log_path = some w.log_path;
      changes =
          run.changes
          ++ bisync_rows w.bisync_run.changes observed.peak_speeds
              (take max_persisted_changes (copied ++ (removed ++ archived)));
      summary = some (
          bisync_result (record {
            resync = run.is_resync;
            path1_new = d.path1_new;
            path1_modified = d.path1_modified;
            path1_deleted = d.path1_deleted;
            path2_new = d.path2_new;
            path2_modified = d.path2_modified;
            path2_deleted = d.path2_deleted;
            new = length (created observed);
            updated = length (replacements observed);
            bytes = total size_or_zero copied;
            transferred = length copied;
            deleted = length removed;
            archived = length archived;
            errors = summarise_errors observed.errors 20;
            max_delete_threshold = job.max_delete_pct;
            max_delete_pct = job.max_delete_pct;
            cancelled_partway = is_cancelled status && any_work copied removed;
          }));
    }
