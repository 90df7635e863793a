-- ===== src/Runner/Record.antt =====
-- `_record` and `_fail` of app/jobs/runner.py: what a run stores about its end.
use hivesync.Prelude.{
  ℕ, ◌+◌, Bool, true, false, ◌&&◌, ◌||◌, Option, none, some, List, [], ◌∷◌, ◌++◌, Text, text_eq,
  ◌==◌, if◌then◌else◌, length, take, total,
}
use hivesync.Models.{
  Job, JobRun, JobRunChange, ChangeAction, ChangeSide, RunStatus, success, failed, cancelled,
  ExitCode, was_killed, is_zero, is_success, is_cancelled, failure, live_result, Message,
  RefusedSummary, RefusedPlan,
}
use hivesync.Parsers
use hivesync.Parsers.{
  PlannedOperation, Operation, skipped_delete, skipped_archive, DryRunLog, copies, removals,
  created, replacements, summarise_errors,
}
use hivesync.Engines.Plan.{PlannedChange, Plan, new_count, updated_count, deleted_count, count_in}
use hivesync.Engines.Rclone.{side_for}
use hivesync.Engines.Reconcile.{size_or_zero}
use hivesync.Runner.State.{Exec, returned, committed, emitted, World, Refusal, finished}

abbrev pub max_persisted_changes : ℕ
max_persisted_changes = 5000

abbrev is_replaced : Option Bool → Bool
is_replaced (some true) = true
is_replaced _ = false

-- The action that a row of a finished operation is given.
abbrev pub action_of : PlannedOperation → ChangeAction
action_of op = elim op.operation [
  | skipped_delete ↦ ChangeAction.deleted
  | skipped_archive ↦ ChangeAction.archived
  | _ ↦ if is_replaced op.replaced then ChangeAction.updated else ChangeAction.new
]

-- `peak_speeds.get(path)`
abbrev pub peak_of : Text → List (Text × ℕ) → Option ℕ
peak_of path [] = none
peak_of path ((n, v) ∷ peaks) = if text_eq n path then some v else peak_of path peaks

abbrev pub change_rows : ChangeSide → List (Text × ℕ) → List PlannedOperation → List JobRunChange
change_rows side peaks [] = []
change_rows side peaks (op ∷ ops) =
    record {
      action = action_of op;
      side = side;
      path = op.path;
      size = op.size;
      peak_speed_bps = peak_of op.path peaks;
      message = none;
    }
    ∷ change_rows side peaks ops

-- `run.status` is read from the session, where it is what `run_now` wrote.
unfoldable pub final_status : RunStatus → ExitCode → RunStatus
final_status status exit_code =
    if is_cancelled status || was_killed exit_code
    then cancelled
    else if is_zero exit_code
    then success
    else failed

unfoldable pub bytes_transferred : DryRunLog → List PlannedOperation → ℕ
bytes_transferred observed copied = elim observed.stats_bytes [
  | none ↦ total size_or_zero copied
  | some bytes ↦ elim bytes [ none ↦ total size_or_zero copied | some n ↦ n ]
]

abbrev is_empty : List PlannedOperation → Bool
is_empty [] = true
is_empty (op ∷ ops) = false

abbrev both_empty : List PlannedOperation → List PlannedOperation → Bool
both_empty a b = is_empty a && is_empty b

unfoldable pub applied_as_planned : RunStatus → Plan → DryRunLog → Bool
unfolding copies removals new_count updated_count deleted_count
applied_as_planned status plan observed =
    is_success status
    && (length (copies observed) == new_count plan + updated_count plan)
    && (length (removals observed) == deleted_count plan)

-- The row of the run as `_record` leaves it.
unfoldable pub recorded : World → Job → Plan → DryRunLog → ℕ → JobRun → JobRun
unfolding copies removals created replacements final_status bytes_transferred applied_as_planned
recorded w job plan observed threshold run =
    let copied = copies observed in
    let deleted = removals observed in
    let status = final_status run.status w.exit_code in
    record run {
      changes =
          run.changes
          ++ change_rows (side_for job.direction) observed.peak_speeds
              (take max_persisted_changes (copied ++ deleted));
      status = status;
      finished_at = some w.finished_at;
      exit_code = some w.exit_code;
      files_transferred = length copied;
      files_deleted = length deleted;
      files_archived = length (Parsers.archived observed);
      bytes_transferred = bytes_transferred observed copied;
      errors_count = length observed.errors;
      log_path = some w.log_path;
      summary = some (
          live_result (record {
            new = length (created observed);
            updated = length (replacements observed);
            unchanged = plan.unchanged_count;
            bytes = bytes_transferred observed copied;
            planned_new = new_count plan;
            planned_updated = updated_count plan;
            planned_deleted = deleted_count plan;
            transferred = length copied;
            deleted = length deleted;
            archived = length (Parsers.archived observed);
            errors = summarise_errors observed.errors 20;
            warnings = plan.warnings;
            dest_file_count = plan.dest_file_count;
            max_delete_threshold = threshold;
            applied_as_planned = applied_as_planned status plan observed;
            max_delete_hit = observed.max_delete_hit;
            cancelled_partway =
                is_cancelled status && (if both_empty copied deleted then false else true);
          }));
    }

unfoldable pub record_run : World → Plan → DryRunLog → ℕ → Exec (Unit {0})
unfolding recorded
record_run w plan observed threshold s =
    let row = recorded w s.job plan observed threshold s.run in
    (
      returned tt,
      record s {
        run = row;
        effects =
            emitted (finished row.status row.files_transferred row.files_deleted row.files_archived)
            ∷ committed row
            ∷ s.effects;
      },
    )

-- The rows of a refused run: a change without a side of its own is on the job's side.
abbrev pub refused_rows : ChangeSide → List PlannedChange → List JobRunChange
refused_rows side [] = []
refused_rows side (c ∷ cs) =
    record {
      action = c.action;
      side = elim c.side [ none ↦ side | some own ↦ own ];
      path = c.path;
      size = c.size;
      peak_speed_bps = none;
      message = c.message;
    }
    ∷ refused_rows side cs

abbrev refused_plan : Option Plan → Option ℕ → Option RefusedPlan
refused_plan none threshold = none
refused_plan (some plan) threshold = some (record {
  unchanged = plan.unchanged_count;
  bytes = 0;
  dest_file_count = plan.dest_file_count;
  max_delete_threshold = threshold;
})

abbrev pub refused_summary : Refusal → RefusedSummary
refused_summary r = record {
  new = count_in ChangeAction.new r.changes;
  updated = count_in ChangeAction.updated r.changes;
  deleted = count_in ChangeAction.deleted r.changes;
  refused_deletions = r.deletions;
  plan = refused_plan r.plan r.threshold;
}

-- `_fail` of a run that the brake did not refuse, and of one that it did.
unfoldable pub fail_row : World → Message → JobRun → JobRun
fail_row w message run = record run {
  status = failed;
  finished_at = some w.finished_at;
  errors_count = 1;
  summary = some (failure message none);
}

unfoldable pub refuse_row : World → Job → Refusal → JobRun → JobRun
refuse_row w job r run = record run {
  status = failed;
  finished_at = some w.finished_at;
  errors_count = 1;
  changes =
      run.changes ++ refused_rows (side_for job.direction) (take max_persisted_changes r.changes);
  summary = some (failure r.message (some (refused_summary r)));
}
