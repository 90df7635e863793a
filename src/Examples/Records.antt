-- ===== src/Examples/Records.antt =====
-- A log of each kind of operation, and a database of two rows.
use hivesync.Prelude.{◌+◌, ◌≡◌, refl, false, none, some, [], ◌∷◌, codes, length, min, arith}
use hivesync.Models.{ChangeAction, running, schedule, live}
use hivesync.Parsers.{DryRunLog, skipped_copy, skipped_archive, deletes}
use hivesync.Engines.Plan.{Plan, empty_plan}
use hivesync.Runner.BisyncRecord.{recorded_bisync}
use hivesync.Runner.Rows.{recorded_bisync_totals}
use hivesync.Planner.{Db, new_run, insert_run}
use hivesync.Planner.OneActive.{OneActive}
use hivesync.Examples.{emptied, fresh_run, pair, removal}

abbrev mixed_log : DryRunLog
mixed_log = record {
  operations =
      record { path = codes "new"; operation = skipped_copy; size = some 5; replaced = some false }
      ∷ record { path = codes "old"; operation = skipped_archive; size = some 5; replaced = none }
      ∷ removal (codes "gone")
      ∷ [];
  errors = [];
  stats_bytes = none;
  max_delete_hit = false;
  peak_speeds = [];
}

recorded_bisync_totals_example :
    let row = recorded_bisync emptied pair mixed_log fresh_run in
    (length row.changes
      ≡ length fresh_run.changes
        + min 5000 (row.files_transferred + row.files_deleted + row.files_archived))
    × (row.files_deleted ≡ length (deletes mixed_log) + row.files_archived)
recorded_bisync_totals_example = recorded_bisync_totals emptied pair mixed_log fresh_run

abbrev idle_db : Db
idle_db = record { runs = new_run 1 8 schedule live running ∷ []; next_id = 2 }

idle_one : OneActive idle_db
idle_one job_id = ground arith

abbrev busy_db : Db
busy_db = record { runs = fresh_run ∷ idle_db.runs; next_id = 3 }

inserted : insert_run fresh_run idle_db ≡ some busy_db
unfolding insert_run
inserted = refl

abbrev small_plan : Plan
small_plan = record empty_plan {
  changes =
      record {
        action = ChangeAction.new;
        path = codes "n";
        size = some 3;
        message = none;
        side = none;
      }
      ∷ [];
  errors = codes "unreadable" ∷ [];
}
