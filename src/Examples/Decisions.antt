-- ===== src/Examples/Decisions.antt =====
-- The brake and the plan on the emptied source.
use hivesync.Prelude.{◌+◌, ◌*◌, ◌≤◌, ◌<◌, ◌≡◌, length, [], ◌++◌}
use hivesync.Parsers.{DryRunLog, copies, removals}
use hivesync.Engines.Plan.{empty_plan, deleted_count, new_count, updated_count, error_count}
use hivesync.Engines.Rclone.{resolve_max_delete}
use hivesync.Engines.Brake.{resolve_max_delete_bounds}
use hivesync.Engines.Reconcile.{paths_of, reconcile}
use hivesync.Engines.Reconcile.Counts.{distinct_from, reconcile_counts}
use hivesync.Examples.{wipe_log, wipe_presence}

resolve_max_delete_bounds_example :
    (1 ≤ resolve_max_delete 50 3)
    × (3 * 50 ≤ 100 * resolve_max_delete 50 3)
    × (1 < resolve_max_delete 50 3 → 100 * resolve_max_delete 50 3 < 3 * 50 + 100)
    × (resolve_max_delete 50 0 ≡ 1)
resolve_max_delete_bounds_example = resolve_max_delete_bounds 50 3

abbrev doubled_log : DryRunLog
doubled_log = record wipe_log { operations = wipe_log.operations ++ wipe_log.operations }

reconcile_counts_example :
    let plan = reconcile empty_plan wipe_presence doubled_log in
    (new_count plan + updated_count plan ≡ distinct_from [] (paths_of (copies doubled_log)))
    × (deleted_count plan ≡ distinct_from [] (paths_of (removals doubled_log)))
    × (error_count plan ≡ length plan.errors + length wipe_presence.errored)
reconcile_counts_example = reconcile_counts wipe_presence doubled_log
