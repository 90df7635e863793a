-- ===== src/Runner/Plan.antt =====
-- `RcloneEngine.plan`, `_run_phases` and `_add_warnings` of app/engines/rclone.py: the plan of a
-- one way run, from what rclone's two planning processes answer.
use hivesync.Prelude.{
  ◌≡◌, arith, Bool, true, false, not, ◌&&◌, ◌||◌, none, some, List, [], ◌∷◌, ◌++◌, Text, ltb, ◌==◌,
  if◌then◌else◌, length,
}
use hivesync.Models.{
  Connection, Job, is_bidirectional, CompareMode, size_only, ExitCode, exited, is_zero, Warning,
  over_brake, compares_size_only, not_probed, no_shared_hash, stopped_planning, not_compared,
  Message, wrong_engine, config_error, compare_failed, checksum_not_shared, plan_failed,
}
use hivesync.Parsers.{PresenceReport, DryRunLog}
use hivesync.Engines.Plan.{Plan, empty_plan, deleted_count}
use hivesync.Engines.Rclone.{resolve_max_delete, endpoints_and_paths, comparison_args, shares}
use hivesync.Engines.Reconcile.{reconcile}
use hivesync.Runner.State.{World, Prepared, specs, not_prepared}

abbrev warning_if : Bool → Warning → List Warning
warning_if true w = w ∷ []
warning_if false w = []

abbrev is_size_only : CompareMode → Bool
is_size_only size_only = true
is_size_only _ = false

abbrev name_unless : Connection → List Text
name_unless c = if c.probed then [] else c.name ∷ []

unfoldable pub comparison_warnings : Job → Connection → Connection → List Warning
comparison_warnings job source dest =
    if is_size_only job.compare_mode
    then compares_size_only ∷ []
    else if not source.probed || not dest.probed
    then not_probed (name_unless source ++ name_unless dest) ∷ []
    else if shares source.hashes dest.hashes
    then []
    else no_shared_hash ∷ []

unfoldable pub add_warnings : Plan → Job → PresenceReport → Connection → Connection → Plan
unfolding comparison_warnings resolve_max_delete deleted_count
add_warnings plan job presence source dest =
    let threshold = resolve_max_delete job.max_delete_pct plan.dest_file_count in
    let errored = length presence.errored in
    record plan {
      warnings =
          plan.warnings
          ++ (warning_if (ltb threshold (deleted_count plan))
                (over_brake (deleted_count plan) job.max_delete_pct plan.dest_file_count threshold)
              ++ (comparison_warnings job source dest
                  ++ (warning_if plan.truncated stopped_planning
                      ++ warning_if (ltb 0 errored) (not_compared errored))));
    }

pub data Planned : Type 0 where
  planned : Plan → Planned
  engine_error : Message → Planned

-- `check` exits with 1 when it finds differences.
abbrev compared : ExitCode → Bool
compared (exited n) = (n == 0) || (n == 1)
compared _ = false

abbrev is_nil : {A : Type 0} → List A → Bool
is_nil [] = true
is_nil (x ∷ xs) = false

abbrev nothing_read : DryRunLog → Bool
nothing_read dry = is_nil dry.operations && is_nil dry.errors

unfoldable pub run_phases : World → Job → Planned
unfolding add_warnings comparison_args endpoints_and_paths
run_phases w job =
    let (source, dest, _, _) = endpoints_and_paths job in
    if not (compared w.check_exit)
    then engine_error (compare_failed w.check_failure)
    else elim (comparison_args job) [
      | none ↦ engine_error checksum_not_shared
      | some _ ↦
          if not (is_zero w.dry_exit) && nothing_read w.dry_log
          then engine_error (plan_failed w.dry_failure)
          else planned
              (add_warnings (reconcile empty_plan w.presence w.dry_log) job w.presence source dest)
    ]

abbrev with_specs : World → Job → Prepared → Planned
with_specs w job (not_prepared why) = engine_error (config_error why)
with_specs w job (specs src dst) = run_phases w job

unfoldable pub plan_one_way : World → Job → Planned
unfolding run_phases
plan_one_way w job =
    if is_bidirectional job.direction
    then engine_error wrong_engine
    else with_specs w job w.prepared

-- A plan's warnings do not change its counts.
pub record SameCounts (plan : Plan) (w : World) : Type 0 where
  pub same_changes : plan.changes ≡ (reconcile empty_plan w.presence w.dry_log).changes
  pub same_files :
      plan.dest_file_count ≡ (reconcile empty_plan w.presence w.dry_log).dest_file_count

-- A plan that is made has the changes of the dry run and the file count of the presence report.
pub plan_one_way-SameCounts :
    (w : World) (job : Job) {plan : Plan} → plan_one_way w job ≡ planned plan → SameCounts plan w
unfolding plan_one_way
plan_one_way-SameCounts w job h = ground arith
