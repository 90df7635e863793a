-- ===== src/Runner/OneWay.antt =====
-- `_execute_one_way` and `_preflight` of app/jobs/runner.py.
use hivesync.Prelude.{
  ℕ, Bool, not, ◌&&◌, Option, none, some, List, [], ◌∷◌, Text, codes, strip, non_empty, ltb,
  if◌then◌else◌,
}
use hivesync.Models.{
  Connection, Job, JobRun, is_local, is_archive, ChangeSide, config_error, checksum_not_shared,
  sentinel_missing, too_many_deletions, archive_refused,
}
use hivesync.Engines.Plan.{Plan, deleted_count}
use hivesync.Engines.Rclone.{resolve_max_delete, endpoints_and_paths, build_sync_command}
use hivesync.Parsers.{empty_log}
use hivesync.Archive
use hivesync.Archive.{ArchivePlan, Outcome, sync_args, strip_remote}
use hivesync.Runner.State.{
  Exec, ◌>>=◌, ◌>>◌, pure, raise, emit, spawn, commit_run, brake_engaged, Refusal, error, Event,
  archiving_to, syncing, World, Prepared, specs, not_prepared,
}
use hivesync.Runner.Absorb.{consume}
use hivesync.Runner.Record.{record_run}
use hivesync.Runner.Plan.{Planned, planned, engine_error, plan_one_way}

-- `(source.sentinel_file or "").strip()`
abbrev pub sentinel_of : Connection → Text
sentinel_of c = elim c.sentinel_file [ none ↦ [] | some s ↦ strip s ]

-- `source.base_path or "/"`
abbrev pub root_of : Connection → Text
root_of c = if non_empty c.base_path then c.base_path else codes "/"

abbrev pub sentinel_gone : World → Connection → Bool
sentinel_gone w c =
    non_empty (sentinel_of c) && is_local c.type && not (w.exists (root_of c) (sentinel_of c))

-- `BrakeEngaged` for a missing sentinel file, and for too many deletions.
unfoldable pub sentinel_refusal : Connection → Refusal
sentinel_refusal source = record {
  message = sentinel_missing (sentinel_of source) source.name;
  deletions = none;
  changes = [];
  plan = none;
  threshold = none;
}

unfoldable pub brake_refusal : Job → Plan → ℕ → Refusal
unfolding deleted_count
brake_refusal job plan threshold = record {
  message =
      too_many_deletions (deleted_count plan) job.max_delete_pct threshold plan.dest_file_count;
  deletions = some (deleted_count plan);
  changes = plan.changes;
  plan = some plan;
  threshold = some threshold;
}

unfoldable pub preflight : World → Job → Plan → ℕ → Exec (Unit {0})
preflight w job plan threshold =
    let source = (endpoints_and_paths job).0 in
    if sentinel_gone w source
    then raise (brake_engaged (sentinel_refusal source))
    else if ltb threshold (deleted_count plan)
    then raise (brake_engaged (brake_refusal job plan threshold))
    else pure tt

abbrev pub threshold_for : Option ℕ → ℕ → ℕ → ℕ
threshold_for none pct files = resolve_max_delete pct files
threshold_for (some approved) pct files = approved

abbrev pub lift_archive : {A : Type 0} → Outcome A → Exec A
lift_archive (Outcome.done a) = pure a
lift_archive (Outcome.raised e) = raise (error (archive_refused e))

-- The archive's place is stored before the sync starts.
unfoldable pub archive_flags : World → Job → Text → Exec (List Text)
archive_flags w job destination =
    if is_archive job.delete_mode
    then (do
      plan ← lift_archive (Archive.plan_for job destination w.stamp)
      commit_run (λ run. record run {
        archive_dirs = some ((ChangeSide.dest, strip_remote plan.backup_dir) ∷ []);
      })
      emit (archiving_to plan.backup_dir)
      pure (sync_args plan))
    else pure []

abbrev pub lift_specs : Prepared → Exec (Text × Text)
lift_specs (specs src dst) = pure (src, dst)
lift_specs (not_prepared why) = raise (error (config_error why))

abbrev pub lift_command : Option (List Text) → Exec (List Text)
lift_command none = raise (error checksum_not_shared)
lift_command (some argv) = pure argv

unfoldable pub emit_all : List Event → Exec (Unit {0})
emit_all [] = pure tt
emit_all (e ∷ es) = do emit e; emit_all es

-- The sync itself, from the start of the process to the record of the run.
unfoldable pub run_sync : World → Plan → ℕ → List Text → Exec (Unit {0})
unfolding emit_all
run_sync w plan threshold argv = do
  spawn (w.argv argv)
  commit_run (λ run. record run { command_redacted = some w.command_line })
  emit syncing
  emit_all (consume empty_log w.output).1
  record_run w plan (consume empty_log w.output).0 threshold

-- From the prepared endpoints to the record of the run.
unfoldable pub sync_one_way : World → Job → Plan → ℕ → Text × Text → Exec (Unit {0})
unfolding archive_flags run_sync
sync_one_way w job plan threshold (src, dst) = do
  archive ← archive_flags w job dst
  argv ← lift_command (build_sync_command job src dst threshold archive)
  run_sync w plan threshold argv

-- What follows the plan: the pre-flight, and the sync if that passes.
unfoldable pub checked : World → Job → Plan → ℕ → Exec (Unit {0})
checked w job plan threshold = do
  preflight w job plan threshold
  endpoints ← lift_specs w.prepared
  sync_one_way w job plan threshold endpoints

abbrev pub after_plan : World → JobRun → Job → Planned → Exec (Unit {0})
after_plan w run job (engine_error m) = raise (error m)
after_plan w run job (planned plan) =
    checked w job plan (threshold_for run.forced_max_delete job.max_delete_pct plan.dest_file_count)

unfoldable pub execute_one_way : World → JobRun → Job → Exec (Unit {0})
execute_one_way w run job = after_plan w run job (plan_one_way w job)
