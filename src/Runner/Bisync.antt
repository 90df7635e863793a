-- ===== src/Runner/Bisync.antt =====
-- `_execute_bisync` and `_bisync_preflight` of app/jobs/runner.py.
use hivesync.Prelude.{
  ℕ, ◌+◌, Bool, true, false, not, ◌&&◌, ◌||◌, Option, none, some, List, [], ◌∷◌, Text, leb,
  if◌then◌else◌,
}
use hivesync.Models.{
  Job, JobRun, source, dest, RunTrigger, schedule, is_archive, is_zero, no_first_sync,
  needs_first_sync, rclone_refused,
}
use hivesync.Parsers.{DryRunLog, empty_log}
use hivesync.Engines.Bisync.{build_bisync_command, workdir_for}
use hivesync.Archive
use hivesync.Archive.{bisync_args, strip_remote}
use hivesync.Runner.State.{
  Exec, ◌>>=◌, ◌>>◌, pure, raise, emit, spawn, commit_run, brake_engaged, World, BisyncDeltas,
  BisyncReport, resyncing, syncing_both_ways, needs_sync, reconciled, returned, committed, emitted,
}
use hivesync.Runner.Absorb.{consume}
use hivesync.Runner.Record.{fail_row}
use hivesync.Runner.BisyncRecord.{recorded_bisync}
use hivesync.Runner.OneWay.{lift_archive, lift_specs, lift_command, emit_all}

abbrev pub total_deleted : BisyncDeltas → ℕ
total_deleted d = d.path1_deleted + d.path2_deleted

abbrev pub total_changes : BisyncDeltas → ℕ
total_changes d =
    d.path1_new + d.path1_modified + d.path1_deleted + d.path2_new + d.path2_modified
    + d.path2_deleted

abbrev pub is_scheduled : RunTrigger → Bool
is_scheduled schedule = true
is_scheduled _ = false

abbrev pub is_some : Option ℕ → Bool
is_some none = false
is_some (some n) = true

-- `approved is not None and total_deleted <= approved`
abbrev pub approves : Option ℕ → BisyncDeltas → Bool
approves none d = false
approves (some approved) d = leb (total_deleted d) approved

abbrev veto : BisyncReport → Exec (Unit {0})
veto report = elim report.deltas.safety_abort [
  | none ↦ pure tt
  | some reason ↦ raise (
      brake_engaged (record {
        message = rclone_refused reason;
        deletions = some (total_deleted report.deltas);
        changes = report.changes;
        plan = none;
        threshold = none;
      }))
]

unfoldable pub bisync_preflight : World → Job → JobRun → Exec (Unit {0})
bisync_preflight w job run =
    if w.bisync_dry.needs_resync || approves run.forced_max_delete w.bisync_dry.deltas
    then pure tt
    else veto w.bisync_dry

-- The pre-flight of a run that is no resync, whose command is a dry run.
unfoldable pub checked_first : World → Job → JobRun → Text × Text → Exec (Unit {0})
unfolding bisync_preflight build_bisync_command
checked_first w job run (first, second) = if run.is_resync then pure tt else do
  _ ← lift_command (
      build_bisync_command job first second (workdir_for w.bisync_dir job.id) false true false false
        [])
  bisync_preflight w job run

unfoldable pub bisync_archive : World → Job → Text × Text → Exec (List Text)
bisync_archive w job (first, second) =
    if is_archive job.delete_mode
    then (do
      plan1 ← lift_archive (Archive.plan_for job first w.stamp)
      plan2 ← lift_archive (Archive.plan_for job second w.stamp)
      commit_run (λ run. record run {
        archive_dirs =
            some (
              (source, strip_remote plan1.backup_dir) ∷ (dest, strip_remote plan2.backup_dir) ∷ []);
      })
      pure (bisync_args plan1 plan2))
    else pure []

unfoldable pub set_initialized : Bool → Exec (Unit {0})
set_initialized value s = (
  returned tt,
  record s {
    job = record s.job { bisync_initialized = value };
    effects = committed s.run ∷ s.effects;
  },
)

unfoldable pub finish_bisync : World → DryRunLog → Exec (Unit {0})
unfolding recorded_bisync
finish_bisync w observed s =
    let row = recorded_bisync w s.job observed s.run in
    (
      returned tt,
      record s {
        run = row;
        effects =
            emitted (reconciled row.status (total_changes w.bisync_run.deltas))
            ∷ committed row
            ∷ s.effects;
      },
    )

-- What the output of the run leads to.
unfoldable pub after_bisync : World → Job → JobRun → DryRunLog → Exec (Unit {0})
unfolding set_initialized finish_bisync fail_row
after_bisync w job run observed =
    if w.bisync_run.needs_resync
    then (do
      set_initialized false
      commit_run (fail_row w (needs_first_sync job.name))
      emit needs_sync)
    else elim w.bisync_run.deltas.safety_abort [
      | some reason ↦ commit_run (fail_row w (rclone_refused reason))
      | none ↦
          if run.is_resync && is_zero w.exit_code
          then (do set_initialized true; finish_bisync w observed)
          else finish_bisync w observed
    ]

unfoldable pub run_bisync : World → JobRun → Job → Text × Text → Exec (Unit {0})
unfolding bisync_archive checked_first after_bisync
run_bisync w run job (first, second) = do
  checked_first w job run (first, second)
  archive ← bisync_archive w job (first, second)
  argv ← lift_command (
      build_bisync_command job first second (workdir_for w.bisync_dir job.id) run.is_resync false
        (is_some run.forced_max_delete) (is_scheduled run.trigger) archive)
  spawn (w.argv argv)
  commit_run (λ row. record row { command_redacted = some w.command_line })
  emit (if run.is_resync then resyncing else syncing_both_ways)
  let (observed, events) = consume empty_log w.output
  emit_all events
  after_bisync w job run observed

unfoldable pub execute_bisync : World → JobRun → Job → Exec (Unit {0})
unfolding run_bisync
execute_bisync w run job =
    if not job.bisync_initialized && not run.is_resync
    then raise (
        brake_engaged (record {
          message = no_first_sync job.name;
          deletions = none;
          changes = [];
          plan = none;
          threshold = none;
        }))
    else do endpoints ← lift_specs w.prepared; run_bisync w run job endpoints
