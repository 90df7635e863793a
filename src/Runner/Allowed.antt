-- ===== src/Runner/Allowed.antt =====
-- The processes that `_execute_one_way` of app/jobs/runner.py starts, with their reasons.
use hivesync.Prelude.{
  ap, none, Option, ℕ, ◌≤◌, ◌≡◌, refl, ◌∙◌, ◌⊎◌, inl, inr, false, some, List, [], ◌∷◌, ◌++◌, Text,
  codes, decimal, Option-cases, arith,
}
use hivesync.Models.{Job, JobRun}
use hivesync.Engines.Plan.{Plan, deleted_count}
use hivesync.Engines.Rclone.{
  endpoints_and_paths, build_sync_command, comparison_args, operation_for, filter_args,
  performance_args, quiet_period_args,
}
use hivesync.Runner.State.{
  World, RunSession, continue, ◌>>=◌, specs, Returned, returned, raised, emitted, committed,
  spawned, syncing,
}
use hivesync.Parsers.{empty_log}
use hivesync.Runner.Absorb.{consume}
use hivesync.Runner.Record.{record_run}
use hivesync.Runner.Plan.{planned, plan_one_way}
use hivesync.Runner.OneWay.{
  lift_command, threshold_for, sentinel_gone, archive_flags, run_sync, sync_one_way,
}
use hivesync.Runner.Effects.{spawns, emit_all-Publishes, emit_all-returned}

archive_flags-spawns :
    (w : World) (job : Job) (dst : Text) (s : RunSession)
    → spawns (archive_flags w job dst s).1.effects ≡ spawns s.effects
unfolding archive_flags
archive_flags-spawns w job dst s = ground arith

-- The flag stands among the arguments with the value behind it.
abbrev pub Carries : Text → Text → List Text → Type 0
Carries flag value args =
    (front : List Text) × (back : List Text) × (args ≡ front ++ flag ∷ value ∷ back)

build_sync_command-Carries :
    (job : Job) (src dst : Text) (n : ℕ) (archive : List Text) (args : List Text)
    → build_sync_command job src dst n archive ≡ some args
    → Carries (codes "--max-delete") (decimal n) args
unfolding build_sync_command
build_sync_command-Carries job src dst n archive args made =
    elim (Option-cases (comparison_args job)) [
      | inl absent ↦ absurd (ground (arith, absent, made))
      | inr (comparison, there) ↦ (
        operation_for job.delete_mode
            ∷ src
            ∷ dst
            ∷ codes "--use-json-log"
            ∷ codes "-v"
            ∷ codes "--stats"
            ∷ codes "5s"
            ∷ codes "--stats-one-line"
            ∷ [],
        archive
            ++ (comparison ++ (filter_args job ++ (performance_args job ++ quiet_period_args job))),
        ground (arith, there, made),
      )
    ]

-- A sync that was started, and why it was allowed: the plan was made, no sentinel file was missing,
-- the plan deletes no more than the threshold, and the command carries that threshold.
pub record Allowed (w : World) (run : JobRun) (job : Job) (argv : List Text) : Type 0 where
  pub plan : Plan
  pub src : Text
  pub dst : Text
  pub archive : List Text
  pub args : List Text
  pub is_planned : plan_one_way w job ≡ planned plan
  pub is_prepared : w.prepared ≡ specs src dst
  pub sentinel_there : sentinel_gone w (endpoints_and_paths job).0 ≡ false
  pub within_brake :
      deleted_count plan
      ≤ threshold_for run.forced_max_delete job.max_delete_pct plan.dest_file_count
  pub command :
      build_sync_command job src dst
        (threshold_for run.forced_max_delete job.max_delete_pct plan.dest_file_count)
        archive
      ≡ some args
  pub carries :
      Carries
        (codes "--max-delete")
        (decimal (threshold_for run.forced_max_delete job.max_delete_pct plan.dest_file_count))
        args
  pub argv_is : argv ≡ w.argv args

run_sync-spawns :
    (w : World) (plan : Plan) (threshold : ℕ) (argv : List Text) (s : RunSession)
    → spawns (run_sync w plan threshold argv s).1.effects ≡ w.argv argv ∷ spawns s.effects
unfolding run_sync record_run
run_sync-spawns w plan threshold argv s =
    let started = record s {
      run = record s.run { command_redacted = some w.command_line };
      effects =
          emitted syncing
          ∷ committed (record s.run { command_redacted = some w.command_line })
          ∷ spawned (w.argv argv)
          ∷ s.effects;
    } in
    let events = (consume empty_log w.output).1 in
    ground
      (arith, emit_all-returned events started, (emit_all-Publishes events started).same_spawns)

-- What one step adds to the started processes: nothing, or one that `P` allows.
abbrev pub AddsAllowed : (List Text → Type 0) → RunSession → RunSession → Type 0
AddsAllowed P s s' =
    (spawns s'.effects ≡ spawns s.effects)
    ⊎ ((argv : List Text) × (spawns s'.effects ≡ argv ∷ spawns s.effects) × P argv)

module _ (w : World) (run : JobRun) (job : Job) (plan : Plan) (src dst : Text) where
  abbrev pub threshold : ℕ
  threshold = threshold_for run.forced_max_delete job.max_delete_pct plan.dest_file_count

  module _ (is_planned : plan_one_way w job ≡ planned plan)
      (is_prepared : w.prepared ≡ specs src dst)
      (sentinel_there : sentinel_gone w (endpoints_and_paths job).0 ≡ false)
      (within_brake : deleted_count plan ≤ threshold) where
    run_command-AddsAllowed :
        (archive : List Text) (command : Option (List Text)) (s s' : RunSession)
        → build_sync_command job src dst threshold archive ≡ command
        → spawns s'.effects ≡ spawns s.effects
        → AddsAllowed
            (Allowed w run job)
            s
            (continue
              (lift_command command s').0
              (run_sync w plan threshold)
              (lift_command command s').1).1
    run_command-AddsAllowed archive none s s' e h = inl h
    run_command-AddsAllowed archive (some args) s s' e h = inr (
      w.argv args,
      run_sync-spawns w plan threshold args s' ∙ ap (λ r. w.argv args ∷ r) h,
      record {
        plan = plan;
        src = src;
        dst = dst;
        archive = archive;
        args = args;
        is_planned = is_planned;
        is_prepared = is_prepared;
        sentinel_there = sentinel_there;
        within_brake = within_brake;
        command = e;
        carries = build_sync_command-Carries job src dst threshold archive args e;
        argv_is = refl;
      },
    )

    sync-AddsAllowed :
        (flags : Returned (List Text)) (s s' : RunSession)
        → spawns s'.effects ≡ spawns s.effects
        → AddsAllowed
            (Allowed w run job)
            s
            (continue flags
              (λ archive.
                lift_command (build_sync_command job src dst threshold archive)
                >>= run_sync w plan threshold)
              s').1
    sync-AddsAllowed (raised e) s s' h = inl h
    sync-AddsAllowed (returned archive) s s' h =
        run_command-AddsAllowed archive (build_sync_command job src dst threshold archive) s s' refl
          h

    pub sync_one_way-AddsAllowed :
        (s : RunSession)
        → AddsAllowed (Allowed w run job) s (sync_one_way w job plan threshold (src, dst) s).1
    unfolding sync_one_way
    sync_one_way-AddsAllowed s =
        sync-AddsAllowed (archive_flags w job dst s).0 s (archive_flags w job dst s).1
          (archive_flags-spawns w job dst s)
