-- ===== src/Runner/Ends.antt =====
-- The end of a run: `run_now` of app/jobs/runner.py and its error handlers.
use hivesync.Prelude.{
  Option-cases, ◌&&◌, Bool-cases, ℕ, ◌≡◌, refl, ◌⊎◌, inl, inr, false, true, not, none, some, List,
  ◌∷◌, Text, arith,
}
use hivesync.Models.{Job, JobRun, RunStatus, is_active, is_bidirectional}
use hivesync.Engines.Plan.{Plan}
use hivesync.Engines.Rclone.{build_sync_command}
use hivesync.Engines.Bisync.{build_bisync_command, workdir_for}
use hivesync.Runner.Absorb.{consume}
use hivesync.Parsers.{DryRunLog, empty_log}
use hivesync.Runner.State.{
  World, RunSession, Exec, continue, ◌>>=◌, Returned, returned, raised, brake_engaged, error,
  Effect, released,
}
use hivesync.Runner.Record.{recorded, record_run, final_status}
use hivesync.Runner.BisyncRecord.{recorded_bisync}
use hivesync.Runner.Bisync.{
  checked_first, bisync_archive, is_some, is_scheduled, after_bisync, run_bisync, execute_bisync,
}
use hivesync.Runner.Plan.{Planned, planned, engine_error, plan_one_way}
use hivesync.Runner.OneWay.{
  emit_all, archive_flags, lift_command, lift_specs, preflight, run_sync, sync_one_way, checked,
  after_plan, execute_one_way,
}
use hivesync.Runner.RunNow.{
  concluded, execute, handled, is_quiet, notify, prune_quiet_cycle, release, run_now, run_now-calm,
  begin, started, Ended,
}

-- A run that is over: neither queued nor running, with its end stored.
abbrev pub IsOver : World → JobRun → Type 0
IsOver w run = (is_active run.status ≡ false) × (run.finished_at ≡ some w.finished_at)

-- A step that returns leaves the run over; one that raises leaves that to the handler.
abbrev OverOnReturn : World → Returned (Unit {0}) × RunSession → Type 0
OverOnReturn w (returned x, s) = IsOver w s.run
OverOnReturn w (raised e, s) = Unit

abbrev AlwaysOver : World → Exec (Unit {0}) → Type 0
AlwaysOver w m = (s : RunSession) → OverOnReturn w (m s)

continue-Over :
    {A : Type 0} (w : World) (r : Returned A) (k : A → Exec (Unit {0})) (s : RunSession)
    → ((a : A) → AlwaysOver w (k a))
    → OverOnReturn w (continue r k s)
continue-Over w (returned a) k s over = over a s
continue-Over w (raised e) k s over = tt

bind-Over :
    {A : Type 0} (w : World) (m : Exec A) (k : A → Exec (Unit {0}))
    → ((a : A) → AlwaysOver w (k a))
    → AlwaysOver w (m >>= k)
bind-Over w m k over s = continue-Over w (m s).0 k (m s).1 over

final-not_active :
    (status : RunStatus) (w : World) → is_active (final_status status w.exit_code) ≡ false
unfolding final_status
final-not_active status w = ground arith

record_run-Over :
    (w : World) (plan : Plan) (observed : DryRunLog) (threshold : ℕ)
    → AlwaysOver w (record_run w plan observed threshold)
unfolding record_run recorded
record_run-Over w plan observed threshold s = (final-not_active s.run.status w, refl)

run_sync-Over :
    (w : World) (plan : Plan) (threshold : ℕ) (argv : List Text)
    → AlwaysOver w (run_sync w plan threshold argv)
unfolding run_sync
run_sync-Over w plan threshold argv s =
    bind-Over w (emit_all (consume empty_log w.output).1) _
      (λ _. record_run-Over w plan (consume empty_log w.output).0 threshold) _

sync_one_way-Over :
    (w : World) (job : Job) (plan : Plan) (threshold : ℕ) (ends : Text × Text)
    → AlwaysOver w (sync_one_way w job plan threshold ends)
unfolding sync_one_way
sync_one_way-Over w job plan threshold (src, dst) =
    bind-Over w (archive_flags w job dst) _ λ archive.
      bind-Over w (lift_command (build_sync_command job src dst threshold archive)) _
        (run_sync-Over w plan threshold)

checked-Over :
    (w : World) (job : Job) (plan : Plan) (threshold : ℕ)
    → AlwaysOver w (checked w job plan threshold)
unfolding checked
checked-Over w job plan threshold =
    bind-Over w (preflight w job plan threshold) _
      λ _. bind-Over w (lift_specs w.prepared) _ (sync_one_way-Over w job plan threshold)

execute_one_way-Over :
    (w : World) (run : JobRun) (job : Job) → AlwaysOver w (execute_one_way w run job)
unfolding execute_one_way
execute_one_way-Over w run job s = over (plan_one_way w job) s
  where
    over : (p : Planned) → AlwaysOver w (after_plan w run job p)
    over (engine_error m) s = tt
    over (planned plan) s = checked-Over w job plan _ s

after_bisync-Over :
    (w : World) (run : JobRun) (job : Job) (observed : DryRunLog)
    → AlwaysOver w (after_bisync w job run observed)
unfolding after_bisync recorded_bisync
after_bisync-Over w run job observed s = ground (arith, final-not_active s.run.status w)

run_bisync-Over :
    (w : World) (run : JobRun) (job : Job) (ends : Text × Text)
    → AlwaysOver w (run_bisync w run job ends)
unfolding run_bisync
run_bisync-Over w run job (first, second) =
    bind-Over w (checked_first w job run (first, second)) _ λ _.
      bind-Over w (bisync_archive w job (first, second)) _ λ archive.
        bind-Over w
          (lift_command (
            build_bisync_command job first second (workdir_for w.bisync_dir job.id) run.is_resync
              false (is_some run.forced_max_delete) (is_scheduled run.trigger) archive))
          _
          λ argv s.
            bind-Over w (emit_all (consume empty_log w.output).1) _
              (λ _. after_bisync-Over w run job (consume empty_log w.output).0) _

execute_bisync-Over :
    (w : World) (run : JobRun) (job : Job) → AlwaysOver w (execute_bisync w run job)
unfolding execute_bisync
execute_bisync-Over w run job s =
    elim (Bool-cases (not job.bisync_initialized && not run.is_resync)) [
      | inl refused ↦ rw refused tt
      | inr allowed ↦ rw allowed (continue-Over w _ _ _ (run_bisync-Over w run job))
    ]

handled-Over :
    (w : World) (r : Returned (Unit {0})) (s : RunSession)
    → OverOnReturn w (r, s)
    → IsOver w (handled w (r, s)).run
unfolding handled
handled-Over w (returned x) s h = h
handled-Over w (raised (brake_engaged r)) s h = (refl, refl)
handled-Over w (raised (error m)) s h = (refl, refl)

-- How a run ends: with its row over, or with the row pruned, which happens to a quiet cycle of a
-- continuous job only and leaves the proof of life.
abbrev pub EndsWell : World → Ended → Type 0
EndsWell w e =
    ((row : JobRun) × (e.row ≡ some row) × IsOver w row)
    ⊎ ((e.row ≡ none) × (e.job.continuous ≡ true) × (e.job.last_checked_at ≡ some w.checked_at))

prune-cases :
    (w : World) (s : RunSession) → IsOver w s.run → EndsWell w (release (prune_quiet_cycle w s))
unfolding release prune_quiet_cycle
prune-cases w s over = elim (Bool-cases (is_quiet s.job s.run)) [
  | inl quiet ↦ inr (ground arith, ground arith, ground arith)
  | inr kept ↦ inl (s.run, ground arith, over)
]

same-notify : (w : World) (s : RunSession) → ((notify w s).run ≡ s.run) × ((notify w s).job ≡ s.job)
unfolding notify
same-notify w s = ground arith

prune-EndsWell :
    (w : World) (s : RunSession)
    → IsOver w s.run
    → EndsWell w (release (prune_quiet_cycle w (notify w s)))
prune-EndsWell w s over = prune-cases w (notify w s) (rw (same-notify w s).0 over)

execute-Over : (w : World) (run : JobRun) (job : Job) → AlwaysOver w (execute w run job)
unfolding execute
execute-Over w run job s = elim (Bool-cases (is_bidirectional job.direction)) [
  | inl both ↦ rw both (execute_bisync-Over w run job s)
  | inr one_way ↦ rw one_way (execute_one_way-Over w run job s)
]

-- A run in which nothing is raised but what `run_now` catches.
pub calm-EndsWell :
    (w : World) (run : JobRun) (job : Job) → w.fault ≡ none → EndsWell w (run_now w run job)
calm-EndsWell w run job calm =
    let r = execute w (started w run) job (begin w run job) in
    rw (run_now-calm w run job calm) (
      prune-EndsWell w (handled w r)
        (handled-Over w r.0 r.1 (execute-Over w (started w run) job (begin w run job))))

-- Every run ends well, unless it was ended by an exception that `run_now` does not catch, whatever
-- the world answers and whichever way the job goes: its row is neither queued nor running and has
-- its time of end, or it was pruned as a quiet cycle of a continuous job, whose time of the last
-- check is then stored. Its watchers are told last of all, also where such an exception ended it.
pub run_now-EndsWell :
    (w : World) (run : JobRun) (job : Job)
    → (EndsWell w (run_now w run job) ⊎ ((n : ℕ) × (w.fault ≡ some n)))
      × ((rest : List Effect) × ((run_now w run job).effects ≡ released ∷ rest))
unfolding run_now release
run_now-EndsWell w run job =
    let r = execute w (started w run) job (begin w run job) in
    (
      elim (Option-cases w.fault) [
        | inl calm ↦ inl (calm-EndsWell w run job calm)
        | inr uncaught ↦ inr uncaught
      ],
      ((concluded w run job w.fault (handled w r)).effects, refl),
    )
