-- ===== src/Runner/RunNow.antt =====
-- `LiveRunner.run_now` of app/jobs/runner.py, with `_notify` and `_prune_quiet_cycle`; the rule for
-- notifications is `should_notify` of app/notify.py.
use hivesync.Prelude.{
  ◌≡◌, refl, ap, arith, drop, length, ◌-◌, ℕ, Bool, true, false, not, ◌&&◌, ◌||◌, Option, none,
  some, List, [], ◌∷◌, ◌==◌, if◌then◌else◌,
}
use hivesync.Models.{
  Job, JobRun, is_bidirectional, NotifyOn, never, failure_only, always, RunStatus, running, failed,
  cancelled, is_active, is_success, job_was_deleted,
}
use hivesync.Runner.State.{
  Exec, Returned, returned, raised, brake_engaged, error, RunSession, Effect, committed, emitted,
  spawned, notified, pruned, released, planning, refused, failed_with, World,
}
use hivesync.Runner.Record.{fail_row, refuse_row}
use hivesync.Runner.OneWay.{execute_one_way}
use hivesync.Runner.Bisync.{execute_bisync}

unfoldable pub execute : World → JobRun → Job → Exec (Unit {0})
execute w run job =
    if is_bidirectional job.direction then execute_bisync w run job else execute_one_way w run job

-- The row when the run starts.
unfoldable pub started : World → JobRun → JobRun
started w run = record run { status = running; started_at = some w.started_at }

-- The `except` clauses of `run_now`.
unfoldable pub handled : World → Returned (Unit {0}) × RunSession → RunSession
unfolding fail_row refuse_row
handled w (returned _, s) = s
handled w (raised (brake_engaged r), s) =
    let row = refuse_row w s.job r s.run in
    record s { run = row; effects = emitted (refused r.message) ∷ committed row ∷ s.effects }
handled w (raised (error m), s) =
    let row = fail_row w m s.run in
    record s { run = row; effects = emitted (failed_with m) ∷ committed row ∷ s.effects }

abbrev pub is_failure : RunStatus → Bool
is_failure failed = true
is_failure cancelled = true
is_failure _ = false

abbrev pub should_notify : NotifyOn → RunStatus → Bool
should_notify never status = false
should_notify always status = true
should_notify failure_only status = is_failure status

unfoldable pub notify : World → RunSession → RunSession
notify w s =
    if should_notify s.job.notify_on s.run.status && w.notify_configured
    then record s { effects = notified s.run.status ∷ s.effects }
    else s

-- `run.files_transferred or run.files_deleted or run.errors_count`
abbrev pub moved_something : JobRun → Bool
moved_something run =
    not (run.files_transferred == 0) || not (run.files_deleted == 0) || not (run.errors_count == 0)

abbrev pub is_quiet : Job → JobRun → Bool
is_quiet job run = job.continuous && (is_success run.status && not (moved_something run))

-- What is left when the run is over: its row unless it was pruned, the job, and the effects.
pub record Ended : Type 0 where
  pub row : Option JobRun
  pub job : Job
  pub effects : List Effect

unfoldable pub prune_quiet_cycle : World → RunSession → Ended
prune_quiet_cycle w s =
    if is_quiet s.job s.run
    then record {
      row = none;
      job = record s.job { last_checked_at = some w.checked_at };
      effects = pruned ∷ s.effects;
    }
    else record { row = some s.run; job = s.job; effects = s.effects }

-- `finally`: the run is no longer active and its watchers are told.
unfoldable pub release : Ended → Ended
release e = record e { effects = released ∷ e.effects }

-- The session once the run has started.
abbrev pub begin : World → JobRun → Job → RunSession
begin w run job = record {
  run = started w run;
  job = job;
  effects = emitted planning ∷ committed (started w run) ∷ [];
}

-- The row as the database has it after these effects: `none` once it was deleted.
abbrev pub last_stored : JobRun → List Effect → Option JobRun
last_stored found [] = some found
last_stored found (committed row ∷ es) = some row
last_stored found (pruned ∷ es) = none
last_stored found (emitted e ∷ es) = last_stored found es
last_stored found (spawned argv ∷ es) = last_stored found es
last_stored found (notified status ∷ es) = last_stored found es
last_stored found (released ∷ es) = last_stored found es

-- The job's row is written with the last state of the run's row, or not at all.
abbrev pub last_job : Option JobRun → Job → Job → Job
last_job none before after = after
last_job (some row) before after = if is_active row.status then before else after

-- Any other exception, such as an `OSError` of the log file or of the process or one of the decoder
-- of its output: no handler writes to the row, and `_guarded` logs it.
unfoldable pub cut_off : ℕ → JobRun → Job → Ended → Ended
cut_off n run job e =
    let left = drop (length e.effects - n) e.effects in
    let row = last_stored run left in
    record { row = row; job = last_job row job e.job; effects = left }

-- What follows the `try` of `run_now`.
unfoldable pub concluded : World → JobRun → Job → Option ℕ → RunSession → Ended
unfolding prune_quiet_cycle notify cut_off
concluded w run job none s = prune_quiet_cycle w (notify w s)
concluded w run job (some n) s = cut_off n run job (prune_quiet_cycle w (notify w s))

-- `run_now` under `_guarded`.
unfoldable pub run_now : World → JobRun → Job → Ended
unfolding concluded
run_now w run job =
    release
      (concluded w run job w.fault (handled w (execute w (started w run) job (begin w run job))))

concluded-calm :
    (w : World) (run : JobRun) (job : Job) (fault : Option ℕ) (s : RunSession)
    → fault ≡ none
    → concluded w run job fault s ≡ prune_quiet_cycle w (notify w s)
unfolding concluded
concluded-calm w run job none s calm = refl
concluded-calm w run job (some n) s calm = absurd (ground (arith, calm))

-- A run in which nothing else is raised.
pub run_now-calm :
    (w : World) (run : JobRun) (job : Job)
    → w.fault ≡ none
    → run_now w run job
      ≡ release (
          prune_quiet_cycle w
            (notify w (handled w (execute w (started w run) job (begin w run job)))))
unfolding run_now
run_now-calm w run job calm = ap release (concluded-calm w run job w.fault _ calm)

-- The job was deleted before the run started.
unfoldable pub run_orphan : World → JobRun → JobRun
run_orphan w run = fail_row w job_was_deleted run
