-- ===== src/Watcher/Interval.antt =====
-- The interval of a continuous job, in app/jobs/watcher.py.
use hivesync.Prelude.{ℕ, zero, suc, ◌*◌, ◌≤◌, ◌≡◌, Bool, true, false, not, ◌&&◌, min, arith}
use hivesync.Models.{Job, JobRun}
use hivesync.Runner.RunNow.{is_quiet}
use hivesync.Watcher.{WatchState, floor_of, ceiling_of, next_interval, should_keep}

-- Whatever the state was, the next interval is at least the floor, which is at least five seconds,
-- and at most the ceiling, which is the idle interval unless the floor is above it.
pub next_interval_bounds :
    (job : Job) (state : WatchState) (changed : Bool)
    → (5 ≤ floor_of job)
      × (floor_of job ≤ (next_interval job state changed).interval)
      × ((next_interval job state changed).interval ≤ ceiling_of job)
unfolding next_interval
next_interval_bounds job state changed = grind arith

-- `floor * 2 ** k`
abbrev pub doubled : ℕ → ℕ → ℕ
doubled zero floor = floor
doubled (suc k) floor = doubled k floor * 2

-- `k` cycles that changed nothing, one after the other.
unfoldable pub quiet_for : ℕ → Job → WatchState → WatchState
quiet_for zero job state = state
quiet_for (suc k) job state = next_interval job (quiet_for k job state) false

doubled-floor : (k floor : ℕ) → floor ≤ doubled k floor
doubled-floor zero floor = omega arith
doubled-floor (suc k) floor = omega (arith, doubled-floor k floor)

-- After a cycle that changed something and then `k` that changed nothing, whatever the state was
-- before: the interval is the floor doubled `k` times, cut at the ceiling, and the quiet cycles are
-- counted.
pub quiet_for_closed :
    (k : ℕ) (job : Job) (state : WatchState)
    → let after = quiet_for k job (next_interval job state true) in
      (after.interval ≡ min (ceiling_of job) (doubled k (floor_of job)))
      × (after.consecutive_quiet ≡ k)
unfolding quiet_for next_interval
quiet_for_closed zero job state = grind arith
quiet_for_closed (suc k) job state =
    grind (arith, quiet_for_closed k job state, doubled-floor k (floor_of job))

-- A finished run of a continuous job is pruned by the runner exactly when the watcher's test says
-- that it is not worth keeping, and a run of another job is never pruned.
pub should_keep-is_quiet :
    (job : Job) (run : JobRun) → is_quiet job run ≡ job.continuous && not (should_keep run)
unfolding should_keep
should_keep-is_quiet job run = ground arith
