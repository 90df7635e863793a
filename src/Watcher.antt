-- ===== src/Watcher.antt =====
-- app/jobs/watcher.py: continuous jobs, started again and again at an interval that widens while
-- nothing happens. A tick is one step on the watcher's three dicts, the run table and the jobs;
-- `moment` is the monotonic clock and `clock` is `utcnow`.
pub mod Interval
pub mod Ticks
use hivesync.Prelude.{
  ℕ, zero, suc, ◌+◌, ◌*◌, Bool, true, false, not, ◌&&◌, ◌||◌, Option, none, some, List, [], ◌∷◌,
  ◌++◌, ltb, leb, ◌==◌, if◌then◌else◌, min, max, keep, any,
}
use hivesync.Prelude.Dict.{Dict, get, put, pop}
use hivesync.Models.{Job, JobRun, schedule, live, is_success}
use hivesync.Planner.{Db, create_run}

pub record WatchState : Type 0 where
  pub interval : ℕ
  pub consecutive_quiet : ℕ

abbrev pub floor_of : Job → ℕ
floor_of job = max 5 job.continuous_interval_seconds

abbrev pub ceiling_of : Job → ℕ
ceiling_of job = max (floor_of job) job.continuous_idle_interval_seconds

unfoldable pub next_interval : Job → WatchState → Bool → WatchState
next_interval job state changed =
    if changed then record { interval = floor_of job; consecutive_quiet = 0 } else record {
      interval = min (ceiling_of job) (max (floor_of job) (state.interval * 2));
      consecutive_quiet = suc state.consecutive_quiet;
    }

unfoldable pub should_keep : JobRun → Bool
should_keep run =
    if not (is_success run.status)
    then true
    else not (run.files_transferred == 0)
      || not (run.files_deleted == 0)
      || not (run.errors_count == 0)

pub record Watch : Type 0 where
  pub states : Dict WatchState
  pub due : Dict ℕ
  pub cycle_started : Dict ℕ

-- `d.setdefault(k, v)`: the value that is there afterwards.
abbrev pub or_default : {V : Type 0} → Option V → V → V
or_default none v = v
or_default (some u) v = u

abbrev pub forget : ℕ → Watch → Watch
forget job_id w = record {
  states = pop job_id w.states;
  due = pop job_id w.due;
  cycle_started = pop job_id w.cycle_started;
}

-- The jobs in `states` that are no longer continuous and enabled are forgotten.
abbrev pub forget_stale : Dict WatchState → List Job → Watch → Watch
forget_stale [] jobs w = w
forget_stale ((job_id, state) ∷ states) jobs w =
    let rest = forget_stale states jobs w in
    if any (λ job. job.id == job_id) jobs then rest else forget job_id rest

abbrev finished_since : ℕ → Option ℕ → Bool
finished_since since none = false
finished_since since (some at) = leb since at

-- `_changed_since`: a run of the job that finished since then is in the table.
abbrev pub changed_since : Db → Job → Option ℕ → Bool
changed_since db job none = false
changed_since db job (some since) =
    any (λ run. (run.job_id == job.id) && finished_since since run.finished_at) db.runs

-- What a tick works on: the dicts, the table, and the run ids that it handed to the runner.
pub record Cycle : Type 0 where
  pub watch : Watch
  pub db : Db
  pub jobs : List Job
  pub started : List ℕ

-- `_start`: a conflict leaves everything as it was.
unfoldable pub start : ℕ → Job → Cycle → Cycle
start clock job c = elim (create_run c.db job.id schedule live) [
  | none ↦ record c { jobs = c.jobs ++ job ∷ [] }
  | some (run, db) ↦ record c {
    db = db;
    jobs = c.jobs ++ record job { last_checked_at = some clock } ∷ [];
    started = c.started ++ run.id ∷ [];
  }
]

-- One turn of the tick's loop.
unfoldable pub tick_job : ℕ → ℕ → Job → Cycle → Cycle
unfolding next_interval start
tick_job moment clock job c =
    let state =
      or_default (get job.id c.watch.states)
        (record { interval = floor_of job; consecutive_quiet = 0 }) in
    let due_at = or_default (get job.id c.watch.due) moment in
    let changed = changed_since c.db job (get job.id c.watch.cycle_started) in
    let next = next_interval job state changed in
    let waiting = record c {
      watch = record c.watch {
        states = put job.id state c.watch.states;
        due = put job.id due_at c.watch.due;
      };
      jobs = c.jobs ++ job ∷ [];
    } in
    let begun = start clock job (record c {
      watch = record {
        states = put job.id next c.watch.states;
        due = put job.id (moment + next.interval) c.watch.due;
        cycle_started = put job.id clock c.watch.cycle_started;
      };
    }) in
    if ltb moment due_at then waiting else begun

unfoldable pub tick_jobs : ℕ → ℕ → List Job → Cycle → Cycle
unfolding tick_job
tick_jobs moment clock [] c = c
tick_jobs moment clock (job ∷ jobs) c = tick_jobs moment clock jobs (tick_job moment clock job c)

abbrev pub is_watched : Job → Bool
is_watched job = job.continuous && job.enabled

-- `jobs` is the table of the jobs; the tick reads the continuous ones that are enabled.
unfoldable pub tick : ℕ → ℕ → List Job → Watch → Db → Cycle
unfolding tick_jobs
tick moment clock jobs w db =
    let watched = keep is_watched jobs in
    tick_jobs moment clock watched
      (record { watch = forget_stale w.states watched w; db = db; jobs = []; started = [] })
