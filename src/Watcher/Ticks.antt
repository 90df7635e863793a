-- ===== src/Watcher/Ticks.antt =====
-- What a tick of app/jobs/watcher.py starts.
use hivesync.Prelude.{
  ℕ, ◌+◌, ◌≤◌, ◌<◌, ◌≡◌, refl, List, [], ◌∷◌, keep, Option-cases, Bool-cases, inl, inr, arith, ltb,
}
use hivesync.Prelude.Dict.{get, put, get-put}
use hivesync.Models.{Job, schedule, live}
use hivesync.Planner.{Db, create_run}
use hivesync.Planner.OneActive.{OneActive, create_run-OneActive}
use hivesync.Watcher.{
  Watch, Cycle, or_default, floor_of, next_interval, changed_since, forget_stale, start, tick_job,
  tick_jobs, tick, is_watched,
}
use hivesync.Watcher.Interval.{next_interval_bounds}

start-OneActive :
    (clock : ℕ) (job : Job) (c : Cycle) → OneActive c.db → OneActive (start clock job c).db
unfolding start
start-OneActive clock job c one = elim (Option-cases (create_run c.db job.id schedule live)) [
  | inl conflict ↦ rw (start, conflict) one
  | inr ((run, db), made) ↦
      rw (start, made) (create_run-OneActive c.db job.id schedule live one made)
]

tick_job-OneActive :
    (moment clock : ℕ) (job : Job) (c : Cycle)
    → OneActive c.db
    → OneActive (tick_job moment clock job c).db
unfolding tick_job
tick_job-OneActive moment clock job c one =
    elim (Bool-cases (ltb moment (or_default (get job.id c.watch.due) moment))) [
      | inl early ↦ rw early one
      | inr due ↦ rw due (start-OneActive clock job _ one)
    ]

tick_jobs-OneActive :
    (moment clock : ℕ) (jobs : List Job) (c : Cycle)
    → OneActive c.db
    → OneActive (tick_jobs moment clock jobs c).db
unfolding tick_jobs
tick_jobs-OneActive moment clock [] c one = one
tick_jobs-OneActive moment clock (job ∷ jobs) c one =
    tick_jobs-OneActive moment clock jobs (tick_job moment clock job c)
      (tick_job-OneActive moment clock job c one)

-- However many jobs are due, a tick leaves no job with two runs that are queued or running, if
-- there was none before.
pub tick-OneActive :
    (moment clock : ℕ) (jobs : List Job) (w : Watch) (db : Db)
    → OneActive db
    → OneActive (tick moment clock jobs w db).db
unfolding tick
tick-OneActive moment clock jobs w db one =
    tick_jobs-OneActive moment clock (keep is_watched jobs)
      (record {
        watch = forget_stale w.states (keep is_watched jobs) w;
        db = db;
        jobs = [];
        started = [];
      })
      one

start-watch : (clock : ℕ) (job : Job) (c : Cycle) → (start clock job c).watch ≡ c.watch
unfolding start
start-watch clock job c = elim (Option-cases (create_run c.db job.id schedule live)) [
  | inl conflict ↦ rw (start, conflict) refl
  | inr ((run, db), made) ↦ rw (start, made) refl
]

-- A job that is due and looked at, whether or not its run could start, is not started again within
-- five seconds, also where the job was edited in between.
pub not_started_early :
    (moment later clock clock' : ℕ) (job job' : Job) (c : Cycle)
    → or_default (get job.id c.watch.due) moment ≤ moment
    → job'.id ≡ job.id
    → later < moment + 5
    → (tick_job later clock' job' (tick_job moment clock job c)).started
      ≡ (tick_job moment clock job c).started
unfolding tick_job
not_started_early moment later clock clock' job job' c due same early =
    let state =
      or_default (get job.id c.watch.states)
        (record { interval = floor_of job; consecutive_quiet = 0 }) in
    let next =
      next_interval job state (changed_since c.db job (get job.id c.watch.cycle_started)) in
    let bounds =
      next_interval_bounds job state (changed_since c.db job (get job.id c.watch.cycle_started)) in
    let stored = get-put job.id job.id (moment + next.interval) c.watch.due in
    let watch = start-watch clock job (record c {
      watch = record {
        states = put job.id next c.watch.states;
        due = put job.id (moment + next.interval) c.watch.due;
        cycle_started = put job.id clock c.watch.cycle_started;
      };
    }) in
    ground (arith, watch, stored, bounds, due, same, early)
