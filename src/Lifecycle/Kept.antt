-- ===== src/Lifecycle/Kept.antt =====
-- The steps that change the run table and the pools, of app/web/__init__.py, app/api/jobs.py,
-- app/jobs/scheduler.py, app/jobs/runner.py, app/jobs/planner.py, app/jobs/retention.py and
-- app/main.py, in any order.
pub mod Sound
pub mod Losing
pub mod Growing
pub mod Requests
pub mod Reached
pub mod Idle
pub mod Served
pub mod Overlap
use hivesync.Prelude.{
  if◌then◌else◌, ℕ, ◌≡◌, Bool, true, false, not, Option, none, some, List, [], ◌∷◌, ◌==◌, keep,
  Text, any,
}
use hivesync.Models.{is_active, Job, JobRun, RunTrigger, RunMode, Message}
use hivesync.Planner.{Db, record_skip, finish_failed}
use hivesync.Api.{answer}
use hivesync.Runner.State.{World}
use hivesync.Runner.RunNow.{run_now}
use hivesync.Lifecycle.Forms.{run_job_form, run_job_live_form, resync_job_form, cancel_run_form}
use hivesync.Lifecycle.{
  System, PlanAnswer, planned, engine_error, unexpected, plan_now, start_run, run_job, resync_job,
  force_run, as_is, cancel_run, take_next, finish_run, dropped, with_runs, restart,
}

abbrev pub is_among : ℕ → List ℕ → Bool
is_among id ids = any (λ n. n == id) ids

-- The columns of a row but its key and its job, which no write changes.
abbrev pub written : JobRun → JobRun → JobRun
written row run = record row { id = run.id; job_id = run.job_id }

-- The same for a run that stopped before its end: its session has not written the status again.
abbrev pub left_open : JobRun → JobRun → JobRun
left_open row run = record row { id = run.id; job_id = run.job_id; status = run.status }

-- The end of a live run: its row is written, or deleted as a quiet cycle.
unfoldable pub finish_live : ℕ → Option JobRun → System → System
unfolding finish_run
finish_live id (some row) s =
    if is_active row.status then finish_run id (left_open row) s else finish_run id (written row) s
finish_live id none s = record s {
  db = record s.db { runs = keep (λ run. not (run.id == id)) s.db.runs };
  working = dropped id s.working;
}

-- How the worker of a live run or of a dry run comes to its end: what the run finds, and the row
-- and the job that its session has read.
pub data RunEnd : Type 0 where
  live_run : World → JobRun → Job → RunEnd
  dry_plan : ℕ → ℕ → Job → PlanAnswer → JobRun → RunEnd

abbrev pub is_none : Option ℕ → Bool
is_none none = true
is_none (some n) = false

-- The ends that `LiveRunner.run_now` and `PlanRunner.run_now` handle.
abbrev pub is_expected : RunEnd → Bool
is_expected (live_run w run job) = is_none w.fault
is_expected (dry_plan began until job unexpected run) = false
is_expected (dry_plan began until job (planned plan) run) = true
is_expected (dry_plan began until job (engine_error m) run) = true

unfoldable pub end_run : ℕ → RunEnd → System → System
unfolding finish_live finish_run
end_run id (live_run w run job) s = finish_live id (run_now w run job).row s
end_run id (dry_plan began until job (planned plan) run) s =
    finish_run id (written (plan_now began until job (planned plan) run)) s
end_run id (dry_plan began until job (engine_error m) run) s =
    finish_run id (written (plan_now began until job (engine_error m) run)) s
end_run id (dry_plan began until job unexpected run) s =
    finish_run id (plan_now began until job unexpected) s

pub data Step (s : System) : System → Type 0 where
  asked :
      (jobs : List Job) (job_id : ℕ) (mode : RunMode) {t : System}
      → run_job jobs job_id mode s ≡ answer t
      → Step s t
  resynced :
      (jobs : List Job) (job_id : ℕ) {t : System} → resync_job jobs job_id s ≡ answer t → Step s t
  forced : (jobs : List Job) (run_id : ℕ) {t : System} → force_run jobs run_id s ≡ some t → Step s t
  run_form : (jobs : List Job) (job_id : ℕ) → Step s (run_job_form jobs job_id s).0
  live_form : (jobs : List Job) (job_id : ℕ) → Step s (run_job_live_form jobs job_id s).0
  resync_form : (jobs : List Job) (job_id : ℕ) → Step s (resync_job_form jobs job_id s).0
  cancel_form : (run_id : ℕ) → Step s (cancel_run_form run_id s).0
  -- The scheduler and the watcher.
  submitted :
      (job_id : ℕ) (trigger : RunTrigger) (mode : RunMode) {t : System}
      → start_run job_id trigger mode as_is s ≡ some t
      → Step s t
  skipped :
      (now job_id : ℕ) (reason : Text) {db : Db}
      → record_skip now job_id reason s.db ≡ some db
      → Step s (record s { db = db })
  stopped : (run_id : ℕ) {t : System} → cancel_run run_id s ≡ answer t → Step s t
  taken : (now id : ℕ) (queue : List ℕ) → s.queue ≡ id ∷ queue → Step s (take_next now id queue s)
  -- The job of the next run is gone.
  orphaned :
      (now id : ℕ) (m : Message) (queue : List ℕ)
      → s.queue ≡ id ∷ queue
      → Step s (finish_run id (finish_failed now m) (record s { queue = queue }))
  ended :
      (how : RunEnd) (id : ℕ)
      → is_among id s.working ≡ true
      → is_expected how ≡ true
      → Step s (end_run id how s)
  -- Retention, and the deletion of a job with its runs.
  removed : (stays : JobRun → Bool) → Step s (with_runs s (keep stays s.db.runs))
  restarted : (now : ℕ) → Step s (restart now s)

abbrev pub fresh_system : System
fresh_system = record { db = record { runs = []; next_id = 1 }; queue = []; working = [] }

-- What is reached when no worker ended by an exception that its `run_now` does not catch.
pub data ReachUncrashed : System → Type 0 where
  begin_empty : ReachUncrashed fresh_system
  later : {s t : System} → ReachUncrashed s → Step s t → ReachUncrashed t
