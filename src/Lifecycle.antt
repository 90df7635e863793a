-- ===== src/Lifecycle.antt =====
-- The life of the runs of one process of HiveSync: the handlers that start, approve and cancel a run
-- (app/web/__init__.py, app/api/jobs.py), the pools of app/jobs/runner.py and app/jobs/planner.py,
-- and `_release_interrupted_runs` of app/main.py. Both pools are one list of the ids that were
-- submitted and one of those that a worker is at.
pub mod Forms
pub mod Rows
pub mod Kept
pub mod Crashed
pub mod Approved
use hivesync.Prelude.{
  ℕ, suc, ◌≡◌, Bool, true, false, not, ◌&&◌, Option, none, some, List, [], ◌∷◌, ◌++◌, ◌==◌,
  if◌then◌else◌, any, keep, map, max, Text,
}
use hivesync.Models.{
  Job, JobRun, RunStatus, running, failed, cancelled, is_active, RunTrigger, RunMode, live, dry_run,
  manual, is_bidirectional, Summary, failure, Message, interrupted,
}
use hivesync.Models
use hivesync.Planner.{Db, create_run, update_run, persist_plan, finish_failed, active_of}
use hivesync.Engines.Plan.{Plan}
use hivesync.Scheduler.{find_job}
use hivesync.Api.{Reply, answer, error, bad_request, not_found, conflict}

-- What the engine of a dry run answers: a plan, an `EngineError` with its message, or any other
-- exception.
pub data PlanAnswer : Type 0 where
  planned : Plan → PlanAnswer
  engine_error : Message → PlanAnswer
  unexpected : PlanAnswer

-- `run.status = RunStatus.running; run.started_at = utcnow()`
abbrev pub as_started : ℕ → JobRun → JobRun
as_started now run = record run { status = running; started_at = some now }

-- `PlanRunner.run_now` from the engine's answer on, at the row that it was started with: the row
-- that is left. Where anything else is raised, nothing is written.
unfoldable pub plan_now : ℕ → ℕ → Job → PlanAnswer → JobRun → JobRun
unfolding persist_plan finish_failed
plan_now began ended job (planned plan) run = persist_plan ended job plan (as_started began run)
plan_now began ended job (engine_error m) run = finish_failed ended m (as_started began run)
plan_now began ended job unexpected run = run

abbrev pub interrupted_row : ℕ → JobRun → JobRun
interrupted_row now run = record run {
  status = failed;
  finished_at = some now;
  errors_count = max run.errors_count 1;
  summary = some (failure interrupted none);
}

abbrev pub settled : ℕ → JobRun → JobRun
settled now run = if is_active run.status then interrupted_row now run else run

-- `_release_interrupted_runs`
unfoldable pub release_interrupted : ℕ → List JobRun → List JobRun
release_interrupted now runs = map (settled now) runs

pub record System : Type 0 where
  pub db : Db
  pub queue : List ℕ
  pub working : List ℕ

abbrev pub find_run : ℕ → List JobRun → Option JobRun
find_run id [] = none
find_run id (run ∷ runs) = let rest = find_run id runs in if run.id == id then some run else rest

-- Another row of the job is active: the index refuses to make this one active.
abbrev pub blocked : ℕ → ℕ → List JobRun → Bool
blocked id job_id runs = any (λ run. active_of job_id run && not (run.id == id)) runs

abbrev pub with_runs : System → List JobRun → System
with_runs s runs = record s { db = record s.db { runs = runs } }

-- `create_run`, what the handler writes on the new row, and `submit`.
unfoldable pub start_run : ℕ → RunTrigger → RunMode → (JobRun → JobRun) → System → Option System
unfolding create_run update_run
start_run job_id trigger mode edit s = elim (create_run s.db job_id trigger mode) [
  | none ↦ none
  | some (run, db) ↦ some (record s {
    db = record db { runs = update_run edit run.id db.runs };
    queue = s.queue ++ run.id ∷ [];
  })
]

abbrev pub started_or_conflict : Option System → Reply System
started_or_conflict none = error conflict
started_or_conflict (some s) = answer s

-- What each handler writes on the new row.
abbrev pub as_is : JobRun → JobRun
as_is run = run

abbrev pub as_resync : JobRun → JobRun
as_resync run = record run { is_resync = true }

abbrev pub as_approved : ℕ → JobRun → JobRun
as_approved n run = record run { forced_max_delete = some n }

-- `run_job` of the API.
unfoldable pub run_job : List Job → ℕ → RunMode → System → Reply System
unfolding start_run
run_job jobs job_id mode s = elim (find_job job_id jobs) [
  | none ↦ error not_found
  | some job ↦ started_or_conflict (start_run job.id Models.api mode as_is s)
]

-- `resync_job` of the API.
unfoldable pub resync_job : List Job → ℕ → System → Reply System
unfolding start_run
resync_job jobs job_id s = elim (find_job job_id jobs) [
  | none ↦ error not_found
  | some job ↦
      if is_bidirectional job.direction
      then started_or_conflict (start_run job.id Models.api live as_resync s)
      else error bad_request
]

-- `(refused.summary or {}).get("refused_deletions")`
abbrev pub refused_deletions : Option Summary → Option ℕ
refused_deletions (some (failure m (some r))) = r.refused_deletions
refused_deletions _ = none

abbrev pub approve : Option Job → Option ℕ → System → Option System
approve (some job) (some n) s = start_run job.id manual live (as_approved n) s
approve _ _ s = none

-- `force_run_form` of the web pages; `none` where nothing is started.
unfoldable pub force_run : List Job → ℕ → System → Option System
unfolding start_run
force_run jobs run_id s = elim (find_run run_id s.db.runs) [
  | none ↦ none
  | some refused ↦ approve (find_job refused.job_id jobs) (refused_deletions refused.summary) s
]

abbrev pub as_cancelled : JobRun → JobRun
as_cancelled run = record run { status = cancelled }

-- `cancel_run` of the API; the process of a run that a worker is at gets its signal.
unfoldable pub cancel_run : ℕ → System → Reply System
unfolding update_run
cancel_run run_id s = elim (find_run run_id s.db.runs) [
  | none ↦ error not_found
  | some run ↦
      if is_active run.status
      then answer (with_runs s (update_run as_cancelled run_id s.db.runs))
      else error conflict
]

-- A worker takes the first id of the queue; `finished` stands for the rows that cannot start, and
-- the index may refuse the write that makes a cancelled row active again.
unfoldable pub take_next : ℕ → ℕ → List ℕ → System → System
unfolding update_run
take_next now id queue s = elim (find_run id s.db.runs) [
  | none ↦ record s { queue = queue }
  | some run ↦ if blocked id run.job_id s.db.runs then record s { queue = queue } else record s {
    db = record s.db { runs = update_run (as_started now) id s.db.runs };
    queue = queue;
    working = id ∷ s.working;
  }
]

abbrev pub dropped : ℕ → List ℕ → List ℕ
dropped id ids = keep (λ n. not (n == id)) ids

-- A worker writes the last state of the row of its run and is free.
unfoldable pub finish_run : ℕ → (JobRun → JobRun) → System → System
unfolding update_run
finish_run id outcome s = record s {
  db = record s.db { runs = update_run outcome id s.db.runs };
  working = dropped id s.working;
}

unfoldable pub restart : ℕ → System → System
unfolding release_interrupted
restart now s = record {
  db = record s.db { runs = release_interrupted now s.db.runs };
  queue = [];
  working = [];
}
