-- ===== src/Scheduler.antt =====
-- app/jobs/scheduler.py: what is registered with APScheduler, and a fire. APScheduler's reading of a
-- cron expression in a zone is a parameter: whether it takes them.
pub mod Reload
pub mod Fires
use hivesync.Prelude.{
  ℕ, Bool, true, false, not, ◌||◌, Option, none, some, List, [], ◌∷◌, ◌++◌, Text, codes, strip,
  non_empty, ◌==◌, if◌then◌else◌,
}
use hivesync.Prelude.Dict.{Dict, get, put}
use hivesync.Models.{Job, JobRun, live}
use hivesync.Models
use hivesync.Planner.{Db, create_run, record_skip}

-- A cleaned expression and its zone.
abbrev pub Trigger : Type 0
Trigger = Text × Text

abbrev pub or_blank : Option Text → Text
or_blank none = []
or_blank (some t) = t

abbrev pub or_utc : Text → Text
or_utc [] = codes "UTC"
or_utc (c ∷ zone) = c ∷ zone

-- The jobs of APScheduler: those of `job_key`, under the job's id, and whether maintenance is one.
pub record Schedule : Type 0 where
  pub entries : Dict Trigger
  pub maintenance : Bool

abbrev pub find_job : ℕ → List Job → Option Job
find_job id [] = none
find_job id (job ∷ jobs) = let rest = find_job id jobs in if job.id == id then some job else rest

-- What a fire came to.
pub data Fired : Type 0 where
  not_due : Fired
  -- A run is submitted to the runner.
  submitted : ℕ → Fired
  skipped : Fired
  -- An exception, which is logged.
  failed : Fired

abbrev pub still_running : Text
still_running = codes "A previous run was still in progress."

-- `create_run` and what follows on either of its ends.
abbrev pub begin : ℕ → ℕ → Db → Option (JobRun × Db) → Db × Fired
begin now job_id db (some (run, db')) = (db', submitted run.id)
begin now job_id db none = elim (record_skip now job_id still_running db) [
  | none ↦ (db, failed)
  | some db' ↦ (db', skipped)
]

abbrev pub begin_job : ℕ → Db → Option Job → Db × Fired
begin_job now db none = (db, not_due)
begin_job now db (some job) =
    if not job.enabled
    then (db, not_due)
    else begin now job.id db (create_run db job.id Models.schedule live)

-- `_fire`
unfoldable pub fire : ℕ → ℕ → List Job → Db → Db × Fired
unfolding create_run record_skip
fire now job_id jobs db = begin_job now db (find_job job_id jobs)

module _ (accepts : Text → Text → Bool) where
  -- `cron.build_trigger`; `none` is its `CronError`.
  unfoldable pub build_trigger : Text → Text → Option Trigger
  build_trigger expression zone =
      if not (non_empty (strip expression))
      then none
      else if accepts (strip expression) (or_utc zone)
      then some (strip expression, or_utc zone)
      else none

  -- The trigger that `_register` gives a job, if it gives it one.
  unfoldable pub trigger_of : Job → Option Trigger
  unfolding build_trigger
  trigger_of job =
      if not job.enabled || not (non_empty (strip (or_blank job.schedule_cron)))
      then none
      else build_trigger (or_blank job.schedule_cron) (or_utc job.timezone)

  abbrev pub add_entry : ℕ → Option Trigger → Dict Trigger → Dict Trigger
  add_entry id none entries = entries
  add_entry id (some trigger) entries = put id trigger entries

  -- `_register`
  abbrev pub register : Job → Dict Trigger → Dict Trigger
  register job entries = add_entry job.id (trigger_of job) entries

  unfoldable pub register_all : List Job → Dict Trigger → Dict Trigger
  register_all [] entries = entries
  register_all (job ∷ jobs) entries = register_all jobs (register job entries)

  unfoldable pub reload : List Job → Schedule
  unfolding register_all
  reload jobs = record { entries = register_all jobs []; maintenance = true }
