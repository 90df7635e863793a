-- ===== src/Scheduler/Fires.antt =====
-- `_fire` of app/jobs/scheduler.py and the run table.
use hivesync.Prelude.{
  ℕ, suc, List, ◌∷◌, ◌≡◌, ◌≢◌, refl, Bool-cases, Option-cases, some, Text, arith, inl, inr,
}
use hivesync.Models.{Job, JobRun, live, skipped}
use hivesync.Models
use hivesync.Planner.{Db, create_run, record_skip, insert_run, new_run}
use hivesync.Planner.OneActive.{OneActive, insert_run-OneActive, create_run-OneActive}
use hivesync.Scheduler.{failed, begin, begin_job, find_job, fire, still_running}

record_skip-OneActive :
    (now job_id : ℕ) (reason : Text) (db : Db)
    → OneActive db
    → (db' : Db) × (record_skip now job_id reason db ≡ some db') × OneActive db'
unfolding record_skip insert_run
record_skip-OneActive now job_id reason db one =
    let row : JobRun = record (new_run db.next_id job_id Models.schedule live skipped) {
      started_at = some now;
      finished_at = some now;
      skip_reason = some reason;
    } in
    let db' : Db = record { runs = row ∷ db.runs; next_id = suc db.next_id } in
    (db', refl, insert_run-OneActive row db one refl)

begin-OneActive :
    (now job_id : ℕ) (db : Db)
    → OneActive db
    → let (db', fired) = begin now job_id db (create_run db job_id Models.schedule live) in
      OneActive db' × (fired ≢ failed)
begin-OneActive now job_id db one =
    elim (Option-cases (create_run db job_id Models.schedule live)) [
      | inr ((run, db'), made) ↦
          rw made
            (create_run-OneActive db job_id Models.schedule live one made, λ e. ground (arith, e))
      | inl conflict ↦
          let (db', stored, kept) = record_skip-OneActive now job_id still_running db one in
          rw conflict (rw (stored, begin) (kept, λ e. ground (arith, e)))
    ]

-- A fire of the scheduler, for whatever id, leaves no job with two runs that are queued or running
-- if there was none before, and it never ends in an exception: a run that is in the way is told by
-- a skipped row.
pub fire-OneActive :
    (now job_id : ℕ) (jobs : List Job) (db : Db)
    → OneActive db
    → let (db', fired) = fire now job_id jobs db in OneActive db' × (fired ≢ failed)
unfolding fire
fire-OneActive now job_id jobs db one = elim (Option-cases (find_job job_id jobs)) [
  | inl missing ↦ rw missing (one, λ e. ground (arith, e))
  | inr (job, there) ↦ elim (Bool-cases job.enabled) [
    | inl on ↦ rw there (rw (on, begin_job) (begin-OneActive now job.id db one))
    | inr off ↦ rw there (rw (off, begin_job) (one, λ e. ground (arith, e)))
  ]
]
