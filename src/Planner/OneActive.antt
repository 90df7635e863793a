-- ===== src/Planner/OneActive.antt =====
-- The queued and running rows of a job, in app/jobs/planner.py.
use hivesync.Prelude.{
  ℕ, ◌≤◌, ◌≡◌, refl, false, some, List, [], ◌∷◌, arith, keep, length, Option-cases, inl, inr,
}
use hivesync.Models.{JobRun, RunTrigger, RunMode, queued}
use hivesync.Planner.{Db, active_of, has_active, insert_run, create_run, new_run}

abbrev pub active_count : ℕ → List JobRun → ℕ
active_count job_id runs = length (keep (active_of job_id) runs)

abbrev pub OneActive : Db → Type 0
OneActive db = (job_id : ℕ) → active_count job_id db.runs ≤ 1

active_count-zero :
    (job_id : ℕ) (runs : List JobRun)
    → has_active job_id runs ≡ false
    → active_count job_id runs ≡ 0
active_count-zero job_id [] h = refl
active_count-zero job_id (run ∷ runs) h = ground (arith, active_count-zero job_id runs)

-- Whatever the row, its insertion keeps the index's promise: no job gets a second active run.
pub insert_run-OneActive :
    (run : JobRun) (db : Db) {db' : Db}
    → OneActive db
    → insert_run run db ≡ some db'
    → OneActive db'
unfolding insert_run
insert_run-OneActive run db one done job_id =
    ground
      (arith, one job_id, active_count-zero run.job_id db.runs, active_count-zero job_id db.runs)

-- Whether a run is queued by hand, by the schedule or by the watcher, no job gets a second active
-- run.
pub create_run-OneActive :
    (db : Db) (job_id : ℕ) (trigger : RunTrigger) (mode : RunMode) {made : JobRun × Db}
    → OneActive db
    → create_run db job_id trigger mode ≡ some made
    → OneActive made.1
unfolding create_run
create_run-OneActive db job_id trigger mode {made} one done =
    let run = new_run db.next_id job_id trigger mode queued in
    elim (Option-cases (insert_run run db)) [
      | inl conflict ↦ ground (arith, conflict, done)
      | inr (db', stored) ↦
          let same : made.1 ≡ db' = ground (arith, stored, done) in
          rw same (insert_run-OneActive run db one stored)
    ]
