-- ===== src/Lifecycle/Forms.antt =====
-- The forms of app/web/__init__.py that start and cancel a run, with the page that each leads to.
use hivesync.Prelude.{ℕ, Option, none, some, List, [], ◌∷◌, if◌then◌else◌, ◌==◌}
use hivesync.Models.{Job, JobRun, is_active, manual, RunMode, live, dry_run, is_bidirectional}
use hivesync.Planner.{update_run}
use hivesync.Scheduler.{find_job}
use hivesync.Lifecycle.{System, start_run, find_run, as_is, as_resync, as_cancelled, with_runs}

pub data Page : Type 0 where
  jobs_page : Page
  job_page : ℕ → Page
  run_page : ℕ → Page

-- `latest_runs` with a limit of one: the newest row stands first.
abbrev pub latest_run : ℕ → List JobRun → Option JobRun
latest_run job_id [] = none
latest_run job_id (run ∷ runs) =
    let rest = latest_run job_id runs in if run.job_id == job_id then some run else rest

abbrev pub busy_page : ℕ → System → Page
busy_page job_id s = elim (latest_run job_id s.db.runs) [
  | none ↦ job_page job_id
  | some existing ↦ run_page existing.id
]

-- `create_run`, with what a form writes on the new row, and the page of the run or of the one that
-- is in its way.
unfoldable pub start_form : ℕ → RunMode → (JobRun → JobRun) → System → System × Page
unfolding start_run
start_form job_id mode edit s = elim (start_run job_id manual mode edit s) [
  | none ↦ (s, busy_page job_id s)
  | some t ↦ (t, run_page s.db.next_id)
]

unfoldable pub run_job_form : List Job → ℕ → System → System × Page
unfolding start_form
run_job_form jobs job_id s = elim (find_job job_id jobs) [
  | none ↦ (s, jobs_page)
  | some job ↦ start_form job.id dry_run as_is s
]

unfoldable pub run_job_live_form : List Job → ℕ → System → System × Page
unfolding start_form
run_job_live_form jobs job_id s = elim (find_job job_id jobs) [
  | none ↦ (s, jobs_page)
  | some job ↦ start_form job.id live as_is s
]

unfoldable pub resync_job_form : List Job → ℕ → System → System × Page
unfolding start_form
resync_job_form jobs job_id s = elim (find_job job_id jobs) [
  | none ↦ (s, jobs_page)
  | some job ↦
      if is_bidirectional job.direction then start_form job.id live as_resync s else (s, jobs_page)
]

unfoldable pub cancel_run_form : ℕ → System → System × Page
unfolding update_run
cancel_run_form run_id s = elim (find_run run_id s.db.runs) [
  | none ↦ (s, jobs_page)
  | some run ↦
      if is_active run.status
      then (with_runs s (update_run as_cancelled run_id s.db.runs), run_page run_id)
      else (s, run_page run_id)
]
