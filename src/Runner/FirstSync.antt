-- ===== src/Runner/FirstSync.antt =====
-- Bidirectional runs before the first sync, in `_execute_bisync` of app/jobs/runner.py.
use hivesync.Prelude.{Option, ℕ, refl, ◌∙◌, List, ◌≡◌, true, false, none, some, []}
use hivesync.Models.{Job, JobRun, is_bidirectional, no_first_sync}
use hivesync.Runner.State.{World, Refusal}
use hivesync.Runner.Bisync.{execute_bisync}
use hivesync.Runner.RunNow.{execute, run_now, started}
use hivesync.Runner.Refusal.{AsRefused, IsRefused, refused-end, AsRefused-IsRefused}
use hivesync.Lifecycle.{System, find_run, approve, force_run, refused_deletions}
use hivesync.Scheduler.{find_job}

abbrev pub first_sync_refusal : Job → Refusal
first_sync_refusal job = record {
  message = no_first_sync job.name;
  deletions = none;
  changes = [];
  plan = none;
  threshold = none;
}

asks_first_sync :
    (w : World) (run : JobRun) (job : Job)
    → w.fault ≡ none
    → is_bidirectional job.direction ≡ true
    → job.bisync_initialized ≡ false
    → run.is_resync ≡ false
    → AsRefused w run job (first_sync_refusal job)
unfolding execute execute_bisync started
asks_first_sync w run job calm both fresh plain =
    refused-end w run job (first_sync_refusal job) calm (rw (both, fresh, plain) refl)

approve-none : (job : Option Job) (s : System) → approve job none s ≡ none
approve-none none s = refl
approve-none (some job) s = refl

not_approved :
    (jobs : List Job) (run_id : ℕ) (refused : JobRun) (s : System)
    → find_run run_id s.db.runs ≡ some refused
    → refused_deletions refused.summary ≡ none
    → force_run jobs run_id s ≡ none
unfolding force_run
not_approved jobs run_id refused s found hidden =
    rw (found, hidden, force_run) (approve-none (find_job refused.job_id jobs) s)

-- A bidirectional run of a job that has not had its first sync, that is not itself a resync and in
-- which nothing else is raised starts no process and ends failed. It cannot be approved either: in
-- every state whose table holds its row, an approval of it starts nothing.
pub never_resyncs_by_itself :
    (w : World) (run : JobRun) (job : Job) (jobs : List Job) (run_id : ℕ) (s : System)
    → w.fault ≡ none
    → is_bidirectional job.direction ≡ true
    → job.bisync_initialized ≡ false
    → run.is_resync ≡ false
    → find_run run_id s.db.runs ≡ (run_now w run job).row
    → IsRefused none w (run_now w run job) × (force_run jobs run_id s ≡ none)
never_resyncs_by_itself w run job jobs run_id s calm both fresh plain stored =
    let left =
      AsRefused-IsRefused w run job (first_sync_refusal job)
        (asks_first_sync w run job calm both fresh plain) in
    (left, not_approved jobs run_id left.0 s (stored ∙ left.1) left.5)
