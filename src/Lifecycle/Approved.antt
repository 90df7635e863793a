-- ===== src/Lifecycle/Approved.antt =====
-- An approval of refused deletions, from `force_run_form` of app/web/__init__.py to the live run of
-- app/jobs/runner.py that it starts.
use hivesync.Prelude.{
  codes, decimal, ℕ, ◌≡◌, ◌≤◌, refl, ◌⊎◌, inl, inr, false, Bool-cases, Option, none, some,
  Option-cases, List, [], ◌∷◌, arith, Text,
}
use hivesync.Models.{Job, JobRun, manual, live, queued, is_bidirectional}
use hivesync.Planner.{new_run, create_run, insert_run, update_run, has_active}
use hivesync.Scheduler.{find_job}
use hivesync.Engines.Plan.{deleted_count}
use hivesync.Engines.Rclone.{build_sync_command}
use hivesync.Runner.State.{World}
use hivesync.Runner.Effects.{spawns}
use hivesync.Runner.Allowed.{Allowed, Carries}
use hivesync.Runner.Brake.{run_now_within_brake}
use hivesync.Runner.RunNow.{run_now, started}
use hivesync.Lifecycle.{
  System, find_run, start_run, as_approved, approve, refused_deletions, force_run,
}

start_run-row :
    (job_id n : ℕ) (s : System) {t : System}
    → start_run job_id manual live (as_approved n) s ≡ some t
    → find_run s.db.next_id t.db.runs
      ≡ some (as_approved n (new_run s.db.next_id job_id manual live queued))
unfolding start_run create_run insert_run update_run
start_run-row job_id n s {t} done = elim (Bool-cases (has_active job_id s.db.runs)) [
  | inl refused ↦ absurd (ground (arith, refused, done))
  | inr free ↦ ground (arith, free, done)
]

-- What an approval leaves: the refused run, its number, and the new row that carries it.
pub record Approval (run_id : ℕ) (s t : System) : Type 0 where
  pub refused : JobRun
  pub number : ℕ
  pub row : JobRun
  pub was_refused : find_run run_id s.db.runs ≡ some refused
  pub was_shown : refused_deletions refused.summary ≡ some number
  pub is_new : find_run s.db.next_id t.db.runs ≡ some row
  pub carries : row.forced_max_delete ≡ some number

approve-Approval :
    (run_id : ℕ) (refused : JobRun) (job : Option Job) (n : Option ℕ) {s t : System}
    → find_run run_id s.db.runs ≡ some refused
    → refused_deletions refused.summary ≡ n
    → approve job n s ≡ some t
    → Approval run_id s t
approve-Approval run_id refused none n found shown done = ground (arith, done)
approve-Approval run_id refused (some job) none found shown done = ground (arith, done)
approve-Approval run_id refused (some job) (some n) {s} found shown done = record {
  refused = refused;
  number = n;
  row = as_approved n (new_run s.db.next_id job.id manual live queued);
  was_refused = found;
  was_shown = shown;
  is_new = start_run-row job.id n s done;
  carries = refl;
}

force_run-Approval :
    (jobs : List Job) (run_id : ℕ) {s t : System}
    → force_run jobs run_id s ≡ some t
    → Approval run_id s t
unfolding force_run
force_run-Approval jobs run_id {s} done = elim (Option-cases (find_run run_id s.db.runs)) [
  | inl absent ↦ absurd (ground (arith, absent, done))
  | inr (refused, found) ↦
      approve-Approval run_id refused (find_job refused.job_id jobs)
        (refused_deletions refused.summary) found refl (ground (arith, found, done))
]

-- The run starts no process, or one for a plan of at most `n` deletions.
abbrev pub DeletesAtMost : ℕ → World → JobRun → Job → Type 0
DeletesAtMost n w row job =
    (spawns (run_now w row job).effects ≡ [])
    ⊎ ((argv : List Text) × (spawns (run_now w row job).effects ≡ argv ∷ [])
        × (allowed : Allowed w (started w row) job argv) × (deleted_count allowed.plan ≤ n)
        × Carries (codes "--max-delete") (decimal n) allowed.args
        × (build_sync_command job allowed.src allowed.dst n allowed.archive ≡ some allowed.args))

carried :
    (approval_number : ℕ) (w : World) (row : JobRun)
    → row.forced_max_delete ≡ some approval_number
    → (started w row).forced_max_delete ≡ some approval_number
unfolding started
carried n w row h = h

-- An approval that starts a run was given for a number that the refused run showed, and the new row
-- carries it. Whatever the world answers when that run is made, one way: it starts no process, or
-- one, for a plan that deletes no more files than that number, whose arguments hold `--max-delete`
-- with the number in digits behind it.
pub approved_deletions :
    (jobs : List Job) (run_id : ℕ) (w : World) (job : Job) {s t : System}
    → force_run jobs run_id s ≡ some t
    → is_bidirectional job.direction ≡ false
    → (approval : Approval run_id s t) × DeletesAtMost approval.number w approval.row job
approved_deletions jobs run_id w job done one_way =
    let approval = force_run-Approval jobs run_id done in
    (
      approval,
      elim (run_now_within_brake w approval.row job one_way) [
        | inl quiet ↦ inl quiet
        | inr (argv, one, allowed) ↦
            let same = carried approval.number w approval.row approval.carries in
            inr (
              argv,
              one,
              allowed,
              rw same at (allowed.within_brake),
              rw same at (allowed.carries),
              rw same at (allowed.command),
            )
      ],
    )
