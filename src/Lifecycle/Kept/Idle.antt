-- ===== src/Lifecycle/Kept/Idle.antt =====
-- Which runs of a process of HiveSync are active, and when a job can be started (app/jobs/planner.py,
-- app/jobs/runner.py, app/main.py).
use hivesync.Prelude.{
  ℕ, ◌≡◌, inl, inr, true, false, Bool-cases, some, Option-cases, [], ◌++◌, arith,
}
use hivesync.Models.{JobRun, is_active, RunTrigger, RunMode}
use hivesync.Planner.{create_run, insert_run, has_active}
use hivesync.Planner.OneActive.{OneActive}
use hivesync.Lifecycle.{System, start_run, restart}
use hivesync.Lifecycle.Rows.{InTable, none_active}
use hivesync.Lifecycle.Kept.{is_among, ReachUncrashed}
use hivesync.Lifecycle.Kept.Sound.{Sound}
use hivesync.Lifecycle.Kept.Losing.{released}
use hivesync.Lifecycle.Kept.Reached.{ReachUncrashed-Sound}

-- A run of the job can be queued, whatever the handler then writes on its row.
abbrev pub CanStart : ℕ → RunTrigger → RunMode → System → Type 0
CanStart job_id trigger mode s =
    (edit : JobRun → JobRun) → (t : System) × (start_run job_id trigger mode edit s ≡ some t)

pub free-CanStart :
    (job_id : ℕ) (trigger : RunTrigger) (mode : RunMode) (s : System)
    → has_active job_id s.db.runs ≡ false
    → CanStart job_id trigger mode s
unfolding start_run create_run insert_run
free-CanStart job_id trigger mode s free edit =
    elim (Option-cases (start_run job_id trigger mode edit s)) [
      | inl refused ↦ absurd (ground (arith, free, refused))
      | inr begun ↦ begun
    ]

all_over-CanStart :
    (job_id : ℕ) (trigger : RunTrigger) (mode : RunMode) (s : System)
    → ((a : JobRun) → InTable a s.db.runs → is_active a.status ≡ false)
    → CanStart job_id trigger mode s
all_over-CanStart job_id trigger mode s over =
    free-CanStart job_id trigger mode s
      (none_active job_id s.db.runs (λ a there. ground (arith, over a there)))

pub idle-CanStart :
    {s : System} (job_id : ℕ) (trigger : RunTrigger) (mode : RunMode)
    → ReachUncrashed s
    → s.queue ≡ []
    → s.working ≡ []
    → CanStart job_id trigger mode s
idle-CanStart {s} job_id trigger mode r no_queue no_work =
    all_over-CanStart job_id trigger mode s over
  where
    over : (a : JobRun) → InTable a s.db.runs → is_active a.status ≡ false
    over a there = elim (Bool-cases (is_active a.status)) [
      | inr off ↦ off
      | inl on ↦
          let there' : is_among a.id (s.queue ++ s.working) ≡ true =
            (ReachUncrashed-Sound r).watched a there on in
          let nowhere : false ≡ true = rw (no_queue, no_work) at there' in
          absurd (ground (arith, nowhere))
    ]

-- After a restart every job can be started, whatever the run table held before.
pub restart-CanStart :
    (now job_id : ℕ) (trigger : RunTrigger) (mode : RunMode) (s : System)
    → CanStart job_id trigger mode (restart now s)
unfolding restart
restart-CanStart now job_id trigger mode s =
    all_over-CanStart job_id trigger mode (restart now s)
      (λ a there. released now a s.db.runs there)
