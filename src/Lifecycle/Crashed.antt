-- ===== src/Lifecycle/Crashed.antt =====
-- A dry run whose engine raises what `PlanRunner.run_now` of app/jobs/planner.py does not catch.
use hivesync.Prelude.{
  ℕ, ◌≡◌, inl, inr, true, false, Bool-cases, none, some, List, [], ◌∷◌, ◌==◌, arith,
}
use hivesync.Models.{Job, JobRun, RunTrigger, RunMode}
use hivesync.Planner.{update_run, create_run, insert_run, has_active}
use hivesync.Lifecycle.{
  System, unexpected, plan_now, find_run, blocked, take_next, as_started, finish_run, start_run,
}

left_active :
    (now began until id : ℕ) (job : Job) (run : JobRun) (runs : List JobRun)
    → find_run id runs ≡ some run
    → has_active run.job_id
        (update_run (plan_now began until job unexpected) id (update_run (as_started now) id runs))
      ≡ true
unfolding update_run plan_now
left_active now began until id job run [] found = ground (arith, found)
left_active now began until id job run (r ∷ rs) found = elim (Bool-cases (r.id == id)) [
  | inl this ↦ ground (arith, this, found)
  | inr other ↦
      ground
        (arith, other, left_active now began until id job run rs (ground (arith, other, found)))
]

-- A dry run that a worker could take, and whose engine then raises anything but an `EngineError`,
-- keeps its job from being started: nothing is written when the worker ends, and if nothing else
-- happened in between, every start of that job is refused.
pub crashed_blocks :
    (now began until id : ℕ) (queue : List ℕ) (job : Job) (run : JobRun) (s : System)
    → find_run id s.db.runs ≡ some run
    → blocked id run.job_id s.db.runs ≡ false
    → (trigger : RunTrigger) (mode : RunMode) (edit : JobRun → JobRun)
    → start_run run.job_id trigger mode edit
        (finish_run id (plan_now began until job unexpected) (take_next now id queue s))
      ≡ none
unfolding start_run create_run insert_run finish_run take_next
crashed_blocks now began until id queue job run s found free trigger mode edit =
    rw (found, take_next, free)
      (ground (arith, left_active now began until id job run s.db.runs found))
