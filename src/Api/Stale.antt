-- ===== src/Api/Stale.antt =====
-- `update_job` of app/api/jobs.py and the scheduler.
use hivesync.Prelude.{ℕ, ◌≡◌, ◌∙◌, ap, Bool, Bool-cases, some, Text, arith, inl, inr}
use hivesync.Prelude.Dict.{get}
use hivesync.Models.{Job}
use hivesync.Scheduler.{Schedule, find_job, trigger_of, reload}
use hivesync.Scheduler.Reload.{DistinctJobs, trigger_in, reload-trigger_in}
use hivesync.Api.{JobPayload, App, Reply, answer, error, apply, commit_update, update_job, taken}

commit_update-scheduler :
    (app : App) (row : Reply Job) {after : App}
    → commit_update app row ≡ answer after
    → after.scheduler ≡ app.scheduler
commit_update-scheduler app (error e) h = ground (arith, h)
commit_update-scheduler app (answer job) h = elim (Bool-cases (taken job.name job.id app.jobs)) [
  | inl conflict ↦ ground (arith, conflict, h)
  | inr free ↦ ground (arith, free, h)
]

module _ (accepts : Text → Text → Bool) where
  -- A job that is edited through the API, from a schedule that was in step with the table, keeps the
  -- trigger of its old row in the scheduler, whatever its new expression, zone and state are.
  pub edited_keeps_trigger :
      (job_id : ℕ) (payload : JobPayload) (app after : App) (old : Job)
      → DistinctJobs app.jobs
      → app.scheduler ≡ some (reload accepts app.jobs)
      → find_job job_id app.jobs ≡ some old
      → update_job accepts job_id payload app ≡ answer after
      → (s : Schedule) × (after.scheduler ≡ some s)
        × (get job_id s.entries ≡ trigger_of accepts old)
  unfolding update_job
  edited_keeps_trigger job_id payload app after old d in_step there h =
      let done : commit_update app (apply payload app old) ≡ answer after =
        ground (arith, there, h) in
      (
        reload accepts app.jobs,
        commit_update-scheduler app (apply payload app old) done ∙ in_step,
        reload-trigger_in accepts app.jobs job_id d ∙ ap (trigger_in accepts) there,
      )
