-- ===== src/Lifecycle/Kept/Reached.antt =====
-- The steps of app/web/__init__.py, app/api/jobs.py, app/jobs/ and app/main.py, one by one.
use hivesync.Prelude.{Option, none, some, ℕ, ℕ, ◌≡◌, refl, inl, inr, true, List, ◌∷◌, arith}
use hivesync.Models.{Job, JobRun, Message}
use hivesync.Planner.{finish_failed}
use hivesync.Runner.State.{World}
use hivesync.Runner.RunNow.{run_now}
use hivesync.Runner.Ends.{calm-EndsWell}
use hivesync.Lifecycle.{
  System, planned, engine_error, unexpected, plan_now, as_is, finish_run, dropped,
}
use hivesync.Lifecycle.Kept.{
  is_none, written, finish_live, RunEnd, live_run, dry_plan, end_run, is_expected, Step, asked,
  resynced, forced, submitted, run_form, live_form, resync_form, cancel_form, skipped, stopped,
  taken, orphaned, ended, removed, restarted, fresh_system, ReachUncrashed, begin_empty, later,
}
use hivesync.Lifecycle.Kept.Sound.{Sound, KeepsKey}
use hivesync.Lifecycle.Kept.Losing.{
  Ends, left_working, gone-Sound, end-Sound, keep-Sound, restart-Sound,
}
use hivesync.Lifecycle.Kept.Requests.{
  run_job-Sound, resync_job-Sound, force_run-Sound, cancel_run-Sound, run_job_form-Sound,
  run_job_live_form-Sound, resync_job_form-Sound, cancel_run_form-Sound,
}
use hivesync.Lifecycle.Kept.Growing.{start_run-Sound, record_skip-Sound, take-Sound, popped}

finish_run-Sound :
    (id : ℕ) (f : JobRun → JobRun) {s : System}
    → KeepsKey f
    → Ends f
    → Sound s
    → Sound (finish_run id f s)
unfolding finish_run
finish_run-Sound id f {s} keys ends sound =
    end-Sound f id s.queue (dropped id s.working) keys ends
      (λ n other there. left_working n id s.queue s.working other there) sound

orphaned-Sound :
    (now id : ℕ) (m : Message) (queue : List ℕ) {s : System}
    → s.queue ≡ id ∷ queue
    → Sound s
    → Sound (finish_run id (finish_failed now m) (record s { queue = queue }))
unfolding finish_run finish_failed
orphaned-Sound now id m queue {s} next sound =
    end-Sound (finish_failed now m) id queue (dropped id s.working) (λ r. (refl, refl)) (λ r. refl)
      (λ n other there.
        left_working n id queue s.working other
          (popped id n queue s.working s.queue other next there))
      sound

live-Sound :
    (id : ℕ) (w : World) (run : JobRun) (job : Job) {s : System}
    → w.fault ≡ none
    → Sound s
    → Sound (finish_live id (run_now w run job).row s)
unfolding finish_live
live-Sound id w run job {s} calm sound = elim (calm-EndsWell w run job calm) [
  | inl (row, left, over) ↦
      rw (left, finish_live, over.0)
        (finish_run-Sound id (written row) (λ r. (refl, refl)) (λ r. over.0) sound)
  | inr (quiet, continuous, checked) ↦ rw (quiet, finish_live) (gone-Sound id sound)
]

no_fault : (fault : Option ℕ) → is_none fault ≡ true → fault ≡ none
no_fault none h = refl
no_fault (some n) h = ground (arith, h)

end_run-Sound :
    (id : ℕ) (how : RunEnd) {s : System}
    → is_expected how ≡ true
    → Sound s
    → Sound (end_run id how s)
unfolding end_run plan_now
end_run-Sound id (live_run w run job) expected sound =
    live-Sound id w run job (no_fault w.fault expected) sound
end_run-Sound id (dry_plan began until job (planned plan) run) expected sound =
    finish_run-Sound id (written (plan_now began until job (planned plan) run)) (λ r. (refl, refl))
      (λ r. refl) sound
end_run-Sound id (dry_plan began until job (engine_error m) run) expected sound =
    finish_run-Sound id (written (plan_now began until job (engine_error m) run))
      (λ r. (refl, refl)) (λ r. refl) sound
end_run-Sound id (dry_plan began until job unexpected run) expected sound =
    absurd (ground (arith, expected))

step-Sound : {s t : System} → Sound s → Step s t → Sound t
step-Sound sound (asked jobs job_id mode done) = run_job-Sound jobs job_id mode sound done
step-Sound sound (resynced jobs job_id done) = resync_job-Sound jobs job_id sound done
step-Sound sound (forced jobs run_id done) = force_run-Sound jobs run_id sound done
step-Sound sound (run_form jobs job_id) = run_job_form-Sound jobs job_id sound
step-Sound sound (live_form jobs job_id) = run_job_live_form-Sound jobs job_id sound
step-Sound sound (resync_form jobs job_id) = resync_job_form-Sound jobs job_id sound
step-Sound sound (cancel_form run_id) = cancel_run_form-Sound run_id sound
step-Sound sound (submitted job_id trigger mode done) =
    start_run-Sound job_id trigger mode as_is (λ r. (refl, refl, refl)) sound done
step-Sound sound (skipped now job_id reason done) = record_skip-Sound now job_id reason sound done
step-Sound sound (stopped run_id done) = cancel_run-Sound run_id sound done
step-Sound sound (taken now id queue next) = take-Sound now id queue sound next
step-Sound sound (orphaned now id m queue next) = orphaned-Sound now id m queue next sound
step-Sound sound (ended how id at_work expected) = end_run-Sound id how expected sound
step-Sound sound (removed stays) = keep-Sound stays sound
step-Sound sound (restarted now) = restart-Sound now sound

fresh-Sound : Sound fresh_system
fresh-Sound = record {
  fresh = λ a there. elim there [ ];
  distinct = λ id. omega arith;
  single = λ a b there. elim there [ ];
  watched = λ a there. elim there [ ];
}

pub ReachUncrashed-Sound : {s : System} → ReachUncrashed s → Sound s
ReachUncrashed-Sound begin_empty = fresh-Sound
ReachUncrashed-Sound (later r step) = step-Sound (ReachUncrashed-Sound r) step
