-- ===== src/Lifecycle/Kept/Requests.antt =====
-- The handlers and the forms that start, approve and cancel a run, in app/api/jobs.py and
-- app/web/__init__.py.
use hivesync.Prelude.{
  ℕ, ◌≡◌, refl, inl, inr, Bool-cases, Option, none, some, Option-cases, List, arith,
}
use hivesync.Models
use hivesync.Models.{
  Job, JobRun, is_active, RunTrigger, manual, RunMode, live, dry_run, Message, is_bidirectional,
}
use hivesync.Planner.{update_run}
use hivesync.Api.{answer}
use hivesync.Scheduler.{find_job}
use hivesync.Lifecycle.{
  start_run, System, started_or_conflict, run_job, resync_job, force_run, find_run, as_is,
  as_resync, as_approved, as_cancelled, approve, refused_deletions, cancel_run, with_runs,
}
use hivesync.Lifecycle.Forms.{
  start_form, run_job_form, run_job_live_form, resync_job_form, cancel_run_form,
}
use hivesync.Lifecycle.Kept.Sound.{Sound}
use hivesync.Lifecycle.Kept.Losing.{end-Sound}
use hivesync.Lifecycle.Kept.Growing.{IsEdit, start_run-Sound}

started-answer : (o : Option System) {t : System} → started_or_conflict o ≡ answer t → o ≡ some t
started-answer none h = ground (arith, h)
started-answer (some s) h = ground (arith, h)

pub run_job-Sound :
    (jobs : List Job) (job_id : ℕ) (mode : RunMode) {s t : System}
    → Sound s
    → run_job jobs job_id mode s ≡ answer t
    → Sound t
unfolding run_job
run_job-Sound jobs job_id mode sound done = elim (Option-cases (find_job job_id jobs)) [
  | inl absent ↦ absurd (ground (arith, absent, done))
  | inr (job, found) ↦
      start_run-Sound job.id Models.api mode as_is (λ r. (refl, refl, refl)) sound
        (started-answer _ (ground (arith, found, done)))
]

pub resync_job-Sound :
    (jobs : List Job) (job_id : ℕ) {s t : System}
    → Sound s
    → resync_job jobs job_id s ≡ answer t
    → Sound t
unfolding resync_job
resync_job-Sound jobs job_id sound done = elim (Option-cases (find_job job_id jobs)) [
  | inl absent ↦ absurd (ground (arith, absent, done))
  | inr (job, found) ↦ elim (Bool-cases (is_bidirectional job.direction)) [
    | inr one_way ↦ absurd (ground (arith, found, one_way, done))
    | inl both ↦
        start_run-Sound job.id Models.api live as_resync (λ r. (refl, refl, refl)) sound
          (started-answer _ (ground (arith, found, both, done)))
  ]
]

approve-Sound :
    (job : Option Job) (n : Option ℕ) {s t : System} → Sound s → approve job n s ≡ some t → Sound t
approve-Sound none n sound done = ground (arith, done)
approve-Sound (some job) none sound done = ground (arith, done)
approve-Sound (some job) (some n) sound done =
    start_run-Sound job.id manual live (as_approved n) (λ r. (refl, refl, refl)) sound done

pub force_run-Sound :
    (jobs : List Job) (run_id : ℕ) {s t : System}
    → Sound s
    → force_run jobs run_id s ≡ some t
    → Sound t
unfolding force_run
force_run-Sound jobs run_id {s} sound done = elim (Option-cases (find_run run_id s.db.runs)) [
  | inl absent ↦ absurd (ground (arith, absent, done))
  | inr (refused, found) ↦
      approve-Sound (find_job refused.job_id jobs) (refused_deletions refused.summary) sound
        (ground (arith, found, done))
]

pub cancel_run-Sound :
    (run_id : ℕ) {s t : System} → Sound s → cancel_run run_id s ≡ answer t → Sound t
unfolding cancel_run
cancel_run-Sound run_id {s} {t} sound done = elim (Option-cases (find_run run_id s.db.runs)) [
  | inl absent ↦ absurd (ground (arith, absent, done))
  | inr (run, found) ↦ elim (Bool-cases (is_active run.status)) [
    | inr over ↦ absurd (ground (arith, found, over, done))
    | inl on ↦
        let same : with_runs s (update_run as_cancelled run_id s.db.runs) ≡ t =
          ground (arith, found, on, done) in
        rw (← same) (
          end-Sound as_cancelled run_id s.queue s.working (λ r. (refl, refl)) (λ r. refl)
            (λ n other there. there) sound)
  ]
]

start_form-Sound :
    (job_id : ℕ) (mode : RunMode) (edit : JobRun → JobRun) {s : System}
    → IsEdit edit
    → Sound s
    → Sound (start_form job_id mode edit s).0
unfolding start_form
start_form-Sound job_id mode edit {s} plain sound =
    elim (Option-cases (start_run job_id manual mode edit s)) [
      | inl busy ↦ rw (busy, start_form) sound
      | inr (t, begun) ↦
          rw (begun, start_form) (start_run-Sound job_id manual mode edit plain sound begun)
    ]

pub run_job_form-Sound :
    (jobs : List Job) (job_id : ℕ) {s : System} → Sound s → Sound (run_job_form jobs job_id s).0
unfolding run_job_form
run_job_form-Sound jobs job_id sound = elim (Option-cases (find_job job_id jobs)) [
  | inl absent ↦ rw (absent, run_job_form) sound
  | inr (job, found) ↦
      rw (found, run_job_form)
        (start_form-Sound job.id dry_run as_is (λ r. (refl, refl, refl)) sound)
]

pub run_job_live_form-Sound :
    (jobs : List Job) (job_id : ℕ) {s : System}
    → Sound s
    → Sound (run_job_live_form jobs job_id s).0
unfolding run_job_live_form
run_job_live_form-Sound jobs job_id sound = elim (Option-cases (find_job job_id jobs)) [
  | inl absent ↦ rw (absent, run_job_live_form) sound
  | inr (job, found) ↦
      rw (found, run_job_live_form)
        (start_form-Sound job.id live as_is (λ r. (refl, refl, refl)) sound)
]

pub resync_job_form-Sound :
    (jobs : List Job) (job_id : ℕ) {s : System} → Sound s → Sound (resync_job_form jobs job_id s).0
unfolding resync_job_form
resync_job_form-Sound jobs job_id sound = elim (Option-cases (find_job job_id jobs)) [
  | inl absent ↦ rw (absent, resync_job_form) sound
  | inr (job, found) ↦ elim (Bool-cases (is_bidirectional job.direction)) [
    | inr one_way ↦ rw (found, one_way, resync_job_form) sound
    | inl two_way ↦
        rw (found, two_way, resync_job_form)
          (start_form-Sound job.id live as_resync (λ r. (refl, refl, refl)) sound)
  ]
]

as_cancelled-Sound :
    (run_id : ℕ) {s : System}
    → Sound s
    → Sound (with_runs s (update_run as_cancelled run_id s.db.runs))
as_cancelled-Sound run_id {s} sound =
    end-Sound as_cancelled run_id s.queue s.working (λ r. (refl, refl)) (λ r. refl)
      (λ n other there. there) sound

pub cancel_run_form-Sound : (run_id : ℕ) {s : System} → Sound s → Sound (cancel_run_form run_id s).0
unfolding cancel_run_form
cancel_run_form-Sound run_id {s} sound = elim (Option-cases (find_run run_id s.db.runs)) [
  | inl absent ↦ rw (absent, cancel_run_form) sound
  | inr (run, found) ↦ elim (Bool-cases (is_active run.status)) [
    | inr over ↦ rw (found, over, cancel_run_form) sound
    | inl on ↦ rw (found, on, cancel_run_form) (as_cancelled-Sound run_id sound)
  ]
]
