-- ===== src/Scheduler/Reload.antt =====
-- `reload` of app/jobs/scheduler.py against the job table.
use hivesync.Prelude.{
  ℕ, ◌≡◌, refl, ◌∙◌, Bool, true, ◌↔◌, non_empty, strip, lstrip, rstrip, Bool-cases, Option,
  Option-cases, none, some, List, [], ◌∷◌, Text, ◌==◌, if◌then◌else◌, arith, ==_iff, inl, inr,
}
use hivesync.Prelude.Dict.{Dict, get, get-put}
use hivesync.Models.{Job}
use hivesync.Scheduler.{
  Trigger, find_job, build_trigger, or_utc, trigger_of, add_entry, register, register_all, reload,
}

-- Each id is that of one job.
abbrev pub DistinctJobs : List Job → Type 0
DistinctJobs [] = Unit
DistinctJobs (job ∷ jobs) = (find_job job.id jobs ≡ none) × DistinctJobs jobs

module _ (accepts : Text → Text → Bool) where
  abbrev pub trigger_in : Option Job → Option Trigger
  trigger_in none = none
  trigger_in (some job) = trigger_of accepts job

  get-add_entry :
      (id k : ℕ) (t : Option Trigger) (entries : Dict Trigger)
      → get k (add_entry accepts id t entries)
        ≡ (if id == k then (elim t [ none ↦ get k entries | some u ↦ some u ]) else get k entries)
  get-add_entry id k none entries = ground arith
  get-add_entry id k (some u) entries = get-put id k u entries

  abbrev pub or_else : Option Trigger → Option Trigger → Option Trigger
  or_else none old = old
  or_else (some t) old = some t

  or_else-none : (t : Option Trigger) → or_else t none ≡ t
  or_else-none none = refl
  or_else-none (some t) = refl

  get-register :
      (job : Job) (k : ℕ) (entries : Dict Trigger)
      → get k (register accepts job entries)
        ≡ (if job.id == k then or_else (trigger_of accepts job) (get k entries) else get k entries)
  get-register job k entries = ground (
    arith,
    get-add_entry job.id k (trigger_of accepts job) entries,
    Option-cases (trigger_of accepts job),
  )

  get-register_all :
      (jobs : List Job) (k : ℕ) (entries : Dict Trigger)
      → DistinctJobs jobs
      → get k (register_all accepts jobs entries)
        ≡ or_else (trigger_in (find_job k jobs)) (get k entries)
  unfolding register_all
  get-register_all [] k entries d = refl
  get-register_all (job ∷ jobs) k entries d =
      let later = get-register_all jobs k (register accepts job entries) d.1 in
      elim (Bool-cases (job.id == k)) [
        | inr other ↦ later ∙ ground (arith, other, get-register job k entries)
        | inl this ↦
            let same : job.id ≡ k = (==_iff job.id k).0 this in
            let gone : find_job k jobs ≡ none = rw (← same) d.0 in
            later ∙ ground (arith, this, gone, get-register job k entries)
      ]

  pub reload-trigger_in :
      (jobs : List Job) (id : ℕ)
      → DistinctJobs jobs
      → get id (reload accepts jobs).entries ≡ trigger_in (find_job id jobs)
  unfolding reload get
  reload-trigger_in jobs id d =
      get-register_all jobs id [] d ∙ or_else-none (trigger_in (find_job id jobs))

  -- The job is enabled, and this is its expression, trimmed and not blank, with its zone, UTC where
  -- it names none, both of which APScheduler takes.
  abbrev pub IsDue : Job → Trigger → Type 0
  IsDue job (expression, zone) =
      (job.enabled ≡ true)
      × (non_empty expression ≡ true)
      × ((given : Text) × (job.schedule_cron ≡ some given) × (strip given ≡ expression))
      × (or_utc job.timezone ≡ zone)
      × (accepts expression zone ≡ true)

  without_expression : (job : Job) → job.schedule_cron ≡ none → trigger_of accepts job ≡ none
  unfolding trigger_of strip lstrip rstrip
  without_expression job has = ground (arith, has)

  trigger_of-IsDue :
      (job : Job) (cron : Option Text) (t : Trigger)
      → job.schedule_cron ≡ cron
      → trigger_of accepts job ≡ some t
      → IsDue job t
  unfolding trigger_of build_trigger
  trigger_of-IsDue job none (e, z) has h = absurd (ground (arith, without_expression job has, h))
  trigger_of-IsDue job (some given) (e, z) has h = (
    ground (arith, has, h),
    ground (arith, has, h),
    (given, has, ground (arith, has, h)),
    ground (arith, has, h),
    ground (arith, has, h),
  )

  IsDue-trigger_of : (job : Job) (t : Trigger) → IsDue job t → trigger_of accepts job ≡ some t
  unfolding trigger_of build_trigger
  IsDue-trigger_of job (e, z) (on, filled, (given, has, trimmed), zone, taken) =
      ground (arith, on, filled, has, trimmed, zone, taken)

  -- After a reload the schedule fires for an id with an expression and a zone exactly if the table
  -- has a job of that id that is enabled, whose own expression, trimmed and not blank, and zone, UTC
  -- where it names none, they are, and APScheduler takes them. The ids of the table are distinct.
  pub reload-agrees :
      (jobs : List Job) (id : ℕ) (t : Trigger)
      → DistinctJobs jobs
      → (get id (reload accepts jobs).entries ≡ some t)
        ↔ ((job : Job) × (find_job id jobs ≡ some job) × IsDue job t)
  reload-agrees jobs id t d =
      let same = reload-trigger_in jobs id d in
      (
        λ fires. elim (Option-cases (find_job id jobs)) [
          | inl absent ↦ absurd (ground (arith, same, fires, absent))
          | inr (job, found) ↦ (
            job,
            found,
            trigger_of-IsDue job job.schedule_cron t refl (ground (arith, same, fires, found)),
          )
        ],
        λ (job, found, due). ground (arith, same, found, IsDue-trigger_of job t due),
      )
