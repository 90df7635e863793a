-- ===== src/Runner/Refusal.antt =====
-- Runs that `_preflight` of app/jobs/runner.py refuses.
use hivesync.Prelude.{
  inl, inr, true, refl, Option, if◌then◌else◌, Bool-cases, ℕ, ◌+◌, ◌*◌, ◌≤◌, ◌<◌, ◌≡◌, ap, ◌∙◌,
  false, none, some, [], lt→ltb, length, arith,
}
use hivesync.Lifecycle.{refused_deletions}
use hivesync.Models.{failed, Job, JobRun, ChangeAction, is_bidirectional}
use hivesync.Parsers
use hivesync.Parsers.{removals}
use hivesync.Engines.Plan.{Plan, count_in, deleted_count}
use hivesync.Engines.Rclone.{endpoints_and_paths, resolve_max_delete}
use hivesync.Engines.Brake.{wipe_over_threshold}
use hivesync.Engines.Reconcile.{by_path, reconcile}
use hivesync.Engines.Reconcile.Counts.{counts-by_path}
use hivesync.Runner.State.{World, RunSession, raised, brake_engaged, Refusal}
use hivesync.Runner.Plan.{planned, plan_one_way, plan_one_way-SameCounts}
use hivesync.Runner.OneWay.{
  threshold_for, sentinel_gone, sentinel_refusal, preflight, checked, brake_refusal,
  execute_one_way,
}
use hivesync.Runner.Record.{refuse_row}
use hivesync.Runner.RunNow.{
  execute, handled, notify, prune_quiet_cycle, release, run_now, run_now-calm, Ended, begin,
  started,
}
use hivesync.Runner.Effects.{spawns}

module _ (w : World) (run : JobRun) (job : Job) (plan : Plan) (threshold : ℕ) where
  checked-over :
      (s : RunSession)
      → sentinel_gone w (endpoints_and_paths job).0 ≡ false
      → threshold < deleted_count plan
      → checked w job plan threshold s
        ≡ (raised (brake_engaged (brake_refusal job plan threshold)), s)
  unfolding checked preflight
  checked-over s there over = rw (there, lt→ltb threshold (deleted_count plan) over)

  checked-gone :
      (s : RunSession)
      → sentinel_gone w (endpoints_and_paths job).0 ≡ true
      → checked w job plan threshold s
        ≡ (raised (brake_engaged (sentinel_refusal (endpoints_and_paths job).0)), s)
  unfolding checked preflight
  checked-gone s gone = rw gone refl

-- A refused run ends with the refusal's row, and has started nothing.
pub AsRefused : World → JobRun → Job → Refusal → Type 0
AsRefused w run job r =
    ((run_now w run job).row ≡ some (refuse_row w job r (started w run)))
    × (spawns (run_now w run job).effects ≡ [])

pub refused-end :
    (w : World) (run : JobRun) (job : Job) (r : Refusal)
    → w.fault ≡ none
    → execute w (started w run) job (begin w run job) ≡ (raised (brake_engaged r), begin w run job)
    → AsRefused w run job r
unfolding AsRefused release prune_quiet_cycle notify handled
refused-end w run job r calm stopped =
    rw (run_now-calm w run job calm, stopped) (ground arith, ground arith)

-- What a refused run leaves: a failed row that is over and shows `number` deletions to approve, and
-- no process.
abbrev pub IsRefused : Option ℕ → World → Ended → Type 0
IsRefused number w e =
    (row : JobRun) × (e.row ≡ some row)
    × (row.status ≡ failed)
    × (row.finished_at ≡ some w.finished_at)
    × (row.errors_count ≡ 1)
    × (refused_deletions row.summary ≡ number)
    × (spawns e.effects ≡ [])

pub AsRefused-IsRefused :
    (w : World) (run : JobRun) (job : Job) (r : Refusal)
    → AsRefused w run job r
    → IsRefused r.deletions w (run_now w run job)
unfolding AsRefused refuse_row
AsRefused-IsRefused w run job r (row, quiet) =
    (refuse_row w job r (started w run), row, refl, refl, refl, refl, quiet)

module _ (w : World) (run : JobRun) (job : Job) (plan : Plan) (calm : w.fault ≡ none)
    (one_way : is_bidirectional job.direction ≡ false)
    (made : plan_one_way w job ≡ planned plan) where
  run_now-sentinel_gone :
      sentinel_gone w (endpoints_and_paths job).0 ≡ true
      → AsRefused w run job (sentinel_refusal (endpoints_and_paths job).0)
  unfolding execute execute_one_way started
  run_now-sentinel_gone gone =
      let threshold = threshold_for run.forced_max_delete job.max_delete_pct plan.dest_file_count in
      refused-end w run job (sentinel_refusal (endpoints_and_paths job).0) calm
        (rw (one_way, made) (checked-gone w run job plan threshold (begin w run job) gone))

  run_now-refuse_row :
      sentinel_gone w (endpoints_and_paths job).0 ≡ false
      → threshold_for run.forced_max_delete job.max_delete_pct plan.dest_file_count
        < deleted_count plan
      → AsRefused w run job (
          brake_refusal job plan
            (threshold_for run.forced_max_delete job.max_delete_pct plan.dest_file_count))
  unfolding execute execute_one_way started
  run_now-refuse_row there over =
      let threshold = threshold_for run.forced_max_delete job.max_delete_pct plan.dest_file_count in
      refused-end w run job (brake_refusal job plan threshold) calm
        (rw (one_way, made) (checked-over w run job plan threshold (begin w run job) there over))

-- A one way run whose plan deletes more than the threshold allows, and in which nothing else is
-- raised, starts no process and ends failed, with its time of end and one error. It shows the number
-- of deletions of the plan for an approval, unless its sentinel file is gone, which cannot be
-- approved.
pub run_now-IsRefused :
    (w : World) (run : JobRun) (job : Job) (plan : Plan)
    → w.fault ≡ none
    → is_bidirectional job.direction ≡ false
    → plan_one_way w job ≡ planned plan
    → threshold_for run.forced_max_delete job.max_delete_pct plan.dest_file_count
      < deleted_count plan
    → IsRefused
        (if sentinel_gone w (endpoints_and_paths job).0 then none else some (deleted_count plan))
        w
        (run_now w run job)
unfolding brake_refusal sentinel_refusal
run_now-IsRefused w run job plan calm one_way made over =
    elim (Bool-cases (sentinel_gone w (endpoints_and_paths job).0)) [
      | inl gone ↦ rw gone (
          AsRefused-IsRefused w run job _
            (run_now-sentinel_gone w run job plan calm one_way made gone))
      | inr there ↦ rw there (
          AsRefused-IsRefused w run job _
            (run_now-refuse_row w run job plan calm one_way made there over))
    ]

deleted-of_counts :
    (w : World) (job : Job) (plan : Plan)
    → plan_one_way w job ≡ planned plan
    → (deleted_count plan ≡ length (by_path (removals w.dry_log)))
      × (plan.dest_file_count ≡ Parsers.dest_file_count w.presence)
unfolding deleted_count reconcile
deleted-of_counts w job plan made =
    let same = plan_one_way-SameCounts w job made in
    let counts = counts-by_path w.presence w.dry_log in
    (ap (λ cs. count_in ChangeAction.deleted cs) same.same_changes ∙ counts.1, same.same_files)

-- A source that was emptied: the dry run would delete as many files as the destination holds, at
-- least two, and the percentage leaves at least one whole file over. Without an approval such a
-- run, in which nothing else is raised, starts no process, and ends with the brake's refusal.
pub emptied_source_refused :
    (w : World) (run : JobRun) (job : Job) (plan : Plan) (n : ℕ)
    → w.fault ≡ none
    → is_bidirectional job.direction ≡ false
    → plan_one_way w job ≡ planned plan
    → sentinel_gone w (endpoints_and_paths job).0 ≡ false
    → run.forced_max_delete ≡ none
    → Parsers.dest_file_count w.presence ≡ n
    → length (by_path (removals w.dry_log)) ≡ n
    → 2 ≤ n
    → n * job.max_delete_pct + 100 ≤ n * 100
    → ((run_now w run job).row
        ≡ some (
            refuse_row w job
              (brake_refusal job plan (resolve_max_delete job.max_delete_pct n))
              (started w run)))
      × (spawns (run_now w run job).effects ≡ [])
unfolding AsRefused
emptied_source_refused w run job plan n calm one_way made there unapproved files gone two left =
    let (deleted, held) = deleted-of_counts w job plan made in
    let over = (wipe_over_threshold job.max_delete_pct n two).1 left in
    let same : threshold_for run.forced_max_delete job.max_delete_pct plan.dest_file_count
        ≡ resolve_max_delete job.max_delete_pct n =
      ground (arith, held) in
    rw same at (
      run_now-refuse_row w run job plan calm one_way made there
        (rw same (omega (arith, deleted, gone, over))))
