-- ===== src/Planner/DryRun.antt =====
-- The rows and totals of `_persist_plan` in app/jobs/planner.py.
use hivesync.Prelude.{
  ℕ, ◌+◌, ◌≤◌, ◌≡◌, refl, Option, some, List, [], ◌∷◌, length, take, length-append, length-take,
  arith,
}
use hivesync.Models.{Job, JobRun, ChangeSide, ChangeAction, Summary, plan_result}
use hivesync.Engines.Plan.{
  PlannedChange, Plan, count_in, new_count, updated_count, deleted_count, error_count,
}
use hivesync.Engines.Rclone.{side_for}
use hivesync.Runner.Record.{refused_rows}
use hivesync.Planner.{persist_plan}

abbrev pub omitted : Option Summary → ℕ
omitted (some (plan_result s)) = s.rows_omitted
omitted _ = 0

length-refused_rows :
    (side : ChangeSide) (changes : List PlannedChange)
    → length (refused_rows side changes) ≡ length changes
length-refused_rows side [] = refl
length-refused_rows side (c ∷ cs) = omega (arith, length-refused_rows side cs)

-- A change counts once at most.
counts-length :
    (changes : List PlannedChange)
    → count_in ChangeAction.new changes
        + count_in ChangeAction.updated changes
        + count_in ChangeAction.deleted changes
        + count_in ChangeAction.error changes
      ≤ length changes
counts-length [] = omega arith
counts-length (c ∷ cs) = ground (arith, counts-length cs)

-- A dry run accounts for each change of its plan: it is a row of the run or counted as omitted, the
-- rows added are at most 5000, and its totals together are no more than the changes and the errors.
pub persist_plan_rows :
    (now : ℕ) (job : Job) (plan : Plan) (run : JobRun)
    → let row = persist_plan now job plan run in
      (length row.changes + omitted row.summary ≡ length run.changes + length plan.changes)
      × (length row.changes ≤ length run.changes + 5000)
      × (row.files_transferred + row.files_deleted + row.errors_count
          ≤ length plan.changes + length plan.errors)
unfolding persist_plan new_count updated_count deleted_count error_count
persist_plan_rows now job plan run =
    let side = side_for job.direction in
    let rows = length-append run.changes (refused_rows side (take 5000 plan.changes)) in
    let same = length-refused_rows side (take 5000 plan.changes) in
    let taken = length-take 5000 plan.changes in
    (
      omega (arith, rows, same, taken),
      omega (arith, rows, same, taken),
      omega (arith, counts-length plan.changes),
    )
