-- ===== src/Runner/Rows.antt =====
-- The rows and the totals of `_record` and `_record_bisync` in app/jobs/runner.py.
use hivesync.Prelude.{
  ℕ, ◌+◌, ◌≤◌, ◌≡◌, refl, List, [], ◌∷◌, ◌++◌, Text, length, take, keep, min, length-append,
  length-take, arith,
}
use hivesync.Models.{Job, JobRun, ChangeSide}
use hivesync.Parsers
use hivesync.Parsers.{
  PlannedOperation, DryRunLog, copies, deletes, removals, created, replacements, is_copy, is_delete,
  is_archived, is_true, is_false,
}
use hivesync.Engines.Plan.{Plan, PlannedChange}
use hivesync.Engines.Rclone.{side_for}
use hivesync.Runner.State.{World}
use hivesync.Runner.Record.{change_rows, recorded}
use hivesync.Runner.BisyncRecord.{bisync_rows, recorded_bisync}

length-change_rows :
    (side : ChangeSide) (peaks : List (Text × ℕ)) (ops : List PlannedOperation)
    → length (change_rows side peaks ops) ≡ length ops
length-change_rows side peaks [] = refl
length-change_rows side peaks (op ∷ ops) = omega (arith, length-change_rows side peaks ops)

length-bisync_rows :
    (changes : List PlannedChange) (peaks : List (Text × ℕ)) (ops : List PlannedOperation)
    → length (bisync_rows changes peaks ops) ≡ length ops
length-bisync_rows changes peaks [] = refl
length-bisync_rows changes peaks (op ∷ ops) = omega (arith, length-bisync_rows changes peaks ops)

length-removals :
    (log : DryRunLog) → length (removals log) ≡ length (deletes log) + length (Parsers.archived log)
unfolding removals
length-removals log = length-append (deletes log) (Parsers.archived log)

-- A copy is new or a replacement or neither, never both.
length-split :
    (ops : List PlannedOperation)
    → length (keep (λ op. is_false op.replaced) ops) + length (keep (λ op. is_true op.replaced) ops)
      ≤ length ops
length-split [] = omega arith
length-split (op ∷ ops) = ground (arith, length-split ops)

-- A finished one way run adds one row for each file that it copied, deleted or archived, up to
-- 5000 rows; its deletions are the deleted and the archived files together, and its new and
-- updated files are no more than its transfers.
pub recorded_totals :
    (w : World) (job : Job) (plan : Plan) (observed : DryRunLog) (threshold : ℕ) (run : JobRun)
    → let row = recorded w job plan observed threshold run in
      (length row.changes
        ≡ length run.changes + min 5000 (row.files_transferred + row.files_deleted))
      × (row.files_deleted ≡ length (deletes observed) + row.files_archived)
      × (length (created observed) + length (replacements observed) ≤ row.files_transferred)
unfolding recorded
recorded_totals w job plan observed threshold run =
    let ops = copies observed ++ removals observed in
    (
      omega (
        arith,
        length-append run.changes
            (change_rows (side_for job.direction) observed.peak_speeds (take 5000 ops)),
        length-change_rows (side_for job.direction) observed.peak_speeds (take 5000 ops),
        length-take 5000 ops,
        length-append (copies observed) (removals observed),
      ),
      length-removals observed,
      unfold created replacements in length-split (copies observed),
    )

-- A finished bidirectional run adds a row for each copied, deleted and archived file and then one
-- more for each archived file, up to 5000 rows: what its totals count once is listed twice.
pub recorded_bisync_totals :
    (w : World) (job : Job) (observed : DryRunLog) (run : JobRun)
    → let row = recorded_bisync w job observed run in
      (length row.changes
        ≡ length run.changes
          + min 5000 (row.files_transferred + row.files_deleted + row.files_archived))
      × (row.files_deleted ≡ length (deletes observed) + row.files_archived)
unfolding recorded_bisync
recorded_bisync_totals w job observed run =
    let archived = Parsers.archived observed in
    let ops = copies observed ++ (removals observed ++ archived) in
    (
      omega (
        arith,
        length-append run.changes
            (bisync_rows w.bisync_run.changes observed.peak_speeds (take 5000 ops)),
        length-bisync_rows w.bisync_run.changes observed.peak_speeds (take 5000 ops),
        length-take 5000 ops,
        length-append (copies observed) (removals observed ++ archived),
        length-append (removals observed) archived,
      ),
      length-removals observed,
    )
