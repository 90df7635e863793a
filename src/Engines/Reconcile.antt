-- ===== src/Engines/Reconcile.antt =====
-- `_reconcile` of app/engines/rclone.py: the plan that presence and intent make together.
pub mod Counts
use hivesync.Prelude.{
  ℕ, ◌+◌, Option, none, some, List, [], ◌∷◌, ◌++◌, Text, codes, text_eq, text_le, if◌then◌else◌,
  length,
}
use hivesync.Models.{ChangeAction}
use hivesync.Parsers
use hivesync.Parsers.{
  PlannedOperation, DryRunLog, PresenceReport, copies, removals, member, difference,
  present_on_source, summarise_errors,
}
use hivesync.Engines.Plan.{PlannedChange, Plan}

-- `{op.path: op for op in ops}`: a later operation on a path replaces the earlier one.
abbrev pub put : PlannedOperation → List PlannedOperation → List PlannedOperation
put op [] = op ∷ []
put op (o ∷ os) = let rest = put op os in if text_eq o.path op.path then op ∷ os else o ∷ rest

abbrev pub by_path_from : List PlannedOperation → List PlannedOperation → List PlannedOperation
by_path_from acc [] = acc
by_path_from acc (op ∷ ops) = by_path_from (put op acc) ops

unfoldable pub by_path : List PlannedOperation → List PlannedOperation
by_path ops = by_path_from [] ops

-- `sorted(… .items())`: paths are distinct, so the order is that of the paths.
abbrev pub insert_sorted : PlannedOperation → List PlannedOperation → List PlannedOperation
insert_sorted op [] = op ∷ []
insert_sorted op (o ∷ os) =
    let rest = insert_sorted op os in if text_le op.path o.path then op ∷ o ∷ os else o ∷ rest

abbrev pub sorted : List PlannedOperation → List PlannedOperation
sorted [] = []
sorted (op ∷ ops) = insert_sorted op (sorted ops)

abbrev pub insert_path : Text → List Text → List Text
insert_path p [] = p ∷ []
insert_path p (q ∷ qs) = let rest = insert_path p qs in if text_le p q then p ∷ q ∷ qs else q ∷ rest

abbrev pub sorted_paths : List Text → List Text
sorted_paths [] = []
sorted_paths (p ∷ ps) = insert_path p (sorted_paths ps)

abbrev pub paths_of : List PlannedOperation → List Text
paths_of [] = []
paths_of (op ∷ ops) = op.path ∷ paths_of ops

-- `op.size or 0`
abbrev pub size_or_zero : PlannedOperation → ℕ
size_or_zero op = elim op.size [ none ↦ 0 | some n ↦ n ]

abbrev pub copy_changes : List Text → List PlannedOperation → List PlannedChange
copy_changes missing [] = []
copy_changes missing (op ∷ ops) =
    record {
      action = if member op.path missing then ChangeAction.new else ChangeAction.updated;
      path = op.path;
      size = op.size;
      message = none;
      side = none;
    }
    ∷ copy_changes missing ops

abbrev pub delete_changes : List PlannedOperation → List PlannedChange
delete_changes [] = []
delete_changes (op ∷ ops) =
    record {
      action = ChangeAction.deleted;
      path = op.path;
      size = op.size;
      message = none;
      side = none;
    }
    ∷ delete_changes ops

abbrev pub error_changes : List Text → List PlannedChange
error_changes [] = []
error_changes (p ∷ ps) =
    record {
      action = ChangeAction.error;
      path = p;
      size = none;
      message = some (codes "This file could not be compared.");
      side = none;
    }
    ∷ error_changes ps

abbrev pub sum_sizes : List PlannedOperation → ℕ
sum_sizes [] = 0
sum_sizes (op ∷ ops) = size_or_zero op + sum_sizes ops

unfoldable pub reconcile : Plan → PresenceReport → DryRunLog → Plan
reconcile plan presence dry =
    let would_copy = by_path (copies dry) in
    let would_delete = by_path (removals dry) in
    record plan {
      changes =
          plan.changes
          ++ (copy_changes presence.missing_on_dest (sorted would_copy)
              ++ (delete_changes (sorted would_delete)
                  ++ error_changes (sorted_paths presence.errored)));
      bytes_to_transfer = plan.bytes_to_transfer + sum_sizes (sorted would_copy);
      unchanged_count = length (difference (present_on_source presence) (paths_of would_copy));
      dest_file_count = Parsers.dest_file_count presence;
      errors = summarise_errors dry.errors 20;
      truncated = dry.max_delete_hit;
    }
