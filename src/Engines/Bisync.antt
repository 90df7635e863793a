-- ===== src/Engines/Bisync.antt =====
-- app/engines/bisync.py: the argv of a bidirectional run.
use hivesync.Prelude.{
  ℕ, Bool, true, false, Option, none, some, List, [], ◌∷◌, ◌++◌, Text, codes, decimal, text_eq,
  if◌then◌else◌,
}
use hivesync.Models.{Job, ConflictResolve, newer, older, larger, smaller, path1, path2, no_winner}
use hivesync.Engines.Rclone.{comparison_args, filter_args, performance_args, quiet_period_args}

abbrev pub policy_name : ConflictResolve → Text
policy_name newer = codes "newer"
policy_name older = codes "older"
policy_name larger = codes "larger"
policy_name smaller = codes "smaller"
policy_name path1 = codes "path1"
policy_name path2 = codes "path2"
policy_name no_winner = codes "none"

-- Whether the policy decides by other things than modification times.
unfoldable pub modify_window_applies : ConflictResolve → Bool
modify_window_applies newer = false
modify_window_applies older = false
modify_window_applies _ = true

-- The loop of `_comparison_args_for_bisync`: the flag and its value are left out.
abbrev pub drop_window : Bool → List Text → List Text
drop_window skip_next [] = []
drop_window true (item ∷ items) = drop_window false items
drop_window false (item ∷ items) =
    let skipped = drop_window true items in
    let kept = item ∷ drop_window false items in
    if text_eq item (codes "--modify-window") then skipped else kept

unfoldable pub comparison_args_for_bisync : Job → Option (List Text)
unfolding comparison_args modify_window_applies
comparison_args_for_bisync job = elim (comparison_args job) [
  | none ↦ none
  | some args ↦
      if modify_window_applies job.conflict_resolve
      then some args
      else some (drop_window false args)
]

-- `workdir_for`: the listing state of a job.
unfoldable pub workdir_for : Text → ℕ → Text
workdir_for bisync_dir job_id = bisync_dir ++ (codes "/" ++ decimal job_id)

abbrev when : Bool → List Text → List Text
when true flags = flags
when false flags = []

-- The arguments handed to `prepared.argv`; `none` where `comparison_args` raises.
unfoldable pub build_bisync_command :
    Job → Text → Text → Text → Bool → Bool → Bool → Bool → List Text → Option (List Text)
unfolding comparison_args_for_bisync
build_bisync_command job first second workdir resync dry_run force unattended archive =
    elim (comparison_args_for_bisync job) [
      | none ↦ none
      | some comparison ↦ some (
          (codes "bisync"
            ∷ first
            ∷ second
            ∷ codes "--workdir"
            ∷ workdir
            ∷ codes "--use-json-log"
            ∷ codes "-v"
            ∷ codes "--max-delete"
            ∷ decimal job.max_delete_pct
            ∷ codes "--conflict-resolve"
            ∷ policy_name job.conflict_resolve
            ∷ codes "--conflict-loser"
            ∷ codes "num"
            ∷ [])
          ++ (when resync (codes "--resync" ∷ [])
              ++ (when dry_run (codes "--dry-run" ∷ [])
                  ++ (when force (codes "--force" ∷ [])
                      ++ (when unattended (codes "--resilient" ∷ codes "--recover" ∷ [])
                          ++ (when job.check_access (codes "--check-access" ∷ [])
                              ++ (archive
                                  ++ (comparison
                                      ++ (filter_args job
                                          ++ (performance_args job
                                              ++ quiet_period_args job))))))))))
    ]
