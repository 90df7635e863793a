-- ===== src/Engines/Rclone.antt =====
-- app/engines/rclone.py: the direction of a job, the delete brake's threshold, and the argv of a
-- live one way run.
use hivesync.Prelude.{
  ℕ, zero, suc, ◌+◌, ◌*◌, ◌/◌, max, Bool, true, false, Option, none, some, List, [], ◌∷◌, ◌++◌,
  Text, codes, decimal, non_empty, strip, leb, if◌then◌else◌,
}
use hivesync.Models.{
  Connection, FilterPreset, Job, Direction, dest_to_source, DeleteMode, keep_all, CompareMode,
  mtime_size, checksum, size_only, ChangeSide, source, dest,
}
use hivesync.Parsers.{member}

-- `math.ceil(dest_file_count * pct / 100)`, on whole numbers: exact while the quotient is far
-- below 2 ^ 46, where the source's float division still tells hundredths apart.
unfoldable pub resolve_max_delete : ℕ → ℕ → ℕ
resolve_max_delete pct dest_file_count =
    if leb dest_file_count 0 then 1 else max 1 ((dest_file_count * pct + 99) / 100)

unfoldable pub operation_for : DeleteMode → Text
operation_for keep_all = codes "copy"
operation_for _ = codes "sync"

abbrev pub side_for : Direction → ChangeSide
side_for dest_to_source = source
side_for _ = dest

-- (read connection, written connection, read path, written path)
abbrev resolve : Direction → Job → Connection × Connection × Text × Text
resolve dest_to_source job =
    (job.dest_connection, job.source_connection, job.dest_path, job.source_path)
resolve _ job = (job.source_connection, job.dest_connection, job.source_path, job.dest_path)

unfoldable pub endpoints_and_paths : Job → Connection × Connection × Text × Text
endpoints_and_paths job = resolve job.direction job

-- One flag for each rule that is not blank.
abbrev flag_each : Text → List Text → List Text
flag_each flag [] = []
flag_each flag (rule ∷ rules) =
    let rest = flag_each flag rules in
    if non_empty (strip rule) then flag ∷ strip rule ∷ rest else rest

abbrev flag_presets : List FilterPreset → List Text
flag_presets [] = []
flag_presets (p ∷ ps) = flag_each (codes "--exclude") p.exclude_rules ++ flag_presets ps

-- `if value: args += [flag, value]`
abbrev pub flag_text : Text → Option Text → List Text
flag_text flag none = []
flag_text flag (some v) = if non_empty v then flag ∷ v ∷ [] else []

-- The same for a number, which is false at 0.
abbrev flag_number : Text → Option ℕ → List Text
flag_number flag none = []
flag_number flag (some zero) = []
flag_number flag (some (suc n)) = flag ∷ decimal (suc n) ∷ []

unfoldable pub filter_args : Job → List Text
filter_args job =
    flag_each (codes "--include") job.filters.include_rules
    ++ (flag_presets job.filter_presets
        ++ (flag_each (codes "--exclude") job.filters.exclude_rules
            ++ (flag_text (codes "--min-size") job.filters.min_size
                ++ flag_text (codes "--max-age") job.filters.max_age)))

abbrev pub shares : List Text → List Text → Bool
shares [] bs = false
shares (a ∷ as') bs = let rest = shares as' bs in if member a bs then true else rest

abbrev compare_flag : CompareMode → Job → Option (List Text)
compare_flag checksum job =
    if shares job.source_connection.hashes job.dest_connection.hashes
    then some (codes "--checksum" ∷ [])
    else none
compare_flag size_only job = some (codes "--size-only" ∷ [])
compare_flag mtime_size job = some []

-- `none` is the `EngineError` of a checksum job whose endpoints share no hash type.
unfoldable pub comparison_args : Job → Option (List Text)
comparison_args job = elim (compare_flag job.compare_mode job) [
  | none ↦ none
  | some args ↦ some (args ++ flag_text (codes "--modify-window") (some job.modify_window))
]

unfoldable pub performance_args : Job → List Text
performance_args job =
    flag_number (codes "--transfers") job.transfers
    ++ (flag_number (codes "--checkers") job.checkers ++ flag_text (codes "--bwlimit") job.bwlimit)

abbrev pub quiet_period : ℕ → List Text
quiet_period zero = []
quiet_period (suc n) = codes "--min-age" ∷ (decimal (suc n) ++ codes "s") ∷ []

unfoldable pub quiet_period_args : Job → List Text
quiet_period_args job = quiet_period job.quiet_period_seconds

-- The arguments handed to `prepared.argv`; `none` where `comparison_args` raises.
unfoldable pub build_sync_command : Job → Text → Text → ℕ → List Text → Option (List Text)
build_sync_command job src_spec dst_spec max_delete archive = elim (comparison_args job) [
  | none ↦ none
  | some comparison ↦ some (
      (operation_for job.delete_mode
        ∷ src_spec
        ∷ dst_spec
        ∷ codes "--use-json-log"
        ∷ codes "-v"
        ∷ codes "--stats"
        ∷ codes "5s"
        ∷ codes "--stats-one-line"
        ∷ codes "--max-delete"
        ∷ decimal max_delete
        ∷ [])
      ++ (archive
          ++ (comparison ++ (filter_args job ++ (performance_args job ++ quiet_period_args job)))))
]
