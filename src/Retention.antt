-- ===== src/Retention.antt =====
-- The pruning of archives and logs in app/jobs/retention.py. What the file system answers to a
-- removal is a parameter; a file whose `stat` fails is not in the list, as the code passes it over.
pub mod Pruned
pub mod Plan
pub mod History
use hivesync.Prelude.{
  ℕ, zero, suc, ◌+◌, ◌-◌, ◌*◌, Bool, true, false, ◌&&◌, ◌||◌, Option, List, [], ◌∷◌, ◌++◌, Text,
  leb, ltb, ◌==◌, text_le, if◌then◌else◌, total,
}

-- A directory that a plan names, or the file of a log.
pub data RemovalError : Type 0 where
  could_not_remove : Text → RemovalError

pub record Report : Type 0 where
  pub directories_removed : ℕ
  pub bytes_freed : ℕ
  pub logs_removed : ℕ
  pub runs_removed : ℕ
  pub errors : List RemovalError

abbrev pub empty_report : Report
empty_report = record {
  directories_removed = 0;
  bytes_freed = 0;
  logs_removed = 0;
  runs_removed = 0;
  errors = [];
}

-- Why a job's archive is left alone; the fourth carries the archive's path.
pub data SkipReason : Type 0 where
  retention_not_set flat_directory nothing_archived : SkipReason
  unresolved : SkipReason
  on_remote : Text → SkipReason

-- `ArchivePlan`
pub record ArchivePruning : Type 0 where
  pub job_id : ℕ
  pub job_name : Text
  pub retention_days : ℕ
  pub skipped_reason : Option SkipReason
  pub directories : List Text
  pub bytes_freed : ℕ

pub record LogFile : Type 0 where
  pub mtime : ℕ
  pub size : ℕ
  pub path : Text

abbrev pub with_error : Text → Report → Report
with_error path r = record r { errors = r.errors ++ could_not_remove path ∷ [] }

-- The order of the tuples `(mtime, size, path)`.
abbrev pub older : LogFile → LogFile → Bool
older f g =
    ltb f.mtime g.mtime
    || ((f.mtime == g.mtime)
        && (ltb f.size g.size || ((f.size == g.size) && text_le f.path g.path)))

abbrev pub insert_file : LogFile → List LogFile → List LogFile
insert_file f [] = f ∷ []
insert_file f (g ∷ gs) = let rest = insert_file f gs in if older f g then f ∷ g ∷ gs else g ∷ rest

abbrev pub oldest_first : List LogFile → List LogFile
oldest_first [] = []
oldest_first (f ∷ fs) = insert_file f (oldest_first fs)

module _ (removable : Text → Bool) where
  abbrev pub remove_directories : List Text → Report → Report
  remove_directories [] r = r
  remove_directories (d ∷ ds) r =
      let gone =
        remove_directories ds (record r { directories_removed = suc r.directories_removed }) in
      let left = remove_directories ds (with_error d r) in if removable d then gone else left

  unfoldable pub prune_archive : ArchivePruning → Report → Report
  prune_archive plan r =
      let done = remove_directories plan.directories r in
      record done { bytes_freed = done.bytes_freed + plan.bytes_freed }

  -- Age first: the files that are young enough, and the report.
  unfoldable pub prune_aged : ℕ → List LogFile → Report → List LogFile × Report
  prune_aged cutoff [] r = ([], r)
  prune_aged cutoff (f ∷ fs) r =
      let gone = prune_aged cutoff fs (record r { logs_removed = suc r.logs_removed }) in
      let left = prune_aged cutoff fs (with_error f.path r) in
      let (young, r') = prune_aged cutoff fs r in
      if ltb f.mtime cutoff then (if removable f.path then gone else left) else (f ∷ young, r')

  -- Then size, from the front, until the total is within the budget: what is left, and the report.
  unfoldable pub shrink : ℕ → ℕ → List LogFile → Report → List LogFile × Report
  shrink budget bytes [] r = ([], r)
  shrink budget bytes (f ∷ fs) r =
      let gone =
        shrink budget (bytes - f.size) fs (record r { logs_removed = suc r.logs_removed }) in
      let (kept, r') = shrink budget bytes fs (with_error f.path r) in
      if leb bytes budget then (f ∷ fs, r) else if removable f.path then gone else (f ∷ kept, r')

  -- `prune_logs` where the log directory is there: the young files that are left, and the report.
  unfoldable pub prune_logs : ℕ → ℕ → List LogFile → Report → List LogFile × Report
  unfolding prune_aged shrink
  prune_logs cutoff max_total_mb files r =
      let (young, aged) = prune_aged cutoff files r in
      shrink (max_total_mb * 1024 * 1024) (total (λ f. f.size) young) (oldest_first young) aged
