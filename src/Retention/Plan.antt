-- ===== src/Retention/Plan.antt =====
-- `plan_archive` of app/jobs/retention.py. The directories on disk, the joining of paths, the digits
-- that `\d` takes and `strptime` are parameters.
pub mod Old
pub mod Chosen
pub mod Misplaced
use hivesync.Prelude.{
  ℕ, zero, suc, ◌+◌, ◌-◌, ◌*◌, Bool, true, false, not, ◌&&◌, ◌||◌, Option, none, some, List, [],
  ◌∷◌, ◌++◌, Text, codes, starts_with, non_empty, ltb, ◌==◌, text_le, if◌then◌else◌, keep,
}
use hivesync.Models.{Job, is_archive, ArchiveLayout, timestamped_dir, suffix}
use hivesync.Engines.Rclone.{endpoints_and_paths}
use hivesync.Remotes.{Resolved, ok, refused, display_path}
use hivesync.Archive
use hivesync.Archive.{ArchivePlan, Outcome, plan_for, split_remote}
use hivesync.Archive.Slug.{slugify}
use hivesync.Retention.{
  SkipReason, retention_not_set, flat_directory, nothing_archived, unresolved, on_remote,
  ArchivePruning,
}

pub record Entry : Type 0 where
  pub name : Text
  pub is_dir : Bool
  -- `_size_of` of the directory.
  pub bytes : ℕ

pub record Disk : Type 0 where
  pub is_dir : Text → Bool
  pub entries : Text → List Entry
  pub under : Text → Text → Text
  pub is_digit : ℕ → Bool
  -- `strptime` with the stamp's format, in seconds; `none` is its `ValueError`.
  pub stamped_at : Text → Option ℕ

-- `retention_for`
abbrev pub retention_for : Option ℕ → Option ℕ → Option ℕ
retention_for none default = default
retention_for (some days) default = some days

-- `not days` of an optional number is its absence or 0.
abbrev pub days_or_zero : Option ℕ → ℕ
days_or_zero none = 0
days_or_zero (some n) = n

abbrev pub insert_entry : Entry → List Entry → List Entry
insert_entry e [] = e ∷ []
insert_entry e (f ∷ fs) =
    let rest = insert_entry e fs in if text_le e.name f.name then e ∷ f ∷ fs else f ∷ rest

abbrev pub sorted_entries : List Entry → List Entry
sorted_entries [] = []
sorted_entries (e ∷ es) = insert_entry e (sorted_entries es)

-- An optional subpath that is blank is none.
abbrev pub or_none : Text → Option Text
or_none [] = none
or_none (c ∷ s) = some (c ∷ s)

abbrev pub is_timestamped : ArchiveLayout → Bool
is_timestamped timestamped_dir = true
is_timestamped suffix = false

module _ (disk : Disk) where
  -- A shape of digits (0) and other characters, to the end or to a last line break.
  abbrev pub fits : List ℕ → Text → Bool
  fits [] [] = true
  fits [] (c ∷ []) = c == 10
  fits [] (c ∷ d ∷ s) = false
  fits (k ∷ shape) [] = false
  fits (zero ∷ shape) (c ∷ s) = disk.is_digit c && fits shape s
  fits (suc k ∷ shape) (c ∷ s) = (c == suc k) && fits shape s

  -- `STAMP.match`: `\d{4}-\d{2}-\d{2}T\d{2}-\d{2}-\d{2}Z`
  unfoldable pub is_stamp : Text → Bool
  is_stamp name =
      fits
        (0 ∷ 0 ∷ 0 ∷ 0 ∷ 45 ∷ 0 ∷ 0 ∷ 45 ∷ 0 ∷ 0 ∷ 84 ∷ 0 ∷ 0 ∷ 45 ∷ 0 ∷ 0 ∷ 45 ∷ 0 ∷ 0 ∷ 90 ∷ [])
        name

  abbrev pub chosen_one : ℕ → Text → Entry → Option ℕ → ArchivePruning → Option ArchivePruning
  chosen_one cutoff root e none plan = none
  chosen_one cutoff root e (some stamped) plan =
      if ltb stamped cutoff
      then some (record plan {
        directories = plan.directories ++ disk.under root e.name ∷ [];
        bytes_freed = plan.bytes_freed + e.bytes;
      })
      else some plan

  -- The loop over the entries; `none` is the `ValueError` of a stamp that is no date.
  unfoldable pub choose : ℕ → Text → List Entry → ArchivePruning → Option ArchivePruning
  unfolding is_stamp
  choose cutoff root [] plan = some plan
  choose cutoff root (e ∷ es) plan =
      let passed_over = choose cutoff root es plan in
      if not e.is_dir || not (is_stamp e.name)
      then passed_over
      else elim (chosen_one cutoff root e (disk.stamped_at e.name) plan) [
        | none ↦ none
        | some grown ↦ choose cutoff root es grown
      ]

  abbrev pub skipped : SkipReason → ArchivePruning → Option ArchivePruning
  skipped why plan = some (record plan { skipped_reason = some why })

  -- From the base of the archive on.
  unfoldable pub plan_base : ℕ → ℕ → Job → ArchivePruning → Text → Option ArchivePruning
  unfolding choose
  plan_base now days job plan base =
      let (remote, path) = split_remote base in
      let root = disk.under path (slugify job.name) in
      if non_empty remote || not (starts_with path (codes "/"))
      then skipped (on_remote base) plan
      else if not (disk.is_dir root)
      then skipped nothing_archived plan
      else choose (now - days * 86400) root (sorted_entries (disk.entries root)) plan

  abbrev pub plan_resolved :
      ℕ → ℕ → Job → ArchivePruning → Outcome ArchivePlan → Option ArchivePruning
  plan_resolved now days job plan (Outcome.raised e) = skipped unresolved plan
  plan_resolved now days job plan (Outcome.done a) = plan_base now days job plan a.base

  abbrev pub plan_displayed :
      ℕ → Text → ℕ → Job → ArchivePruning → Resolved Text → Option ArchivePruning
  plan_displayed now stamp days job plan (refused e) = skipped unresolved plan
  plan_displayed now stamp days job plan (ok destination) =
      plan_resolved now days job plan (plan_for job destination stamp)

  -- `default_days` is the preference, `stamp` the one that `plan_for` puts into a path that is not
  -- used here.
  unfoldable pub plan_archive : Option ℕ → ℕ → Text → Job → Option ArchivePruning
  unfolding plan_base endpoints_and_paths display_path
  plan_archive default_days now stamp job =
      let days = days_or_zero (retention_for job.archive_retention_days default_days) in
      let plan : ArchivePruning = record {
        job_id = job.id;
        job_name = job.name;
        retention_days = days;
        skipped_reason = none;
        directories = [];
        bytes_freed = 0;
      } in
      let (_, dest, _, write) = endpoints_and_paths job in
      if not (is_archive job.delete_mode) || (days == 0)
      then skipped retention_not_set plan
      else if not (is_timestamped job.archive_layout)
      then skipped flat_directory plan
      else plan_displayed now stamp days job plan (display_path dest (or_none write))
