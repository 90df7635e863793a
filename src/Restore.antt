-- ===== src/Restore.antt =====
-- app/jobs/restore.py: what is in a run's archive, and putting files of it back. What rclone answers
-- to a command is a parameter; so is `str.splitlines`.
pub mod Guarded
use hivesync.Prelude.{
  ℕ, Bool, true, false, not, ◌&&◌, ◌||◌, Option, none, some, List, [], ◌∷◌, ◌++◌, Text, codes,
  contains, strip, non_empty, text_eq, text_le, take, if◌then◌else◌,
}
use hivesync.Models.{Job, JobRun, ArchiveLayout, suffix, timestamped_dir, ChangeSide, source, dest}
use hivesync.Archive.Paths.{rstrip_slashes}
use hivesync.Remotes.{Resolved, ok, refused}
use hivesync.Remotes.Env.{Endpoint, Prepared, spec, argv}

-- `RestoreError`, and the reasons of `why_not`.
pub data Reason : Type 0 where
  flat_layout not_recorded : Reason

pub record ArchivedFile : Type 0 where
  pub path : Text
  pub side : ChangeSide

pub data RestoreFault : Type 0 where
  nothing_on_side : Text → RestoreFault
  copy_failed : Text → Text → RestoreFault

pub record RestoreReport : Type 0 where
  pub restored : List Text
  pub skipped : List Text
  pub errors : List RestoreFault

abbrev pub empty_report : RestoreReport
empty_report = record { restored = []; skipped = []; errors = [] }

abbrev pub is_flat : ArchiveLayout → Bool
is_flat suffix = true
is_flat timestamped_dir = false

abbrev pub recorded_dirs : Option (List (ChangeSide × Text)) → List (ChangeSide × Text)
recorded_dirs none = []
recorded_dirs (some dirs) = dirs

abbrev pub no_dirs : List (ChangeSide × Text) → Option Reason
no_dirs [] = some not_recorded
no_dirs (d ∷ ds) = none

unfoldable pub why_not : Job → JobRun → Option Reason
why_not job run =
    if is_flat job.archive_layout
    then some flat_layout
    else no_dirs (recorded_dirs run.archive_dirs)

-- The endpoints of the two sides.
pub record Ends : Type 0 where
  pub prepared : Prepared
  pub source_end : Endpoint
  pub dest_end : Endpoint
  -- `spec` of each with the job's path on it.
  pub source_root : Text
  pub dest_root : Text

abbrev pub end_of : ChangeSide → Ends → Endpoint
end_of source e = e.source_end
end_of dest e = e.dest_end

-- `_live_root`
abbrev pub live_root : ChangeSide → Ends → Text
live_root source e = e.source_root
live_root dest e = e.dest_root

-- `_specs`
abbrev pub specs_of : List (ChangeSide × Text) → Ends → List (ChangeSide × Text)
specs_of [] e = []
specs_of ((side, stored) ∷ dirs) e =
    (side, (end_of side e).alias ++ (codes ":" ++ stored)) ∷ specs_of dirs e

abbrev pub side_eq : ChangeSide → ChangeSide → Bool
side_eq source source = true
side_eq dest dest = true
side_eq _ _ = false

-- `archives.get(side)`; a JSON object has a key once.
abbrev pub spec_of : ChangeSide → List (ChangeSide × Text) → Option Text
spec_of side [] = none
spec_of side ((s, t) ∷ specs) = if side_eq s side then some t else spec_of side specs

-- `CommandResult` of a finished process.
pub record Finished : Type 0 where
  pub is_ok : Bool
  pub stdout : Text
  pub stderr : Text

-- The order of the pairs of the side's name and the path; `dest` is before `source`.
abbrev pub before : ArchivedFile → ArchivedFile → Bool
before a b =
    (side_eq a.side dest && side_eq b.side source)
    || (side_eq a.side b.side && text_le a.path b.path)

abbrev pub insert_file : ArchivedFile → List ArchivedFile → List ArchivedFile
insert_file a [] = a ∷ []
insert_file a (b ∷ bs) = let rest = insert_file a bs in if before a b then a ∷ b ∷ bs else b ∷ rest

abbrev pub sorted_files : List ArchivedFile → List ArchivedFile
sorted_files [] = []
sorted_files (a ∷ as') = insert_file a (sorted_files as')

abbrev pub max_listed : ℕ
max_listed = 2000

abbrev pub files_in : ChangeSide → List Text → List ArchivedFile
files_in side [] = []
files_in side (l ∷ ls) =
    let rest = files_in side ls in
    if non_empty (strip l) then record { path = strip l; side = side } ∷ rest else rest

-- The arguments of the copy of one file.
abbrev pub copy_tail : Text → ArchivedFile → Ends → List Text
copy_tail archive item e =
    codes "copyto"
    ∷ (rstrip_slashes archive ++ (codes "/" ++ item.path))
    ∷ (rstrip_slashes (live_root item.side e) ++ (codes "/" ++ item.path))
    ∷ codes "--ignore-existing"
    ∷ codes "--use-json-log"
    ∷ codes "-v"
    ∷ []

module _ (run_command : List Text → Finished) (lines : Text → List Text) where
  abbrev pub listed_in : List (ChangeSide × Text) → Ends → List ArchivedFile
  listed_in [] e = []
  listed_in ((side, t) ∷ specs) e =
      let rest = listed_in specs e in
      let result =
        run_command
          (argv e.prepared (codes "lsf" ∷ codes "--recursive" ∷ codes "--files-only" ∷ t ∷ [])) in
      if result.is_ok then files_in side (lines result.stdout) ++ rest else rest

  -- `none` is its `RestoreError`.
  unfoldable pub list_archived : Job → JobRun → Ends → Option (List ArchivedFile)
  unfolding why_not
  list_archived job run e = elim (why_not job run) [
    | some reason ↦ none
    | none ↦
        some (
          take max_listed
            (sorted_files (listed_in (specs_of (recorded_dirs run.archive_dirs) e) e)))
  ]

  -- The command of one file.
  abbrev pub copy_args : Text → ArchivedFile → Ends → List Text
  copy_args archive item e = argv e.prepared (copy_tail archive item e)

  -- What one answer adds to the report.
  abbrev pub noted : Finished → ArchivedFile → RestoreReport → RestoreReport
  noted result item r =
      if not result.is_ok
      then record r {
        errors = r.errors ++ copy_failed item.path (take 200 (strip result.stderr)) ∷ [];
      }
      else if contains (result.stdout ++ result.stderr) (codes "Copied")
      then record r { restored = r.restored ++ item.path ∷ [] }
      else record r { skipped = r.skipped ++ item.path ∷ [] }

  abbrev pub restore_one :
      Option Text
      → ArchivedFile
      → Ends
      → RestoreReport × List (List Text)
      → RestoreReport × List (List Text)
  restore_one none item e (r, commands) =
      (record r { errors = r.errors ++ nothing_on_side item.path ∷ [] }, commands)
  restore_one (some archive) item e (r, commands) = (
    noted (run_command (copy_args archive item e)) item r,
    commands ++ copy_args archive item e ∷ [],
  )

  -- The report, and the commands that were run.
  unfoldable pub restore_all :
      List ArchivedFile
      → List (ChangeSide × Text)
      → Ends
      → RestoreReport × List (List Text)
      → RestoreReport × List (List Text)
  restore_all [] archives e done = done
  restore_all (item ∷ wanted) archives e done =
      restore_all wanted archives e (restore_one (spec_of item.side archives) item e done)

  -- `restore` with the endpoints that `prepare` gave; `none` is its `RestoreError`.
  unfoldable pub restore :
      Job → JobRun → List ArchivedFile → Ends → Option (RestoreReport × List (List Text))
  unfolding restore_all why_not
  restore job run wanted e = elim (why_not job run) [
    | some reason ↦ none
    | none ↦
        some (restore_all wanted (specs_of (recorded_dirs run.archive_dirs) e) e (empty_report, []))
  ]
