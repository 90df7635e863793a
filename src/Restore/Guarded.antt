-- ===== src/Restore/Guarded.antt =====
-- The commands and the report of `restore` in app/jobs/restore.py.
use hivesync.Prelude.{
  append-nil, append_assoc, Bool, false, not, ◌&&◌, if◌then◌else◌, map, ap, sym, ◌∙◌, refl,
  contains, ◌≡◌, true, Option, Option-cases, none, some, List, [], ◌∷◌, ◌++◌, Text, codes,
  text_eq_refl, take, strip, arith, inl, inr,
}
use hivesync.Models.{Job, JobRun, ChangeSide}
use hivesync.Parsers.{member}
use hivesync.Archive.Paths.{rstrip_slashes}
use hivesync.Remotes.Env.{argv}
use hivesync.Restore.{
  RestoreFault, ArchivedFile, RestoreReport, empty_report, why_not, recorded_dirs, specs_of,
  spec_of, Ends, Finished, nothing_on_side, copy_failed, copy_args, copy_tail, live_root,
  restore_one, restore_all, restore,
}

-- Each command has the flag.
abbrev pub AllGuarded : List (List Text) → Type 0
AllGuarded [] = Unit
AllGuarded (c ∷ cs) = (member (codes "--ignore-existing") c ≡ true) × AllGuarded cs

AllGuarded-append :
    (cs : List (List Text)) (c : List Text)
    → AllGuarded cs
    → member (codes "--ignore-existing") c ≡ true
    → AllGuarded (cs ++ c ∷ [])
AllGuarded-append [] c all h = (h, tt)
AllGuarded-append (d ∷ cs) c all h = (all.0, AllGuarded-append cs c all.1 h)

member-append : (p : Text) (xs ys : List Text) → member p ys ≡ true → member p (xs ++ ys) ≡ true
member-append p [] ys h = h
member-append p (x ∷ xs) ys h = ground (arith, member-append p xs ys h)

member-tail : (p x : Text) (xs : List Text) → member p xs ≡ true → member p (x ∷ xs) ≡ true
member-tail p x xs h = ground (arith, h)

member-head : (p : Text) (xs : List Text) → member p (p ∷ xs) ≡ true
member-head p xs = ground (arith, text_eq_refl p)

copy_tail-guarded :
    (archive : Text) (item : ArchivedFile) (e : Ends)
    → member (codes "--ignore-existing") (copy_tail archive item e) ≡ true
copy_tail-guarded archive item e =
    let flag = codes "--ignore-existing" in
    let rest = codes "--use-json-log" ∷ codes "-v" ∷ [] in
    member-append flag
      (codes "copyto"
        ∷ (rstrip_slashes archive ++ (codes "/" ++ item.path))
        ∷ (rstrip_slashes (live_root item.side e) ++ (codes "/" ++ item.path))
        ∷ [])
      (flag ∷ rest) (member-head flag rest)

-- What an answer says of its file.
abbrev pub was_copied : Option Finished → Bool
was_copied none = false
was_copied (some result) =
    result.is_ok && contains (result.stdout ++ result.stderr) (codes "Copied")

abbrev pub was_left : Option Finished → Bool
was_left none = false
was_left (some result) =
    result.is_ok && not (contains (result.stdout ++ result.stderr) (codes "Copied"))

abbrev pub was_failed : Option Finished → Bool
was_failed none = true
was_failed (some result) = not result.is_ok

abbrev pub fault_path : RestoreFault → Text
fault_path (nothing_on_side path) = path
fault_path (copy_failed path why) = path

map-append_one :
    (faults : List RestoreFault) (fault : RestoreFault)
    → map fault_path (faults ++ fault ∷ []) ≡ map fault_path faults ++ fault_path fault ∷ []
map-append_one [] fault = refl
map-append_one (f ∷ fs) fault = ap (λ rest. fault_path f ∷ rest) (map-append_one fs fault)

module _ (run_command : List Text → Finished) (lines : Text → List Text) where
  copy_args-guarded :
      (archive : Text) (item : ArchivedFile) (e : Ends)
      → member (codes "--ignore-existing") (copy_args run_command lines archive item e) ≡ true
  unfolding argv
  copy_args-guarded archive item e =
      let flag = codes "--ignore-existing" in
      let args = copy_tail archive item e in
      let never = member-tail flag (codes "NEVER") args (copy_tail-guarded archive item e) in
      let color = member-tail flag (codes "--color") (codes "NEVER" ∷ args) never in
      member-tail flag (codes "rclone")
        (e.prepared.base_args ++ codes "--color" ∷ codes "NEVER" ∷ args)
        (member-append flag e.prepared.base_args (codes "--color" ∷ codes "NEVER" ∷ args) color)

  restore_one-keeps :
      (archive : Option Text) (item : ArchivedFile) (e : Ends) (r : RestoreReport)
      (commands : List (List Text))
      → AllGuarded commands
      → AllGuarded (restore_one run_command lines archive item e (r, commands)).1
  restore_one-keeps none item e r commands all = all
  restore_one-keeps (some archive) item e r commands all =
      AllGuarded-append commands (copy_args run_command lines archive item e) all
        (copy_args-guarded archive item e)

  restore_all-keeps :
      (wanted : List ArchivedFile) (archives : List (ChangeSide × Text)) (e : Ends)
      (r : RestoreReport) (commands : List (List Text))
      → AllGuarded commands
      → AllGuarded (restore_all run_command lines wanted archives e (r, commands)).1
  unfolding restore_all
  restore_all-keeps [] archives e r commands all = all
  restore_all-keeps (item ∷ wanted) archives e r commands all =
      let (r', commands') =
        restore_one run_command lines (spec_of item.side archives) item e (r, commands) in
      restore_all-keeps wanted archives e r' commands'
        (restore_one-keeps (spec_of item.side archives) item e r commands all)

  -- What rclone answered for a file; `none` where nothing was archived on its side.
  abbrev pub answer_for : List (ChangeSide × Text) → Ends → ArchivedFile → Option Finished
  answer_for archives e item = elim (spec_of item.side archives) [
    | none ↦ none
    | some archive ↦ some (run_command (copy_args run_command lines archive item e))
  ]

  abbrev pub picked :
      (Option Finished → Bool) → List (ChangeSide × Text) → Ends → List ArchivedFile → List Text
  picked p archives e [] = []
  picked p archives e (item ∷ wanted) =
      let rest = picked p archives e wanted in
      if p (answer_for archives e item) then item.path ∷ rest else rest

  -- The report holds more than `r`: the paths of these files, by what was answered for each.
  pub record Accounts (archives : List (ChangeSide × Text)) (e : Ends) (wanted : List ArchivedFile)
      (r after : RestoreReport) : Type 0 where
    pub copied : after.restored ≡ r.restored ++ picked was_copied archives e wanted
    pub left : after.skipped ≡ r.skipped ++ picked was_left archives e wanted
    pub failed :
        map fault_path after.errors ≡ map fault_path r.errors ++ picked was_failed archives e wanted

  restore_one-Accounts :
      (archives : List (ChangeSide × Text)) (e : Ends) (item : ArchivedFile) (r : RestoreReport)
      (commands : List (List Text))
      → Accounts archives e
          (item ∷ [])
          r
          (restore_one run_command lines (spec_of item.side archives) item e (r, commands)).0
  restore_one-Accounts archives e item r commands =
      elim (Option-cases (spec_of item.side archives)) [
        | inl absent ↦ record {
          copied = ground (arith, absent, append-nil r.restored);
          left = ground (arith, absent, append-nil r.skipped);
          failed = ground (arith, absent, map-append_one r.errors (nothing_on_side item.path));
        }
        | inr (archive, there) ↦
            let result = run_command (copy_args run_command lines archive item e) in
            record {
              copied = ground (arith, there, append-nil r.restored);
              left = ground (arith, there, append-nil r.skipped);
              failed = ground (
                arith,
                there,
                append-nil (map fault_path r.errors),
                map-append_one r.errors (copy_failed item.path (take 200 (strip result.stderr))),
              );
            }
      ]

  picked-cons :
      (p : Option Finished → Bool) (archives : List (ChangeSide × Text)) (e : Ends)
      (item : ArchivedFile) (wanted : List ArchivedFile) (front : List Text)
      → (front ++ picked p archives e (item ∷ [])) ++ picked p archives e wanted
        ≡ front ++ picked p archives e (item ∷ wanted)
  picked-cons p archives e item wanted front =
      append_assoc front (picked p archives e (item ∷ [])) (picked p archives e wanted)
      ∙ ground arith

  restore_all-Accounts :
      (wanted : List ArchivedFile) (archives : List (ChangeSide × Text)) (e : Ends)
      (r : RestoreReport) (commands : List (List Text))
      → Accounts archives e wanted r
          (restore_all run_command lines wanted archives e (r, commands)).0
  unfolding restore_all
  restore_all-Accounts [] archives e r commands = record {
    copied = sym (append-nil r.restored);
    left = sym (append-nil r.skipped);
    failed = sym (append-nil (map fault_path r.errors));
  }
  restore_all-Accounts (item ∷ wanted) archives e r commands =
      let (r', commands') =
        restore_one run_command lines (spec_of item.side archives) item e (r, commands) in
      let first = restore_one-Accounts archives e item r commands in
      let rest = restore_all-Accounts wanted archives e r' commands' in
      record {
        copied =
            rest.copied
            ∙ (ap (λ xs. xs ++ picked was_copied archives e wanted) first.copied
                ∙ picked-cons was_copied archives e item wanted r.restored);
        left =
            rest.left
            ∙ (ap (λ xs. xs ++ picked was_left archives e wanted) first.left
                ∙ picked-cons was_left archives e item wanted r.skipped);
        failed =
            rest.failed
            ∙ (ap (λ xs. xs ++ picked was_failed archives e wanted) first.failed
                ∙ picked-cons was_failed archives e item wanted (map fault_path r.errors));
      }

  -- A restore that is not refused reports each wanted file by what rclone answered for it: as
  -- restored where the copy succeeded and says `Copied`, as skipped where it succeeded without
  -- that, and among the errors where it failed or nothing is archived on the file's side; each in
  -- the order that was asked for. Every command that it runs carries `--ignore-existing`.
  pub restore-guarded :
      (job : Job) (run : JobRun) (wanted : List ArchivedFile) (e : Ends) (report : RestoreReport)
      (commands : List (List Text))
      → restore run_command lines job run wanted e ≡ some (report, commands)
      → Accounts (specs_of (recorded_dirs run.archive_dirs) e) e wanted empty_report report
        × AllGuarded commands
  unfolding restore
  restore-guarded job run wanted e report commands h =
      let archives = specs_of (recorded_dirs run.archive_dirs) e in
      let accounts = restore_all-Accounts wanted archives e empty_report [] in
      let guarded = restore_all-keeps wanted archives e empty_report [] tt in
      elim (Option-cases (why_not job run)) [
        | inr (reason, there) ↦ ground (arith, there, h)
        | inl free ↦
            let same : restore_all run_command lines wanted archives e (empty_report, [])
                ≡ (report, commands) =
              ground (arith, free, h) in
            (rw same at accounts, rw same at guarded)
      ]
