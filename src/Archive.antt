-- ===== src/Archive.antt =====
-- app/jobs/archive.py: where the files that a run removes go, and which archives are refused.
-- A path is its code points; `remote:path` is taken apart as `_split_remote` does.
pub mod Paths
pub use Paths.{strip_slashes, split_remote, strip_remote}
pub mod Slug
pub mod Joined
pub mod Placement
pub mod ShareRoot
pub mod Refused
use hivesync.Prelude.{
  ℕ, Bool, true, false, not, ◌&&◌, ◌||◌, Option, none, some, List, [], ◌∷◌, ◌++◌, Text, codes,
  text_eq, starts_with, non_empty, strip, length, drop, if◌then◌else◌,
}
use hivesync.Models.{
  Job, ArchiveLayout, timestamped_dir, suffix, ArchiveError, other_connection, other_share,
  same_as_destination,
}
use Paths.{has_slash, first_segment, rstrip_slashes}
use Slug.{slugify}

pub data Outcome (A : Type 0) : Type 0 where
  done : A → Outcome A
  raised : ArchiveError → Outcome A

infixl 5 ◌>>=◌
abbrev pub ◌>>=◌ : {A B : Type 0} → Outcome A → (A → Outcome B) → Outcome B
done a >>= f = f a
raised e >>= f = raised e

infixl 5 ◌>>◌
abbrev pub ◌>>◌ : {B : Type 0} → Outcome (Unit {0}) → Outcome B → Outcome B
m >> k = m >>= λ _. k

pub record ArchivePlan : Type 0 where
  pub base : Text
  pub backup_dir : Text
  pub exclude : Option Text
  pub suffix : Option Text
  pub inside_destination : Bool

abbrev pub archive_suffix : Text
archive_suffix = codes ".hivesync-archive"

-- `f"{remote}:" if remote else ""`
abbrev pub prefix_of : Text → Text
prefix_of [] = []
prefix_of (c ∷ s) = (c ∷ s) ++ codes ":"

abbrev pub is_absolute : Text → Bool
is_absolute [] = false
is_absolute (c ∷ s) = starts_with (c ∷ s) (codes "/")

abbrev base_in : Text → Bool → Text → Text
base_in prefix absolute [] =
    if absolute then prefix ++ (codes "/" ++ archive_suffix) else prefix ++ archive_suffix
base_in prefix absolute (c ∷ s) =
    let trimmed = c ∷ s in
    if not absolute && not (has_slash trimmed)
    then prefix ++ (trimmed ++ (codes "/" ++ archive_suffix))
    else if absolute
    then prefix ++ (codes "/" ++ (trimmed ++ archive_suffix))
    else prefix ++ (trimmed ++ archive_suffix)

pub default_base : Text → Text
default_base destination =
    let (remote, path) = split_remote destination in
    base_in (prefix_of remote) (is_absolute path) (strip_slashes path)

pub qualify : Text → Text → Text
qualify archive_base destination =
    let (remote, _) = split_remote destination in
    let (base_remote, _) = split_remote archive_base in
    if non_empty remote && not (non_empty base_remote)
    then remote ++ (codes ":" ++ archive_base)
    else archive_base

-- Whether one trimmed path is the other or lies below it.
abbrev pub below : Text → Text → Bool
below archive_norm [] = non_empty archive_norm
below archive_norm (c ∷ dest) =
    text_eq archive_norm (c ∷ dest) || starts_with archive_norm ((c ∷ dest) ++ codes "/")

pub is_inside : Text → Text → Bool
is_inside archive_base destination =
    let (archive_remote, archive_path) = split_remote archive_base in
    let (dest_remote, dest_path) = split_remote destination in
    if text_eq archive_remote dest_remote
    then below (strip_slashes archive_path) (strip_slashes dest_path)
    else false

abbrev pub relative_to : Text → Text → Text
relative_to relative prefix =
    if non_empty prefix && text_eq relative prefix
    then []
    else if non_empty prefix && starts_with relative (prefix ++ codes "/")
    then drop (length (prefix ++ codes "/")) relative
    else relative

abbrev pub anchored : Text → Outcome (Option Text)
anchored [] = raised same_as_destination
anchored (c ∷ s) = done (some (codes "/" ++ ((c ∷ s) ++ codes "/**")))

pub exclude_for : Text → Text → Outcome (Option Text)
unfolding is_inside
exclude_for archive_base destination =
    let (_, archive_path) = split_remote archive_base in
    let (_, dest_path) = split_remote destination in
    if not (is_inside archive_base destination)
    then done none
    else anchored
        (strip_slashes (relative_to (strip_slashes archive_path) (strip_slashes dest_path)))

-- The share test of `validate`, made only where there is a remote.
abbrev pub same_share : Text → Text → Text → Outcome (Unit {0})
same_share [] archive_path dest_path = done tt
same_share (c ∷ remote) archive_path dest_path =
    let archive_share = first_segment (strip_slashes archive_path) in
    let dest_share = first_segment (strip_slashes dest_path) in
    if text_eq archive_share dest_share
    then done tt
    else raised (other_share dest_share archive_share)

-- An archive inside the tree is allowed once its exclude resolves.
pub check_exclude : Bool → Text → Text → Outcome (Unit {0})
check_exclude true archive_base destination = do _ ← exclude_for archive_base destination; done tt
check_exclude false archive_base destination = done tt

pub validate : Text → Text → Outcome (Unit {0})
unfolding check_exclude
validate destination archive_base =
    let (archive_remote, archive_path) = split_remote archive_base in
    let (dest_remote, dest_path) = split_remote destination in
    if not (text_eq archive_remote dest_remote)
    then raised (other_connection dest_remote archive_remote)
    else do
      same_share archive_remote archive_path dest_path
      check_exclude (is_inside archive_base destination) archive_base destination

abbrev pub is_some : Option Text → Bool
is_some none = false
is_some (some t) = true

abbrev pub layout_plan : ArchiveLayout → Text → Text → Text → Option Text → ArchivePlan
layout_plan ArchiveLayout.suffix name base stamp exclude = record {
  base = base;
  backup_dir = base;
  exclude = exclude;
  suffix = some (codes "." ++ stamp);
  inside_destination = is_some exclude;
}
layout_plan timestamped_dir name base stamp exclude = record {
  base = base;
  backup_dir = rstrip_slashes base ++ (codes "/" ++ (slugify name ++ (codes "/" ++ stamp)));
  exclude = exclude;
  suffix = none;
  inside_destination = is_some exclude;
}

abbrev pub chosen_base : Option Text → Text
chosen_base none = []
chosen_base (some t) = strip t

abbrev base_for : Text → Text → Text
base_for [] destination = default_base destination
base_for (c ∷ s) destination = qualify (c ∷ s) destination

-- `stamp` is the time of the run, printed by `strftime`.
unfoldable pub plan_for : Job → Text → Text → Outcome ArchivePlan
unfolding validate default_base qualify exclude_for
plan_for job destination stamp =
    let base = base_for (chosen_base job.archive_base) destination in
    do
      validate destination base
      exclude ← exclude_for base destination
      done (layout_plan job.archive_layout job.name base stamp exclude)

abbrev exclude_args : Option Text → List Text
exclude_args none = []
exclude_args (some e) = if non_empty e then codes "--exclude" ∷ e ∷ [] else []

abbrev suffix_args : Option Text → List Text
suffix_args none = []
suffix_args (some s) =
    if non_empty s then codes "--suffix" ∷ s ∷ codes "--suffix-keep-extension" ∷ [] else []

unfoldable pub sync_args : ArchivePlan → List Text
sync_args plan =
    exclude_args plan.exclude ++ (codes "--backup-dir" ∷ plan.backup_dir ∷ suffix_args plan.suffix)

unfoldable pub bisync_args : ArchivePlan → ArchivePlan → List Text
bisync_args plan1 plan2 =
    exclude_args plan1.exclude
    ++ (exclude_args plan2.exclude
        ++ (codes "--backup-dir1"
            ∷ plan1.backup_dir
            ∷ codes "--backup-dir2"
            ∷ plan2.backup_dir
            ∷ suffix_args plan1.suffix))
