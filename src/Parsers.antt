-- ===== src/Parsers.antt =====
-- app/engines/parsers.py: what the program reads out of rclone's output.
pub mod DryRun
use hivesync.Prelude.{
  ℕ, ◌-◌, ◌*◌, ◌/◌, min, Bool, true, false, not, ◌||◌, Option, none, some, List, [], ◌∷◌, ◌++◌,
  Text, codes, decimal, text_eq, non_empty, leb, if◌then◌else◌, length, take, keep,
}

-- The values of the `skipped` field that the program knows, and any other.
pub data Operation : Type 0 where
  skipped_copy skipped_delete skipped_archive : Operation
  other_operation : Text → Operation

abbrev pub is_copy : Operation → Bool
is_copy skipped_copy = true
is_copy _ = false

abbrev pub is_delete : Operation → Bool
is_delete skipped_delete = true
is_delete _ = false

abbrev pub is_archived : Operation → Bool
is_archived skipped_archive = true
is_archived _ = false

pub record PlannedOperation : Type 0 where
  pub path : Text
  pub operation : Operation
  pub size : Option ℕ
  pub replaced : Option Bool

pub record DryRunLog : Type 0 where
  pub operations : List PlannedOperation
  pub errors : List Text
  pub stats_bytes : Option (Option ℕ)
  pub max_delete_hit : Bool
  pub peak_speeds : List (Text × ℕ)

abbrev pub empty_log : DryRunLog
empty_log = record {
  operations = [];
  errors = [];
  stats_bytes = none;
  max_delete_hit = false;
  peak_speeds = [];
}

unfoldable pub copies : DryRunLog → List PlannedOperation
copies log = keep (λ op. is_copy op.operation) log.operations

abbrev pub is_false : Option Bool → Bool
is_false (some false) = true
is_false _ = false

abbrev pub is_true : Option Bool → Bool
is_true (some true) = true
is_true _ = false

unfoldable pub created : DryRunLog → List PlannedOperation
unfolding copies
created log = keep (λ op. is_false op.replaced) (copies log)

unfoldable pub replacements : DryRunLog → List PlannedOperation
unfolding copies
replacements log = keep (λ op. is_true op.replaced) (copies log)

unfoldable pub deletes : DryRunLog → List PlannedOperation
deletes log = keep (λ op. is_delete op.operation) log.operations

unfoldable pub archived : DryRunLog → List PlannedOperation
archived log = keep (λ op. is_archived op.operation) log.operations

unfoldable pub removals : DryRunLog → List PlannedOperation
unfolding deletes archived
removals log = deletes log ++ archived log

-- `path in paths`
abbrev pub member : Text → List Text → Bool
member p [] = false
member p (q ∷ qs) = text_eq p q || member p qs

-- A set of paths is a list without repetitions; `a | b` keeps `a` and adds what it lacks.
abbrev pub union : List Text → List Text → List Text
union a b = a ++ keep (λ p. not (member p a)) b

abbrev pub difference : List Text → List Text → List Text
difference a b = keep (λ p. not (member p b)) a

pub record PresenceReport : Type 0 where
  pub missing_on_dest : List Text
  pub missing_on_source : List Text
  pub differing : List Text
  pub matching : List Text
  pub errored : List Text

unfoldable pub present_on_source : PresenceReport → List Text
present_on_source r = union (union r.matching r.differing) r.missing_on_dest

unfoldable pub present_on_dest : PresenceReport → List Text
present_on_dest r = union (union r.matching r.differing) r.missing_on_source

unfoldable pub dest_file_count : PresenceReport → ℕ
unfolding present_on_dest
dest_file_count r = length (present_on_dest r)

-- `dict.fromkeys(lines)`: the first of each, in order; `seen` holds what came before.
abbrev pub from_keys : List Text → List Text → List Text
from_keys seen [] = []
from_keys seen (l ∷ ls) =
    let old = from_keys seen ls in
    let fresh = l ∷ from_keys (l ∷ seen) ls in if member l seen then old else fresh

unfoldable pub summarise_errors : List Text → ℕ → List Text
summarise_errors lines limit =
    let collected = from_keys [] (keep non_empty lines) in
    if leb (length collected) limit
    then collected
    else take limit collected
      ++ (codes "and " ++ decimal (length collected - limit) ++ codes " more errors") ∷ []

pub record FileProgress : Type 0 where
  pub name : Text
  pub bytes_done : ℕ
  pub size : ℕ
  pub percentage : ℕ
  pub speed : ℕ
  pub eta_seconds : Option ℕ

pub record TransferStats : Type 0 where
  pub bytes_done : ℕ
  pub total_bytes : ℕ
  pub speed : ℕ
  pub eta_seconds : Option ℕ
  pub transferring : List FileProgress

unfoldable pub percentage : TransferStats → ℕ
percentage s = if leb s.total_bytes 0 then 0 else min 100 (s.bytes_done * 100 / s.total_bytes)
