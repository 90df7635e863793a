-- ===== src/Engines/Plan.antt =====
-- `Plan` and `PlannedChange` of app/engines/base.py.
use hivesync.Prelude.{ℕ, ◌+◌, Bool, false, Option, List, [], Text, length, keep}
use hivesync.Models.{ChangeAction, ChangeSide, Warning, action_eq}

pub record PlannedChange : Type 0 where
  pub action : ChangeAction
  pub path : Text
  pub size : Option ℕ
  pub message : Option Text
  pub side : Option ChangeSide

pub record Plan : Type 0 where
  pub changes : List PlannedChange
  pub unchanged_count : ℕ
  pub bytes_to_transfer : ℕ
  pub dest_file_count : ℕ
  pub errors : List Text
  pub warnings : List Warning
  pub commands : List Text
  pub truncated : Bool

abbrev pub empty_plan : Plan
empty_plan = record {
  changes = [];
  unchanged_count = 0;
  bytes_to_transfer = 0;
  dest_file_count = 0;
  errors = [];
  warnings = [];
  commands = [];
  truncated = false;
}

abbrev pub count_in : ChangeAction → List PlannedChange → ℕ
count_in action changes = length (keep (λ c. action_eq c.action action) changes)

unfoldable pub count : Plan → ChangeAction → ℕ
count plan action = count_in action plan.changes

unfoldable pub new_count : Plan → ℕ
unfolding count
new_count plan = count plan ChangeAction.new

unfoldable pub updated_count : Plan → ℕ
unfolding count
updated_count plan = count plan ChangeAction.updated

unfoldable pub deleted_count : Plan → ℕ
unfolding count
deleted_count plan = count plan ChangeAction.deleted

unfoldable pub error_count : Plan → ℕ
unfolding count
error_count plan = length plan.errors + count plan ChangeAction.error
