-- ===== src/Models.antt =====
-- app/models/job.py and app/models/connection.py: the enumerations, and the rows that the run
-- code reads and writes. A column that no modelled operation touches has no field. Times are
-- whole seconds, and a float (a speed) is a natural number of its smallest unit.
mod Enums
mod Messages
pub use Enums.*
pub use Messages.*
use hivesync.Prelude.{ℕ, Bool, Option, List, Text}

pub record Connection : Type 0 where
  pub name : Text
  pub type : ConnectionType
  pub host : Option Text
  pub port : Option ℕ
  pub share : Option Text
  pub base_path : Text
  pub username : Option Text
  -- The options that are set, with the text that `str` gives of each value.
  pub extra_opts : List (Text × Text)
  pub rclone_mode : Option RcloneMode
  pub rclone_remote_name : Option Text
  pub rclone_backend_type : Option Text
  pub sentinel_file : Option Text
  pub host_keys : Option Text
  pub host_keys_trusted : Bool
  -- `capabilities.for_connection(c).hashes`
  pub hashes : List Text
  -- `capabilities.for_connection(c).probed`
  pub probed : Bool

pub record FilterPreset : Type 0 where
  pub exclude_rules : List Text

-- The keys of the JSON column `Job.filters`.
pub record Filters : Type 0 where
  pub include_rules : List Text
  pub exclude_rules : List Text
  pub min_size : Option Text
  pub max_age : Option Text

pub record Job : Type 0 where
  pub id : ℕ
  pub name : Text
  pub enabled : Bool
  pub source_connection : Connection
  pub source_path : Text
  pub dest_connection : Connection
  pub dest_path : Text
  pub direction : Direction
  pub delete_mode : DeleteMode
  pub archive_base : Option Text
  pub archive_layout : ArchiveLayout
  pub archive_retention_days : Option ℕ
  pub filters : Filters
  pub filter_presets : List FilterPreset
  pub compare_mode : CompareMode
  pub modify_window : Text
  pub transfers : Option ℕ
  pub checkers : Option ℕ
  pub bwlimit : Option Text
  pub max_delete_pct : ℕ
  pub conflict_resolve : ConflictResolve
  pub schedule_cron : Option Text
  pub timezone : Text
  pub continuous : Bool
  pub continuous_interval_seconds : ℕ
  pub continuous_idle_interval_seconds : ℕ
  pub quiet_period_seconds : ℕ
  pub last_checked_at : Option ℕ
  pub notify_on : NotifyOn
  pub bisync_initialized : Bool
  pub check_access : Bool

pub record JobRunChange : Type 0 where
  pub action : ChangeAction
  pub side : ChangeSide
  pub path : Text
  pub size : Option ℕ
  pub peak_speed_bps : Option ℕ
  pub message : Option Text

-- The JSON column `JobRun.summary`: what each writer of it stores.
pub record RefusedPlan : Type 0 where
  pub unchanged : ℕ
  pub bytes : ℕ
  pub dest_file_count : ℕ
  pub max_delete_threshold : Option ℕ

pub record RefusedSummary : Type 0 where
  pub new : ℕ
  pub updated : ℕ
  pub deleted : ℕ
  pub refused_deletions : Option ℕ
  pub plan : Option RefusedPlan

pub record LiveSummary : Type 0 where
  pub new : ℕ
  pub updated : ℕ
  pub unchanged : ℕ
  pub bytes : ℕ
  pub planned_new : ℕ
  pub planned_updated : ℕ
  pub planned_deleted : ℕ
  pub transferred : ℕ
  pub deleted : ℕ
  pub archived : ℕ
  pub errors : List Text
  pub warnings : List Warning
  pub dest_file_count : ℕ
  pub max_delete_threshold : ℕ
  pub applied_as_planned : Bool
  pub max_delete_hit : Bool
  pub cancelled_partway : Bool

pub record PlanSummary : Type 0 where
  pub new : ℕ
  pub updated : ℕ
  pub deleted : ℕ
  pub unchanged : ℕ
  pub errors : List Text
  pub warnings : List Warning
  pub bytes : ℕ
  pub dest_file_count : ℕ
  pub max_delete_threshold : ℕ
  pub bidirectional : Bool
  pub truncated : Bool
  pub rows_omitted : ℕ

pub record BisyncSummary : Type 0 where
  pub resync : Bool
  pub path1_new : ℕ
  pub path1_modified : ℕ
  pub path1_deleted : ℕ
  pub path2_new : ℕ
  pub path2_modified : ℕ
  pub path2_deleted : ℕ
  pub new : ℕ
  pub updated : ℕ
  pub bytes : ℕ
  pub transferred : ℕ
  pub deleted : ℕ
  pub archived : ℕ
  pub errors : List Text
  pub max_delete_threshold : ℕ
  pub max_delete_pct : ℕ
  pub cancelled_partway : Bool

pub data Summary : Type 0 where
  failure : Message → Option RefusedSummary → Summary
  live_result : LiveSummary → Summary
  plan_result : PlanSummary → Summary
  bisync_result : BisyncSummary → Summary

pub record JobRun : Type 0 where
  pub id : ℕ
  pub job_id : ℕ
  pub trigger : RunTrigger
  pub is_resync : Bool
  pub forced_max_delete : Option ℕ
  pub archive_dirs : Option (List (ChangeSide × Text))
  pub mode : RunMode
  pub status : RunStatus
  pub started_at : Option ℕ
  pub finished_at : Option ℕ
  pub exit_code : Option ExitCode
  pub files_transferred : ℕ
  pub files_deleted : ℕ
  pub files_archived : ℕ
  pub bytes_transferred : ℕ
  pub errors_count : ℕ
  pub log_path : Option Text
  pub summary : Option Summary
  pub command_redacted : Option Text
  pub skip_reason : Option Text
  pub changes : List JobRunChange
