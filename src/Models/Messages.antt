-- ===== src/Models/Messages.antt =====
-- The user facing messages of app/jobs and app/engines: a constructor for each, with the values
-- that the source puts into its text.
use hivesync.Prelude.{ℕ, List, Text}

-- `ArchiveError` of app/jobs/archive.py: the destination's side first, then the archive's.
pub data ArchiveError : Type 0 where
  other_connection : Text → Text → ArchiveError
  other_share : Text → Text → ArchiveError
  same_as_destination : ArchiveError

-- The warnings of `_add_warnings` in app/engines/rclone.py.
pub data Warning : Type 0 where
  over_brake : ℕ → ℕ → ℕ → ℕ → Warning
  compares_size_only : Warning
  not_probed : List Text → Warning
  no_shared_hash : Warning
  stopped_planning : Warning
  not_compared : ℕ → Warning

pub data Message : Type 0 where
  job_was_deleted : Message
  interrupted : Message
  wrong_engine : Message
  config_error : Text → Message
  compare_failed : Text → Message
  checksum_not_shared : Message
  plan_failed : Text → Message
  sentinel_missing : Text → Text → Message
  too_many_deletions : ℕ → ℕ → ℕ → ℕ → Message
  archive_refused : ArchiveError → Message
  no_first_sync : Text → Message
  needs_first_sync : Text → Message
  rclone_refused : Text → Message
