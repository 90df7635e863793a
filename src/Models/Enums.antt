-- ===== src/Models/Enums.antt =====
-- The `StrEnum`s of app/models/job.py and app/models/connection.py, and comparisons with a member.
use hivesync.Prelude.{ℕ, Bool, true, false, ◌==◌, ◌||◌}

pub data ConnectionType : Type 0 where
  local sftp ftp ftps smb rclone_remote : ConnectionType

pub data RcloneMode : Type 0 where
  inline imported : RcloneMode

pub data CredentialKind : Type 0 where
  password ssh_key smb_ntlm backend_secret : CredentialKind

pub data Direction : Type 0 where
  source_to_dest dest_to_source bidirectional : Direction

pub data DeleteMode : Type 0 where
  keep_all delete archive : DeleteMode

pub data ArchiveLayout : Type 0 where
  timestamped_dir suffix : ArchiveLayout

pub data CompareMode : Type 0 where
  mtime_size checksum size_only : CompareMode

pub data ConflictResolve : Type 0 where
  newer older larger smaller path1 path2 no_winner : ConflictResolve

pub data NotifyOn : Type 0 where
  never failure_only always : NotifyOn

pub data RunTrigger : Type 0 where
  manual schedule api : RunTrigger

pub data RunMode : Type 0 where
  dry_run live : RunMode

pub data RunStatus : Type 0 where
  queued running success failed cancelled skipped : RunStatus

pub data ChangeAction : Type 0 where
  new updated deleted archived unchanged conflict error : ChangeAction

pub data ChangeSide : Type 0 where
  source dest : ChangeSide

-- `Popen.returncode`: an exit status, or minus the signal that ended the process.
pub data ExitCode : Type 0 where
  exited signalled : ℕ → ExitCode

-- `exit_code in (-15, 143, -9, 137)`
abbrev pub was_killed : ExitCode → Bool
was_killed (exited n) = (n == 143) || (n == 137)
was_killed (signalled n) = (n == 15) || (n == 9)

-- `exit_code == 0`
abbrev pub is_zero : ExitCode → Bool
is_zero (exited n) = n == 0
is_zero (signalled n) = false

abbrev pub is_bidirectional : Direction → Bool
is_bidirectional bidirectional = true
is_bidirectional _ = false

abbrev pub is_archive : DeleteMode → Bool
is_archive archive = true
is_archive _ = false

abbrev pub is_local : ConnectionType → Bool
is_local local = true
is_local _ = false

abbrev pub is_success : RunStatus → Bool
is_success success = true
is_success _ = false

abbrev pub is_cancelled : RunStatus → Bool
is_cancelled cancelled = true
is_cancelled _ = false

-- The predicate of the partial unique index: `status IN ('queued', 'running')`.
abbrev pub is_active : RunStatus → Bool
is_active queued = true
is_active running = true
is_active _ = false

abbrev pub action_eq : ChangeAction → ChangeAction → Bool
action_eq new new = true
action_eq updated updated = true
action_eq deleted deleted = true
action_eq archived archived = true
action_eq unchanged unchanged = true
action_eq conflict conflict = true
action_eq error error = true
action_eq _ _ = false
