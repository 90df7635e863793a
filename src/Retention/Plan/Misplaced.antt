-- ===== src/Retention/Plan/Misplaced.antt =====
-- `plan_archive` of app/jobs/retention.py for a destination that is not local.
use hivesync.Prelude.{◌≡◌, refl, ℕ, Option, ◌∷◌, Text}
use hivesync.Models.{Job, Connection, local, sftp, source_to_dest}
use hivesync.Engines.Rclone.{endpoints_and_paths}
use hivesync.Archive.{plan_for}
use hivesync.Archive.Paths.{strip_slashes}
use hivesync.Remotes.{base_path_for, display_path}
use hivesync.Retention.Plan.{Disk, plan_archive, plan_base}

abbrev pub to_sftp : Connection → Job → Job
to_sftp c job = record job { dest_connection = record c { type = sftp } }

abbrev pub to_local : Connection → Job → Job
to_local c job = record job { dest_connection = record c { type = local } }

-- A job that archives to an absolute path of an SFTP server is planned as if that path were on this
-- machine: its plan is the one of the same job to a local connection with the same path.
pub sftp_planned_as_local :
    (disk : Disk) (default_days : Option ℕ) (now : ℕ) (stamp : Text) (job : Job) (c : Connection)
    (path : Text)
    → job.direction ≡ source_to_dest
    → c.base_path ≡ 47 ∷ path
    → strip_slashes (47 ∷ path) ≡ path
    → plan_archive disk default_days now stamp (to_sftp c job)
      ≡ plan_archive disk default_days now stamp (to_local c job)
unfolding plan_archive endpoints_and_paths display_path base_path_for plan_for plan_base
sftp_planned_as_local disk default_days now stamp job c path forward base clean =
    rw (forward, base, clean) refl
