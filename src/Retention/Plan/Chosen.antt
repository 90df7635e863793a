-- ===== src/Retention/Plan/Chosen.antt =====
-- The directories that `plan_archive` of app/jobs/retention.py chooses.
use hivesync.Prelude.{ℕ, ◌-◌, ◌*◌, ◌≤◌, starts_with, codes, ◌≡◌, true, [], Text}
use hivesync.Models.{Job, is_archive}
use hivesync.Engines.Rclone.{endpoints_and_paths}
use hivesync.Remotes.{ok, display_path}
use hivesync.Archive.{ArchivePlan, Outcome, plan_for, split_remote}
use hivesync.Archive.Slug.{slugify}
use hivesync.Retention.{ArchivePruning}
use hivesync.Retention.Plan.{Disk, is_timestamped, or_none}
use hivesync.Retention.Plan.Old.{AllOld}

module _ (disk : Disk) where
  -- What a plan that removes something rests on.
  pub record IsJustified (now : ℕ) (stamp : Text) (job : Job) (plan : ArchivePruning) : Type 0 where
    -- The place that the job writes to, as it is displayed, and the job's archive there.
    pub destination : Text
    pub archive : ArchivePlan
    pub displayed :
        display_path (endpoints_and_paths job).1 (or_none (endpoints_and_paths job).3)
        ≡ ok destination
    pub resolved : plan_for job destination stamp ≡ Outcome.done archive
    pub a_number : 1 ≤ plan.retention_days
    pub archives : is_archive job.delete_mode ≡ true
    pub by_run : is_timestamped job.archive_layout ≡ true
    pub here : (split_remote archive.base).0 ≡ []
    pub absolute : starts_with (split_remote archive.base).1 (codes "/") ≡ true
    pub old :
        AllOld disk
          (now - plan.retention_days * 86400)
          (disk.under (split_remote archive.base).1 (slugify job.name))
          plan.directories
