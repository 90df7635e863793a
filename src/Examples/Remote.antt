-- ===== src/Examples/Remote.antt =====
-- A job to an SFTP server, an archive with one old run, and a restore of two files.
use hivesync.Restore.{specs_of, recorded_dirs}
use hivesync.Parsers.{member}
use hivesync.Prelude.{
  if◌then◌else◌, ℕ, ◌≡◌, refl, ◌&&◌, true, false, Option, none, some, List, [], ◌∷◌, ◌++◌, Text,
  codes, leb, strip, lstrip, rstrip,
}
use hivesync.Models.{Connection, sftp, Job, JobRun, dest, source, archive, failed}
use hivesync.Archive.Paths.{strip_slashes}
use hivesync.Remotes.{Resolved, ok, kept_parts, joined, join_subpath, base_path_for}
use hivesync.Remotes.Subpath.{all_steps, join_subpath-below}
use hivesync.Remotes.Env.{
  Secrets, Prepared, argv, prepare, resolve_all, resolve_native, env_var_name, known_hosts_content,
}
use hivesync.Remotes.Secrecy.{seen_all, prepare_hides_secrets}
use hivesync.Retention.{ArchivePruning}
use hivesync.Retention.Plan.{Disk, plan_archive}
use hivesync.Restore
use hivesync.Restore.{ArchivedFile, Finished, Ends, restore, restore_all, why_not}
use hivesync.Restore.Guarded.{Accounts, AllGuarded, restore-guarded}
use hivesync.Examples.{disk, photos, fresh_run}

abbrev photos_path : Text
photos_path = codes "/data/2024/may"

join_subpath-below_example :
    (kept : List Text) × (all_steps kept ≡ true) × (photos_path ≡ joined (codes "/data") kept)
unfolding join_subpath kept_parts strip lstrip rstrip strip_slashes
join_subpath-below_example =
    join_subpath-below (codes "/data") (some (codes "\\2024//./may/")) photos_path refl

abbrev server : Connection
server = record (disk (codes "/srv")) {
  type = sftp;
  host = some (codes "nas");
  username = some (codes "me");
}

abbrev identity : Text → Text
identity t = t

abbrev one_line : Text → List Text
one_line t = t ∷ []

abbrev with_password : Text → Connection → Resolved Secrets
with_password p c = ok (record { options = (codes "pass", p) ∷ []; redactable = p ∷ [] })

abbrev unwrap : Resolved Prepared → Prepared
unwrap (Resolved.ok p) = p
unwrap (Resolved.refused e) = record { endpoints = []; env = []; base_args = [] }

abbrev prepared_with : Text → Resolved Prepared
prepared_with p =
    prepare identity one_line (with_password p) identity none ((codes "hs_dst", server) ∷ [])

prepare_hides_secrets_example :
    (argv (unwrap (prepared_with (codes "x1"))) (codes "lsf" ∷ [])
      ≡ argv (unwrap (prepared_with (codes "y2"))) (codes "lsf" ∷ []))
    × (seen_all (unwrap (prepared_with (codes "x1"))).endpoints
        ≡ seen_all (unwrap (prepared_with (codes "y2"))).endpoints)
unfolding prepare resolve_all resolve_native base_path_for env_var_name known_hosts_content strip
    lstrip rstrip
prepare_hides_secrets_example =
    prepare_hides_secrets identity one_line identity (with_password (codes "x1"))
      (with_password (codes "y2")) none ((codes "hs_dst", server) ∷ [])
      (unwrap (prepared_with (codes "x1"))) (unwrap (prepared_with (codes "y2"))) (codes "lsf" ∷ [])
      refl refl

abbrev archiving : Job
archiving = record photos {
  delete_mode = archive;
  archive_retention_days = some 30;
  dest_connection = disk (codes "/mnt/backup");
}

abbrev old_stamp : Text
old_stamp = codes "2024-01-01T00-00-00Z"

abbrev one_old_run : Disk
one_old_run = record {
  is_dir = λ path. true;
  entries = λ path. record { name = old_stamp; is_dir = true; bytes = 700 } ∷ [];
  under = λ root name. root ++ (codes "/" ++ name);
  is_digit = λ c. leb 48 c && leb c 57;
  stamped_at = λ name. some 1704067200;
}

abbrev or_empty : Option ArchivePruning → ArchivePruning
or_empty none = record {
  job_id = 0;
  job_name = [];
  retention_days = 0;
  skipped_reason = none;
  directories = [];
  bytes_freed = 0;
}
or_empty (some plan) = plan

abbrev planned : Option ArchivePruning
planned = plan_archive one_old_run none 1720000000 old_stamp archiving

abbrev over_run : ℕ → JobRun
over_run id = record fresh_run { id = id; status = failed }

abbrev restored_run : JobRun
restored_run = record fresh_run {
  status = failed;
  archive_dirs = some ((dest, codes "/mnt/backup/.hivesync-archive/x") ∷ []);
}

abbrev copier : List Text → Finished
copier args =
    if member (codes "hs_dst:/backup/kept") args
    then record { is_ok = true; stdout = []; stderr = [] }
    else record { is_ok = true; stdout = codes "Copied (new)"; stderr = [] }

abbrev some_files : List ArchivedFile
some_files =
    record { path = codes "a/b"; side = dest }
    ∷ record { path = codes "kept"; side = dest }
    ∷ record { path = codes "c"; side = source }
    ∷ []

abbrev ends : Ends
ends = record {
  prepared = record { endpoints = []; env = []; base_args = codes "--config" ∷ [] ∷ [] };
  source_end = record {
    alias = codes "hs_src";
    path = [];
    env = [];
    redactable = [];
    uses_user_config = false;
  };
  dest_end = record {
    alias = codes "hs_dst";
    path = [];
    env = [];
    redactable = [];
    uses_user_config = false;
  };
  source_root = codes "hs_src:/photos";
  dest_root = codes "hs_dst:/backup";
}

abbrev outcome :
    Option (Restore.RestoreReport × List (List Text)) → Restore.RestoreReport × List (List Text)
outcome none = (Restore.empty_report, [])
outcome (some done) = done

abbrev done : Restore.RestoreReport × List (List Text)
done = outcome (restore copier one_line archiving restored_run some_files ends)

restore-guarded_example :
    Accounts copier one_line
      (specs_of (recorded_dirs restored_run.archive_dirs) ends)
      ends
      some_files
      Restore.empty_report
      done.0
    × AllGuarded done.1
unfolding restore restore_all why_not argv strip lstrip rstrip
restore-guarded_example =
    restore-guarded copier one_line archiving restored_run some_files ends done.0 done.1 refl
