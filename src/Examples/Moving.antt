-- ===== src/Examples/Moving.antt =====
-- An instance with two connections, a preset and a job, moved to another machine.
use hivesync.Prelude.{
  ◌≡◌, refl, true, false, Option, none, some, [], ◌∷◌, ◌++◌, Text, codes, strip, lstrip, rstrip,
  map,
}
use hivesync.Models.{
  local, sftp, ConnectionType, password, source_to_dest, archive, timestamped_dir, mtime_size,
  newer, always,
}
use hivesync.Portable.{
  ConnectionRow, JobRow, PresetRow, Settings, Store, default_continuity, connection_name, job_name,
  preset_name, own_presets, export,
}
use hivesync.Portable.Names.{by_name}
use hivesync.Portable.Rows.{restored_connection, restored_job}
use hivesync.Portable.Import.{import_document}
use hivesync.Portable.Twice.{Extends, import_twice}
use hivesync.Portable.RoundTrip.{fresh, export-import}

abbrev connection_of : Text → ConnectionType → Option Text → ConnectionRow
connection_of name type credential = record {
  columns = record {
    name = name;
    type = type;
    host = none;
    port = none;
    share = none;
    base_path = codes "/data";
    username = none;
    extra_opts = [];
    rclone_mode = none;
    rclone_remote_name = none;
    rclone_backend_type = none;
    sentinel_file = none;
  };
  credential = credential;
  observed = record { host_keys = some (codes "k"); host_keys_trusted = true; probed = true };
}

abbrev mirror : JobRow
mirror = record {
  columns = record {
    name = codes "mirror";
    enabled = true;
    source_path = [];
    dest_path = codes "photos";
    engine = codes "rclone";
    direction = source_to_dest;
    delete_mode = archive;
    archive_base = none;
    archive_layout = timestamped_dir;
    archive_retention_days = none;
    filters = record { include_rules = []; exclude_rules = []; min_size = none; max_age = none };
    compare_mode = mtime_size;
    modify_window = codes "2s";
    transfers = none;
    checkers = none;
    bwlimit = none;
    max_delete_pct = 25;
    conflict_resolve = newer;
    check_access = false;
    schedule_cron = none;
    timezone = codes "UTC";
    timeout_seconds = none;
    notify_on = always;
  };
  source_connection = codes "nas";
  dest_connection = codes "disk";
  filter_presets = codes "raw" ∷ codes "junk" ∷ [];
  continuity = record default_continuity { continuous = true; continuous_interval_seconds = 10 };
}

abbrev junk : PresetRow
junk = record { name = codes "junk"; builtin = true; rules = codes "*.tmp" ∷ [] }

abbrev old_machine : Store
old_machine = record {
  credentials = record { name = codes "key"; kind = password } ∷ [];
  presets = junk ∷ record { name = codes "raw"; builtin = false; rules = codes "*.raw" ∷ [] } ∷ [];
  connections =
      connection_of (codes "nas") sftp (some (codes "key"))
      ∷ connection_of (codes "disk") local none
      ∷ [];
  jobs = mirror ∷ [];
  preferences = (codes "clock", codes "12h") ∷ [];
}

abbrev new_machine : Store
new_machine = record old_machine { presets = junk ∷ []; connections = []; jobs = [] }

abbrev accepted : Settings → Option Settings
accepted s = some s

export-import_example :
    let (restored, report) = import_document accepted (fresh new_machine) (export old_machine) in
    (restored.connections
      ≡ map restored_connection (by_name connection_name old_machine.connections))
    × (restored.jobs ≡ map restored_job (by_name job_name old_machine.jobs))
    × (restored.presets
        ≡ new_machine.presets ++ by_name preset_name (own_presets old_machine.presets))
    × (report.errors ≡ [])
unfolding strip lstrip rstrip
export-import_example =
    export-import accepted old_machine new_machine (refl, (refl, tt))
      (((refl, refl), (refl, refl)), (((refl, refl), tt), tt)) (refl, tt)
      (((refl, refl), refl, refl, (refl, (refl, tt))), tt) (refl, tt) (((refl, refl), refl), tt)
      refl

import_twice_example :
    let (once, _) = import_document accepted new_machine (export old_machine) in
    let (twice, _) = import_document accepted once (export old_machine) in
    Extends new_machine.presets once.presets
    × Extends new_machine.connections once.connections
    × Extends new_machine.jobs once.jobs
    × (twice.presets ≡ once.presets)
    × (twice.connections ≡ once.connections)
    × (twice.jobs ≡ once.jobs)
import_twice_example = import_twice accepted new_machine (export old_machine)
