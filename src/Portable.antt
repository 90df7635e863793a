-- ===== src/Portable.antt =====
-- app/portable.py: the export document, and the import of one. A foreign key is the unique name of
-- the row that it points to. A document is one whose entries have every key of the format; a
-- missing name is the empty text. What Pydantic makes of the preferences is a parameter.
pub mod Names
pub mod Import
pub mod Rows
pub mod RoundTrip
pub mod Loop
pub mod Steps
pub mod Twice
use hivesync.Prelude.{
  ℕ, ◌+◌, Bool, true, false, not, ◌&&◌, ◌||◌, Option, none, some, List, [], ◌∷◌, ◌++◌, Text, codes,
  text_eq, strip, non_empty, ◌==◌, if◌then◌else◌, map, keep,
}
use hivesync.Models.{
  ConnectionType, RcloneMode, CredentialKind, Filters, Direction, DeleteMode, ArchiveLayout,
  CompareMode, ConflictResolve, NotifyOn,
}
use hivesync.Parsers.{member}
use hivesync.Portable.Names.{by_name}

-- CONNECTION_FIELDS
pub record ConnectionColumns : Type 0 where
  pub name : Text
  pub type : ConnectionType
  pub host : Option Text
  pub port : Option ℕ
  pub share : Option Text
  pub base_path : Text
  pub username : Option Text
  pub extra_opts : List (Text × Text)
  pub rclone_mode : Option RcloneMode
  pub rclone_remote_name : Option Text
  pub rclone_backend_type : Option Text
  pub sentinel_file : Option Text

-- JOB_FIELDS
pub record JobColumns : Type 0 where
  pub name : Text
  pub enabled : Bool
  pub source_path : Text
  pub dest_path : Text
  pub engine : Text
  pub direction : Direction
  pub delete_mode : DeleteMode
  pub archive_base : Option Text
  pub archive_layout : ArchiveLayout
  pub archive_retention_days : Option ℕ
  pub filters : Filters
  pub compare_mode : CompareMode
  pub modify_window : Text
  pub transfers : Option ℕ
  pub checkers : Option ℕ
  pub bwlimit : Option Text
  pub max_delete_pct : ℕ
  pub conflict_resolve : ConflictResolve
  pub check_access : Bool
  pub schedule_cron : Option Text
  pub timezone : Text
  pub timeout_seconds : Option ℕ
  pub notify_on : NotifyOn

pub record CredentialRow : Type 0 where
  pub name : Text
  pub kind : CredentialKind

pub record PresetRow : Type 0 where
  pub name : Text
  pub builtin : Bool
  pub rules : List Text

-- What a probe and a trust decision wrote on a connection.
pub record Observed : Type 0 where
  pub host_keys : Option Text
  pub host_keys_trusted : Bool
  pub probed : Bool

pub record ConnectionRow : Type 0 where
  pub columns : ConnectionColumns
  pub credential : Option Text
  pub observed : Observed

-- The columns of a job that are not in JOB_FIELDS.
pub record Continuity : Type 0 where
  pub continuous : Bool
  pub continuous_interval_seconds : ℕ
  pub continuous_idle_interval_seconds : ℕ
  pub quiet_period_seconds : ℕ
  pub bisync_initialized : Bool

pub record JobRow : Type 0 where
  pub columns : JobColumns
  pub source_connection : Text
  pub dest_connection : Text
  pub filter_presets : List Text
  pub continuity : Continuity

-- The defaults of the columns.
abbrev pub unobserved : Observed
unobserved = record { host_keys = none; host_keys_trusted = false; probed = false }

abbrev pub default_continuity : Continuity
default_continuity = record {
  continuous = false;
  continuous_interval_seconds = 60;
  continuous_idle_interval_seconds = 900;
  quiet_period_seconds = 0;
  bisync_initialized = false;
}

abbrev pub Settings : Type 0
Settings = List (Text × Text)

pub record Store : Type 0 where
  pub credentials : List CredentialRow
  pub presets : List PresetRow
  pub connections : List ConnectionRow
  pub jobs : List JobRow
  pub preferences : Settings

pub record ConnectionEntry : Type 0 where
  pub columns : ConnectionColumns
  pub credential_name : Option Text

pub record JobEntry : Type 0 where
  pub columns : JobColumns
  pub source_connection : Option Text
  pub dest_connection : Option Text
  pub filter_presets : List Text

pub record PresetEntry : Type 0 where
  pub name : Text
  pub rules : List Text

pub record Document : Type 0 where
  pub format_version : ℕ
  pub connections : List ConnectionEntry
  pub jobs : List JobEntry
  pub filter_presets : List PresetEntry
  pub preferences : Settings
  pub credentials_required : List CredentialRow

abbrev pub supported_version : ℕ
supported_version = 1

abbrev pub is_excluded : Text → Bool
is_excluded key =
    text_eq key (codes "notify_webhook_url")
    || text_eq key (codes "notify_ntfy_topic")
    || text_eq key (codes "base_url")

abbrev pub shared : Settings → Settings
shared settings = keep (λ kv. not (is_excluded kv.0)) settings

abbrev pub connection_name : ConnectionRow → Text
connection_name c = c.columns.name

abbrev pub job_name : JobRow → Text
job_name j = j.columns.name

abbrev pub preset_name : PresetRow → Text
preset_name p = p.name

abbrev pub credential_name : CredentialRow → Text
credential_name c = c.name

abbrev pub connection_entry : ConnectionRow → ConnectionEntry
connection_entry c = record { columns = c.columns; credential_name = c.credential }

abbrev pub job_entry : JobRow → JobEntry
job_entry j = record {
  columns = j.columns;
  source_connection = some j.source_connection;
  dest_connection = some j.dest_connection;
  filter_presets = j.filter_presets;
}

abbrev pub preset_entry : PresetRow → PresetEntry
preset_entry p = record { name = p.name; rules = p.rules }

abbrev pub own_presets : List PresetRow → List PresetRow
own_presets presets = keep (λ p. not p.builtin) presets

unfoldable pub export : Store → Document
export db = record {
  format_version = supported_version;
  connections = map connection_entry (by_name connection_name db.connections);
  jobs = map job_entry (by_name job_name db.jobs);
  filter_presets = map preset_entry (by_name preset_name (own_presets db.presets));
  preferences = shared db.preferences;
  credentials_required = by_name credential_name db.credentials;
}
