-- ===== src/Portable/Import.antt =====
-- `import_document` of app/portable.py and the four functions that it calls.
use hivesync.Prelude.{
  ℕ, ◌+◌, Bool, true, false, not, ◌||◌, Option, none, some, List, [], ◌∷◌, ◌++◌, Text, text_eq,
  strip, non_empty, ◌==◌, if◌then◌else◌, map,
}
use hivesync.Parsers.{member}
use hivesync.Portable.{
  PresetRow, ConnectionRow, JobRow, unobserved, default_continuity, Settings, Store,
  ConnectionEntry, JobEntry, PresetEntry, Document, supported_version, shared, connection_name,
  job_name, preset_name, credential_name,
}

pub data ImportMessage : Type 0 where
  wrong_version : ℕ → ImportMessage
  nameless_connection nameless_job invalid_preferences : ImportMessage
  dangling_job : Text → Option Text → ImportMessage
  missing_credential missing_preset : Text → Text → ImportMessage

pub record ImportReport : Type 0 where
  pub connections_created : ℕ
  pub connections_skipped : ℕ
  pub jobs_created : ℕ
  pub jobs_skipped : ℕ
  pub presets_created : ℕ
  pub preferences_applied : Bool
  pub warnings : List ImportMessage
  pub errors : List ImportMessage

abbrev pub empty_report : ImportReport
empty_report = record {
  connections_created = 0;
  connections_skipped = 0;
  jobs_created = 0;
  jobs_skipped = 0;
  presets_created = 0;
  preferences_applied = false;
  warnings = [];
  errors = [];
}

-- The names that are taken, the rows of the table and the report.
abbrev pub Progress : Type 0 → Type 0
Progress Row = List Text × List Row × ImportReport

unfoldable pub import_preset : PresetEntry → Progress PresetRow → Progress PresetRow
import_preset entry (existing, rows, report) =
    let name = strip entry.name in
    if not (non_empty name) || member name existing then (existing, rows, report) else (
      name ∷ existing,
      rows ++ record { name = name; builtin = false; rules = entry.rules } ∷ [],
      record report { presets_created = report.presets_created + 1 },
    )

unfoldable pub import_presets : List PresetEntry → Progress PresetRow → Progress PresetRow
import_presets [] p = p
import_presets (entry ∷ entries) p = import_presets entries (import_preset entry p)

-- `fields["credential_id"]`, and the warning.
abbrev pub link_credential : List Text → Text → Option Text → Option Text × List ImportMessage
link_credential credentials name none = (none, [])
link_credential credentials name (some c) =
    if not (non_empty c)
    then (none, [])
    else if member c credentials
    then (some c, [])
    else (none, missing_credential name c ∷ [])

-- The row of an entry whose name is new.
abbrev pub add_connection :
    ConnectionEntry
    → Option Text × List ImportMessage
    → Text
    → Progress ConnectionRow
    → Progress ConnectionRow
add_connection entry (credential, warned) name (existing, rows, report) = (
  name ∷ existing,
  rows
      ++ record {
        columns = record entry.columns { name = name };
        credential = credential;
        observed = unobserved;
      }
        ∷ [],
  record report {
    connections_created = report.connections_created + 1;
    warnings = report.warnings ++ warned;
  },
)

unfoldable pub import_connection :
    List Text → ConnectionEntry → Progress ConnectionRow → Progress ConnectionRow
import_connection credentials entry (existing, rows, report) =
    let name = strip entry.columns.name in
    if not (non_empty name)
    then (existing, rows, record report { errors = report.errors ++ nameless_connection ∷ [] })
    else if member name existing
    then (existing, rows, record report { connections_skipped = report.connections_skipped + 1 })
    else add_connection entry (link_credential credentials name entry.credential_name) name
        (existing, rows, report)

unfoldable pub import_connections :
    List Text → List ConnectionEntry → Progress ConnectionRow → Progress ConnectionRow
import_connections credentials [] p = p
import_connections credentials (entry ∷ entries) p =
    import_connections credentials entries (import_connection credentials entry p)

-- `connections.get(str(name or ""))`
abbrev pub find_connection : List Text → Option Text → Option Text
find_connection connections none = if member [] connections then some [] else none
find_connection connections (some c) = if member c connections then some c else none

-- `missing`
abbrev pub missing_of : Option Text → JobEntry → Option Text
missing_of none entry = elim entry.source_connection [
  | some (c ∷ cs) ↦ some (c ∷ cs)
  | _ ↦ entry.dest_connection
]
missing_of (some s) entry = entry.dest_connection

-- The presets that are linked, and the warnings.
unfoldable pub link_presets : List Text → Text → List Text → List Text × List ImportMessage
link_presets presets name [] = ([], [])
link_presets presets name (p ∷ ps) =
    let (linked, warned) = link_presets presets name ps in
    if member p presets then (p ∷ linked, warned) else (linked, missing_preset name p ∷ warned)

-- The row of an entry whose name is new.
abbrev pub add_job :
    JobEntry
    → Option Text
    → Option Text
    → List Text × List ImportMessage
    → Text
    → Progress JobRow
    → Progress JobRow
add_job entry (some s) (some d) (linked, warned) name (existing, rows, report) = (
  name ∷ existing,
  rows
      ++ record {
        columns = record entry.columns { name = name };
        source_connection = s;
        dest_connection = d;
        filter_presets = linked;
        continuity = default_continuity;
      }
        ∷ [],
  record report { jobs_created = report.jobs_created + 1; warnings = report.warnings ++ warned },
)
add_job entry s d links name (existing, rows, report) = (
  existing,
  rows,
  record report { errors = report.errors ++ dangling_job name (missing_of s entry) ∷ [] },
)

unfoldable pub import_job : List Text → List Text → JobEntry → Progress JobRow → Progress JobRow
import_job connections presets entry (existing, rows, report) =
    let name = strip entry.columns.name in
    if not (non_empty name)
    then (existing, rows, record report { errors = report.errors ++ nameless_job ∷ [] })
    else if member name existing
    then (existing, rows, record report { jobs_skipped = report.jobs_skipped + 1 })
    else add_job entry (find_connection connections entry.source_connection)
        (find_connection connections entry.dest_connection)
        (link_presets presets name entry.filter_presets) name (existing, rows, report)

unfoldable pub import_jobs :
    List Text → List Text → List JobEntry → Progress JobRow → Progress JobRow
import_jobs connections presets [] p = p
import_jobs connections presets (entry ∷ entries) p =
    import_jobs connections presets entries (import_job connections presets entry p)

-- `current.update(incoming)`
abbrev pub set_key : Text → Text → Settings → Settings
set_key k v [] = (k, v) ∷ []
set_key k v ((j, u) ∷ s) =
    let rest = set_key k v s in if text_eq j k then (k, v) ∷ s else (j, u) ∷ rest

abbrev pub update : Settings → Settings → Settings
update current [] = current
update current ((k, v) ∷ incoming) = update (set_key k v current) incoming

module _ (validated : Settings → Option Settings) where
  -- `_import_preferences`; `validated` is `Preferences.model_validate`.
  unfoldable pub import_preferences : Settings → Settings → ImportReport → Settings × ImportReport
  import_preferences [] current report = (current, report)
  import_preferences (kv ∷ incoming) current report =
      elim (validated (update current (shared (kv ∷ incoming)))) [
        | none ↦ (current, record report { warnings = report.warnings ++ invalid_preferences ∷ [] })
        | some preferences ↦ (preferences, record report { preferences_applied = true })
      ]

  -- The tables, one after the other.
  unfoldable pub import_rows : Document → Store → ImportReport → Store × ImportReport
  unfolding import_presets import_connections import_jobs import_preferences
  import_rows document db report =
      let (preset_names, presets, r₁) =
        import_presets document.filter_presets (map preset_name db.presets, db.presets, report) in
      let (connection_names, connections, r₂) =
        import_connections (map credential_name db.credentials) document.connections
          (map connection_name db.connections, db.connections, r₁) in
      let (job_names, jobs, r₃) =
        import_jobs (map connection_name connections) (map preset_name presets) document.jobs
          (map job_name db.jobs, db.jobs, r₂) in
      let (preferences, r₄) = import_preferences document.preferences db.preferences r₃ in
      (
        record {
          credentials = db.credentials;
          presets = presets;
          connections = connections;
          jobs = jobs;
          preferences = preferences;
        },
        r₄,
      )

  unfoldable pub import_document : Store → Document → Store × ImportReport
  unfolding import_rows
  import_document db document =
      if document.format_version == supported_version
      then import_rows document db empty_report
      else (db, record empty_report { errors = wrong_version document.format_version ∷ [] })
