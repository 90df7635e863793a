-- ===== src/Portable/Rows.antt =====
-- The import of the entries that `export` of app/portable.py makes of the rows of one table.
use hivesync.Prelude.{
  ◌+◌, ◌≡◌, refl, ap, ◌∙◌, sym, true, false, Option, none, some, List, [], ◌∷◌, ◌++◌, append-nil,
  append_assoc, Text, strip, non_empty, map, arith,
}
use hivesync.Parsers.{member}
use hivesync.Portable.{
  ConnectionRow, JobRow, PresetRow, unobserved, default_continuity, connection_name, job_name,
  preset_name, connection_entry, job_entry, preset_entry,
}
use hivesync.Portable.Names.{Distinct, apart, apart_later, Every}
use hivesync.Portable.Import.{
  ImportReport, Progress, import_connection, import_connections, link_credential, link_presets,
  import_job, import_jobs, import_preset, import_presets,
}

abbrev pub IsName : Text → Type 0
IsName n = (strip n ≡ n) × (non_empty n ≡ true)

abbrev pub IsLinked : List Text → Option Text → Type 0
IsLinked credentials none = Unit
IsLinked credentials (some c) = (non_empty c ≡ true) × (member c credentials ≡ true)

abbrev pub IsSound : List Text → ConnectionRow → Type 0
IsSound credentials c = IsName (connection_name c) × IsLinked credentials c.credential

abbrev pub restored_connection : ConnectionRow → ConnectionRow
restored_connection c = record c { observed = unobserved }

link_credential_linked :
    (credentials : List Text) (name : Text) (credential : Option Text)
    → IsLinked credentials credential
    → link_credential credentials name credential ≡ (credential, [])
link_credential_linked credentials name none linked = refl
link_credential_linked credentials name (some c) linked = rw linked.0 rw linked.1 refl

import_connection_new :
    (credentials : List Text) (c : ConnectionRow) (existing : List Text) (rows : List ConnectionRow)
    (report : ImportReport)
    → IsSound credentials c
    → member (connection_name c) existing ≡ false
    → import_connection credentials (connection_entry c) (existing, rows, report) ≡ (
      connection_name c ∷ existing,
      rows ++ restored_connection c ∷ [],
      record report {
        connections_created = report.connections_created + 1;
        warnings = report.warnings ++ [];
      },
    )
unfolding import_connection
import_connection_new credentials c existing rows report (named, linked) new =
    rw named.0 rw named.1 rw new rw
      (link_credential_linked credentials (connection_name c) c.credential linked) refl

-- Entries with new names become rows, without a warning and without an error.
pub connections_restored :
    (credentials : List Text) (cs : List ConnectionRow) (existing : List Text)
    (rows : List ConnectionRow) (report : ImportReport)
    → apart connection_name existing cs ≡ true
    → Distinct connection_name cs
    → Every connection_name (IsSound credentials) cs
    → let (_, rows', report') =
        import_connections credentials (map connection_entry cs) (existing, rows, report) in
      (rows' ≡ rows ++ map restored_connection cs)
      × (report'.errors ≡ report.errors)
      × (report'.warnings ≡ report.warnings)
unfolding import_connections
connections_restored credentials [] existing rows report free d e =
    (sym (append-nil rows), refl, refl)
connections_restored credentials (c ∷ cs) existing rows report free d e =
    let new : member (connection_name c) existing ≡ false = ground (arith, free) in
    let later = apart_later connection_name c existing cs d.0 (ground (arith, free)) in
    let r' = record report {
      connections_created = report.connections_created + 1;
      warnings = report.warnings ++ [];
    } in
    let ih =
      connections_restored credentials cs (connection_name c ∷ existing)
        (rows ++ restored_connection c ∷ []) r' later d.1 e.1 in
    rw (import_connection_new credentials c existing rows report e.0 new, import_connections)
      (
        ih.0 ∙ append_assoc rows (restored_connection c ∷ []) (map restored_connection cs),
        ih.1,
        ih.2 ∙ append-nil report.warnings,
      )

abbrev pub restored_job : JobRow → JobRow
restored_job j = record j { continuity = default_continuity }

-- All of the names are among those.
abbrev pub AllAmong : List Text → List Text → Type 0
AllAmong names [] = Unit
AllAmong names (p ∷ ps) = (member p names ≡ true) × AllAmong names ps

abbrev pub IsAnchored : List Text → List Text → JobRow → Type 0
IsAnchored connections presets j =
    IsName (job_name j)
    × (member j.source_connection connections ≡ true)
    × (member j.dest_connection connections ≡ true)
    × AllAmong presets j.filter_presets

link_presets_all :
    (presets : List Text) (name : Text) (ps : List Text)
    → AllAmong presets ps
    → link_presets presets name ps ≡ (ps, [])
unfolding link_presets
link_presets_all presets name [] all = refl
link_presets_all presets name (p ∷ ps) all =
    rw (link_presets_all presets name ps all.1, link_presets) rw all.0 refl

import_job_new :
    (connections presets : List Text) (j : JobRow) (existing : List Text) (rows : List JobRow)
    (report : ImportReport)
    → IsAnchored connections presets j
    → member (job_name j) existing ≡ false
    → import_job connections presets (job_entry j) (existing, rows, report) ≡ (
      job_name j ∷ existing,
      rows ++ restored_job j ∷ [],
      record report { jobs_created = report.jobs_created + 1; warnings = report.warnings ++ [] },
    )
unfolding import_job
import_job_new connections presets j existing rows report (named, from, into, linked) new =
    rw named.0 rw named.1 rw new rw from rw into rw
      (link_presets_all presets (job_name j) j.filter_presets linked) refl

pub jobs_restored :
    (connections presets : List Text) (js : List JobRow) (existing : List Text) (rows : List JobRow)
    (report : ImportReport)
    → apart job_name existing js ≡ true
    → Distinct job_name js
    → Every job_name (IsAnchored connections presets) js
    → let (_, rows', report') =
        import_jobs connections presets (map job_entry js) (existing, rows, report) in
      (rows' ≡ rows ++ map restored_job js)
      × (report'.errors ≡ report.errors)
      × (report'.warnings ≡ report.warnings)
unfolding import_jobs
jobs_restored connections presets [] existing rows report free d e =
    (sym (append-nil rows), refl, refl)
jobs_restored connections presets (j ∷ js) existing rows report free d e =
    let new : member (job_name j) existing ≡ false = ground (arith, free) in
    let later = apart_later job_name j existing js d.0 (ground (arith, free)) in
    let r' = record report {
      jobs_created = report.jobs_created + 1;
      warnings = report.warnings ++ [];
    } in
    let ih =
      jobs_restored connections presets js (job_name j ∷ existing) (rows ++ restored_job j ∷ []) r'
        later d.1 e.1 in
    rw (import_job_new connections presets j existing rows report e.0 new, import_jobs)
      (
        ih.0 ∙ append_assoc rows (restored_job j ∷ []) (map restored_job js),
        ih.1,
        ih.2 ∙ append-nil report.warnings,
      )

abbrev pub IsOwn : PresetRow → Type 0
IsOwn p = IsName p.name × (p.builtin ≡ false)

import_preset_new :
    (p : PresetRow) (existing : List Text) (rows : List PresetRow) (report : ImportReport)
    → IsOwn p
    → member p.name existing ≡ false
    → import_preset (preset_entry p) (existing, rows, report) ≡ (
      p.name ∷ existing,
      rows ++ p ∷ [],
      record report { presets_created = report.presets_created + 1 },
    )
unfolding import_preset
import_preset_new p existing rows report (named, own) new =
    let same : record { name = p.name; builtin = false; rules = p.rules } ≡ p =
      ap (λ b. record p { builtin = b }) (sym own) in
    let added : PresetRow → Progress PresetRow = λ q. (
      p.name ∷ existing,
      rows ++ q ∷ [],
      record report { presets_created = report.presets_created + 1 },
    ) in
    rw named.0 (rw named.1 (rw new (ap added same)))

pub presets_restored :
    (ps : List PresetRow) (existing : List Text) (rows : List PresetRow) (report : ImportReport)
    → apart preset_name existing ps ≡ true
    → Distinct preset_name ps
    → Every preset_name IsOwn ps
    → let (_, rows', report') = import_presets (map preset_entry ps) (existing, rows, report) in
      (rows' ≡ rows ++ ps) × (report'.errors ≡ report.errors) × (report'.warnings ≡ report.warnings)
unfolding import_presets
presets_restored [] existing rows report free d e = (sym (append-nil rows), refl, refl)
presets_restored (p ∷ ps) existing rows report free d e =
    let new : member p.name existing ≡ false = ground (arith, free) in
    let later = apart_later preset_name p existing ps d.0 (ground (arith, free)) in
    let ih =
      presets_restored ps (p.name ∷ existing) (rows ++ p ∷ [])
        (record report { presets_created = report.presets_created + 1 }) later d.1 e.1 in
    rw (import_preset_new p existing rows report e.0 new, import_presets)
      (ih.0 ∙ append_assoc rows (p ∷ []) ps, ih.1, ih.2)
