-- ===== src/Portable/RoundTrip.antt =====
-- `import_document` of what `export` made, in app/portable.py.
use hivesync.Prelude.{
  ◌≡◌, refl, ap, ◌∙◌, sym, ◌||◌, true, Option, List, [], ◌∷◌, ◌++◌, Text, text_eq, map,
  Option-cases, inl, inr,
}
use hivesync.Parsers.{member}
use hivesync.Portable.{
  ConnectionRow, JobRow, PresetRow, Settings, Store, connection_name, job_name, preset_name,
  credential_name, own_presets, shared, export,
}
use hivesync.Portable.Names.{
  by_name, has, has-append, has-by_name, member-map, Distinct, Distinct-by_name, apart,
  apart-by_name, apart_none, Every, Every-by_name,
}
use hivesync.Portable.Rows.{
  IsName, IsSound, IsOwn, AllAmong, restored_connection, restored_job, connections_restored,
  jobs_restored, presets_restored, IsAnchored,
}
use hivesync.Portable.Import.{
  ImportReport, empty_report, update, import_presets, import_connections, import_jobs,
  import_preferences, import_document,
}

-- The names are those of presets.
abbrev pub AllHad : List PresetRow → List Text → Type 0
AllHad presets [] = Unit
AllHad presets (p ∷ ps) = (has preset_name p presets ≡ true) × AllHad presets ps

-- What the database and the schemas keep of a job: its name is trimmed and not empty, and its
-- connections and presets exist.
abbrev pub IsWhole : List ConnectionRow → List PresetRow → JobRow → Type 0
IsWhole connections presets j =
    IsName (job_name j)
    × (has connection_name j.source_connection connections ≡ true)
    × (has connection_name j.dest_connection connections ≡ true)
    × AllHad presets j.filter_presets

-- An instance without connections and jobs.
abbrev pub fresh : Store → Store
fresh target = record target { connections = []; jobs = [] }

has-restored :
    (n : Text) (cs : List ConnectionRow)
    → member n (map connection_name (map restored_connection (by_name connection_name cs)))
      ≡ has connection_name n cs
has-restored n cs = names (by_name connection_name cs) ∙ has-by_name connection_name n cs
  where
    names :
        (xs : List ConnectionRow)
        → member n (map connection_name (map restored_connection xs)) ≡ has connection_name n xs
    names [] = refl
    names (x ∷ xs) = ap (λ b. text_eq n (connection_name x) || b) (names xs)

has-presets :
    (n : Text) (before own : List PresetRow)
    → member n (map preset_name (before ++ by_name preset_name own))
      ≡ has preset_name n (before ++ own)
has-presets n before own =
    member-map preset_name n (before ++ by_name preset_name own)
    ∙ has-append preset_name n before (by_name preset_name own)
    ∙ ap (λ b. has preset_name n before || b) (has-by_name preset_name n own)
    ∙ sym (has-append preset_name n before own)

AllHad-AllAmong :
    (before own : List PresetRow) (ps : List Text)
    → AllHad (before ++ own) ps
    → AllAmong (map preset_name (before ++ by_name preset_name own)) ps
AllHad-AllAmong before own [] all = tt
AllHad-AllAmong before own (p ∷ ps) all =
    (has-presets p before own ∙ all.0, AllHad-AllAmong before own ps all.1)

IsWhole-IsAnchored :
    (cs : List ConnectionRow) (before own : List PresetRow) (js : List JobRow)
    → Every job_name (IsWhole cs (before ++ own)) js
    → Every job_name
        (IsAnchored
          (map connection_name (map restored_connection (by_name connection_name cs)))
          (map preset_name (before ++ by_name preset_name own)))
        js
IsWhole-IsAnchored cs before own [] e = tt
IsWhole-IsAnchored cs before own (j ∷ js) e =
    let (named, from, into, linked) = e.0 in
    (
      (
        named,
        has-restored j.source_connection cs ∙ from,
        has-restored j.dest_connection cs ∙ into,
        AllHad-AllAmong before own j.filter_presets linked,
      ),
      IsWhole-IsAnchored cs before own js e.1,
    )

module _ (validated : Settings → Option Settings) where
  import_preferences-errors :
      (incoming current : Settings) (report : ImportReport)
      → let (_, report') = import_preferences validated incoming current report in
        report'.errors ≡ report.errors
  unfolding import_preferences
  import_preferences-errors [] current report = refl
  import_preferences-errors (kv ∷ incoming) current report =
      elim (Option-cases (validated (update current (shared (kv ∷ incoming))))) [
        | inl e ↦ rw (e, import_preferences) refl
        | inr (s, e) ↦ rw (e, import_preferences) refl
      ]

  -- What `export` makes of an instance, imported into one without connections and jobs that has the
  -- credentials which the connections use, gives every connection, job and preset of its own again,
  -- in the order of their names and without an error; lost are the host keys and the probe of a
  -- connection and the continuous mode, the quiet period and the bisync mark of a job. The names of a
  -- table are trimmed, not empty and distinct, the jobs' connections and presets exist, and no
  -- preset that was there has the name of an imported one.
  pub export-import :
      (db target : Store)
      → Distinct connection_name db.connections
      → Every connection_name (IsSound (map credential_name target.credentials)) db.connections
      → Distinct job_name db.jobs
      → Every job_name (IsWhole db.connections (target.presets ++ own_presets db.presets)) db.jobs
      → Distinct preset_name (own_presets db.presets)
      → Every preset_name IsOwn (own_presets db.presets)
      → apart preset_name (map preset_name target.presets) (own_presets db.presets) ≡ true
      → let (restored, report) = import_document validated (fresh target) (export db) in
        (restored.connections ≡ map restored_connection (by_name connection_name db.connections))
        × (restored.jobs ≡ map restored_job (by_name job_name db.jobs))
        × (restored.presets ≡ target.presets ++ by_name preset_name (own_presets db.presets))
        × (report.errors ≡ [])
  unfolding import_document export
  export-import db target dc ec dj ej dp ep free =
      let cs = by_name connection_name db.connections in
      let js = by_name job_name db.jobs in
      let own = own_presets db.presets in
      let ps = by_name preset_name own in
      let document = export db in
      let (p_names, presets, r₁) =
        import_presets document.filter_presets
          (map preset_name target.presets, target.presets, empty_report) in
      let (c_names, connections, r₂) =
        import_connections (map credential_name target.credentials) document.connections
          ([], [], r₁) in
      let (presets_are, p_errors, p_warnings) =
        presets_restored ps (map preset_name target.presets) target.presets empty_report
          (apart-by_name preset_name (map preset_name target.presets) own free)
          (Distinct-by_name preset_name own dp) (Every-by_name preset_name IsOwn own ep) in
      let (connections_are, c_errors, c_warnings) =
        connections_restored (map credential_name target.credentials) cs [] [] r₁
          (apart_none connection_name cs) (Distinct-by_name connection_name db.connections dc)
          (Every-by_name connection_name (IsSound (map credential_name target.credentials))
            db.connections ec) in
      let anchored : Every job_name
          (IsAnchored (map connection_name connections) (map preset_name presets)) js =
        rw presets_are rw connections_are (
          IsWhole-IsAnchored db.connections target.presets own js
            (Every-by_name job_name (IsWhole db.connections (target.presets ++ own)) db.jobs ej)) in
      let (jobs_are, j_errors, j_warnings) =
        jobs_restored (map connection_name connections) (map preset_name presets) js [] [] r₂
          (apart_none job_name js) (Distinct-by_name job_name db.jobs dj) anchored in
      let (j_names, jobs, r₃) =
        import_jobs (map connection_name connections) (map preset_name presets) document.jobs
          ([], [], r₂) in
      (
        connections_are,
        jobs_are,
        presets_are,
        import_preferences-errors document.preferences target.preferences r₃
            ∙ j_errors
            ∙ c_errors
            ∙ p_errors,
      )
