-- ===== src/Portable/Twice.antt =====
-- Two imports of one document, in app/portable.py.
use hivesync.Prelude.{
  ◌≡◌, refl, ap, ◌∙◌, sym, Bool-cases, inl, inr, Option, List, [], ◌++◌, append-nil, Text, map,
  ◌==◌,
}
use hivesync.Portable.{
  ConnectionRow, JobRow, PresetRow, Settings, Store, ConnectionEntry, JobEntry, PresetEntry,
  Document, supported_version, connection_name, job_name, preset_name, credential_name,
}
use hivesync.Portable.Import.{
  ImportReport, empty_report, Progress, import_preset, import_presets, import_connection,
  import_connections, import_job, import_jobs, import_rows, import_document,
}
use hivesync.Portable.Loop.{each, each-twice, each-settles}
use hivesync.Portable.Steps.{
  idle_preset, idle_connection, idle_job, import_preset-IsStep, import_connection-IsStep,
  import_job-IsStep, presets-each, connections-each, jobs-each,
}

-- The second list is the first and then others.
abbrev pub Extends {ℓ} : {A : Type ℓ} → List A → List A → Type ℓ
Extends xs ys = (new : List _) × (ys ≡ xs ++ new)

presets-twice :
    (es : List PresetEntry) (rows : List PresetRow) (r r' : ImportReport)
    → let (_, once, _) = import_presets es (map preset_name rows, rows, r) in
      Extends rows once × ((import_presets es (map preset_name once, once, r')).1 ≡ once)
presets-twice es rows r r' =
    let p : Progress PresetRow = (map preset_name rows, rows, r) in
    let q = each preset_name import_preset idle_preset es p in
    rw (presets-each es p) rw (presets-each es (map preset_name q.1, q.1, r')) (
      (each-settles preset_name import_preset idle_preset import_preset-IsStep es p (λ n h. h)).0.0,
      each-twice preset_name import_preset idle_preset import_preset-IsStep es p r' (λ n h. h),
    )

connections-twice :
    (credentials : List Text) (es : List ConnectionEntry) (rows : List ConnectionRow)
    (r r' : ImportReport)
    → let (_, once, _) = import_connections credentials es (map connection_name rows, rows, r) in
      Extends rows once
      × ((import_connections credentials es (map connection_name once, once, r')).1 ≡ once)
connections-twice credentials es rows r r' =
    let p : Progress ConnectionRow = (map connection_name rows, rows, r) in
    let is = import_connection-IsStep credentials in
    let q = each connection_name (import_connection credentials) idle_connection es p in
    rw (connections-each credentials es p) rw
      (connections-each credentials es (map connection_name q.1, q.1, r'))
      (
        (each-settles connection_name (import_connection credentials) idle_connection is es p
            (λ n h. h)).0.0,
        each-twice connection_name (import_connection credentials) idle_connection is es p r'
            (λ n h. h),
      )

jobs-twice :
    (connections presets : List Text) (es : List JobEntry) (rows : List JobRow)
    (r r' : ImportReport)
    → let (_, once, _) = import_jobs connections presets es (map job_name rows, rows, r) in
      Extends rows once
      × ((import_jobs connections presets es (map job_name once, once, r')).1 ≡ once)
jobs-twice connections presets es rows r r' =
    let p : Progress JobRow = (map job_name rows, rows, r) in
    let is = import_job-IsStep connections presets in
    let q = each job_name (import_job connections presets) (idle_job connections) es p in
    rw (jobs-each connections presets es p) rw
      (jobs-each connections presets es (map job_name q.1, q.1, r'))
      (
        (each-settles job_name (import_job connections presets) (idle_job connections) is es p
            (λ n h. h)).0.0,
        each-twice job_name (import_job connections presets) (idle_job connections) is es p r'
            (λ n h. h),
      )

module _ (validated : Settings → Option Settings) where
  rows-twice :
      (db : Store) (document : Document) (r r' : ImportReport)
      → let (once, _) = import_rows validated document db r in
        let (twice, _) = import_rows validated document once r' in
        Extends db.presets once.presets
        × Extends db.connections once.connections
        × Extends db.jobs once.jobs
        × (twice.presets ≡ once.presets)
        × (twice.connections ≡ once.connections)
        × (twice.jobs ≡ once.jobs)
  unfolding import_rows
  rows-twice db document r r' =
      let credentials = map credential_name db.credentials in
      let p = import_presets document.filter_presets (map preset_name db.presets, db.presets, r) in
      let c =
        import_connections credentials document.connections
          (map connection_name db.connections, db.connections, p.2) in
      let j =
        import_jobs (map connection_name c.1) (map preset_name p.1) document.jobs
          (map job_name db.jobs, db.jobs, c.2) in
      let p' = import_presets document.filter_presets (map preset_name p.1, p.1, r') in
      let c' =
        import_connections credentials document.connections (map connection_name c.1, c.1, p'.2) in
      let (p_extends, p_same) = presets-twice document.filter_presets db.presets r r' in
      let (c_extends, c_same) =
        connections-twice credentials document.connections db.connections p.2 p'.2 in
      let (j_extends, j_same) =
        jobs-twice (map connection_name c.1) (map preset_name p.1) document.jobs db.jobs c.2 c'.2 in
      let again : List ConnectionRow → List PresetRow → List JobRow = λ cs ps.
        (import_jobs (map connection_name cs) (map preset_name ps) document.jobs
          (map job_name j.1, j.1, c'.2)).1 in
      (
        p_extends,
        c_extends,
        j_extends,
        p_same,
        c_same,
        ap (λ cs. again cs p'.1) c_same ∙ ap (again c.1) p_same ∙ j_same,
      )

  -- An import only adds rows behind those that are there, whatever the document and the instance;
  -- and importing the same document again adds none at all.
  pub import_twice :
      (db : Store) (document : Document)
      → let (once, _) = import_document validated db document in
        let (twice, _) = import_document validated once document in
        Extends db.presets once.presets
        × Extends db.connections once.connections
        × Extends db.jobs once.jobs
        × (twice.presets ≡ once.presets)
        × (twice.connections ≡ once.connections)
        × (twice.jobs ≡ once.jobs)
  unfolding import_document
  import_twice db document = elim (Bool-cases (document.format_version == supported_version)) [
    | inl right ↦ rw right (rows-twice db document empty_report empty_report)
    | inr wrong ↦ rw wrong (
      ([], sym (append-nil db.presets)),
      ([], sym (append-nil db.connections)),
      ([], sym (append-nil db.jobs)),
      refl,
      refl,
      refl,
    )
  ]
