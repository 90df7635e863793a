-- ===== src/Portable/Steps.antt =====
-- What one round of each loop of app/portable.py does.
use hivesync.Prelude.{
  ◌≡◌, refl, Bool, true, false, inl, inr, not, ◌||◌, Option, none, some, List, [], ◌∷◌, Text,
  Option-cases, text_eq_refl, strip, non_empty, arith,
}
use hivesync.Parsers.{member}
use hivesync.Portable.{
  unobserved, default_continuity, ConnectionRow, JobRow, PresetRow, ConnectionEntry, JobEntry,
  PresetEntry, connection_name, job_name, preset_name,
}
use hivesync.Portable.Import.{
  Progress, import_preset, import_presets, import_connection, import_connections, import_job,
  import_jobs, link_credential, link_presets, find_connection,
}
use hivesync.Portable.Loop.{Covers, each, IsStep}

-- A name that is blank or taken.
abbrev pub passed_over : Text → List Text → Bool
passed_over name names = not (non_empty name) || member name names

abbrev pub idle_preset : List Text → PresetEntry → Bool
idle_preset names e = passed_over (strip e.name) names

abbrev pub idle_connection : List Text → ConnectionEntry → Bool
idle_connection names e = passed_over (strip e.columns.name) names

abbrev pub is_none : Option Text → Bool
is_none none = true
is_none (some t) = false

abbrev pub idle_job : List Text → List Text → JobEntry → Bool
idle_job connections names e =
    passed_over (strip e.columns.name) names
    || is_none (find_connection connections e.source_connection)
    || is_none (find_connection connections e.dest_connection)

passed_over-Covers :
    (name : Text) (xs ys : List Text)
    → Covers ys xs
    → passed_over name xs ≡ true
    → passed_over name ys ≡ true
passed_over-Covers name xs ys covers h = ground (arith, h, covers name)

pub import_preset-IsStep : IsStep preset_name import_preset idle_preset
unfolding import_preset
import_preset-IsStep = record {
  passes = λ e p idle. ground (arith, idle);
  adds = λ e p new. (
    record { name = strip e.name; builtin = false; rules = e.rules },
    ground (arith, new),
    ground (arith, new),
    ground (arith, text_eq_refl (strip e.name)),
  );
  covered = λ e xs ys covers. passed_over-Covers (strip e.name) xs ys covers;
}

pub import_connection-IsStep :
    (credentials : List Text)
    → IsStep connection_name (import_connection credentials) idle_connection
unfolding import_connection
import_connection-IsStep credentials = record {
  passes = λ e p idle. ground (arith, idle);
  adds = λ e p new. (
    record {
      columns = record e.columns { name = strip e.columns.name };
      credential = (link_credential credentials (strip e.columns.name) e.credential_name).0;
      observed = unobserved;
    },
    ground (arith, new),
    ground (arith, new),
    ground (arith, text_eq_refl (strip e.columns.name)),
  );
  covered = λ e xs ys covers. passed_over-Covers (strip e.columns.name) xs ys covers;
}

pub import_job-IsStep :
    (connections presets : List Text)
    → IsStep job_name (import_job connections presets) (idle_job connections)
unfolding import_job
import_job-IsStep connections presets = record {
  passes = λ e p idle.
      let from = Option-cases (find_connection connections e.source_connection) in
      let into = Option-cases (find_connection connections e.dest_connection) in
      ground (arith, idle, from, into);
  adds = λ e p new.
      let name = strip e.columns.name in
      elim (Option-cases (find_connection connections e.source_connection)) [
        | inl missing ↦ absurd (ground (arith, new, missing))
        | inr (s, from) ↦ elim (Option-cases (find_connection connections e.dest_connection)) [
          | inl missing ↦ absurd (ground (arith, new, missing))
          | inr (d, into) ↦ (
            record {
              columns = record e.columns { name = name };
              source_connection = s;
              dest_connection = d;
              filter_presets = (link_presets presets name e.filter_presets).0;
              continuity = default_continuity;
            },
            ground (arith, new, from, into),
            ground (arith, new, from, into),
            ground (arith, text_eq_refl name),
          )
        ]
      ];
  covered = λ e xs ys covers h. ground (arith, h, covers (strip e.columns.name));
}

-- Each loop is `each` of its step.
pub presets-each :
    (es : List PresetEntry) (p : Progress PresetRow)
    → import_presets es p ≡ each preset_name import_preset idle_preset es p
unfolding import_presets
presets-each [] p = refl
presets-each (e ∷ es) p = presets-each es (import_preset e p)

pub connections-each :
    (credentials : List Text) (es : List ConnectionEntry) (p : Progress ConnectionRow)
    → import_connections credentials es p
      ≡ each connection_name (import_connection credentials) idle_connection es p
unfolding import_connections
connections-each credentials [] p = refl
connections-each credentials (e ∷ es) p =
    connections-each credentials es (import_connection credentials e p)

pub jobs-each :
    (connections presets : List Text) (es : List JobEntry) (p : Progress JobRow)
    → import_jobs connections presets es p
      ≡ each job_name (import_job connections presets) (idle_job connections) es p
unfolding import_jobs
jobs-each connections presets [] p = refl
jobs-each connections presets (e ∷ es) p =
    jobs-each connections presets es (import_job connections presets e p)
