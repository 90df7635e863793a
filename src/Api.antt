-- ===== src/Api.antt =====
-- The handlers of app/api/jobs.py that write the job table. The payload is a job row without its id
-- and its marks, the ids of its connections and those of its presets; its validation is the schema's.
pub mod Stale
use hivesync.Prelude.{
  ℕ, suc, Bool, true, false, not, ◌&&◌, ◌||◌, Option, none, some, List, [], ◌∷◌, ◌++◌, Text,
  text_eq, ◌==◌, if◌then◌else◌, keep, any, length,
}
use hivesync.Prelude.Dict.{Dict, get}
use hivesync.Models.{Connection, FilterPreset, Job}
use hivesync.Scheduler.{Schedule, find_job, reload}

pub record JobPayload : Type 0 where
  pub columns : Job
  pub source_connection_id : ℕ
  pub dest_connection_id : ℕ
  pub filter_preset_ids : List ℕ

-- The tables, and the scheduler if it runs.
pub record App : Type 0 where
  pub jobs : List Job
  pub next_id : ℕ
  pub connections : Dict Connection
  pub presets : Dict FilterPreset
  pub scheduler : Option Schedule

-- The status of an `HTTPException`.
pub data HttpError : Type 0 where
  bad_request not_found conflict : HttpError

pub data Reply {ℓ} (A : Type ℓ) : Type ℓ where
  answer : A → Reply A
  error : HttpError → Reply A

abbrev pub among : ℕ → List ℕ → Bool
among id ids = any (λ n. n == id) ids

abbrev pub rows_of : List ℕ → Dict FilterPreset → List FilterPreset
rows_of ids [] = []
rows_of ids ((id, preset) ∷ presets) =
    let rest = rows_of ids presets in if among id ids then preset ∷ rest else rest

abbrev pub all_there : List ℕ → Dict FilterPreset → Bool
all_there [] presets = true
all_there (id ∷ ids) presets = elim (get id presets) [
  | none ↦ false
  | some preset ↦ all_there ids presets
]

-- The presets of the selected ids; `none` if one of them is gone.
abbrev pub selected : List ℕ → Dict FilterPreset → Option (List FilterPreset)
selected ids presets = if all_there ids presets then some (rows_of ids presets) else none

-- `_apply` with the rows that `_require_connections` found.
abbrev pub applied : Job → Connection → Connection → List FilterPreset → Job → Job
applied columns source dest presets job = record columns {
  id = job.id;
  source_connection = source;
  dest_connection = dest;
  filter_presets = presets;
  last_checked_at = job.last_checked_at;
  bisync_initialized = job.bisync_initialized;
}

-- The row that a payload makes of a job.
unfoldable pub apply : JobPayload → App → Job → Reply Job
apply payload app job = elim (get payload.source_connection_id app.connections) [
  | none ↦ error bad_request
  | some source ↦ elim (get payload.dest_connection_id app.connections) [
    | none ↦ error bad_request
    | some dest ↦ elim (selected payload.filter_preset_ids app.presets) [
      | none ↦ error bad_request
      | some presets ↦ answer (applied payload.columns source dest presets job)
    ]
  ]
]

abbrev pub taken : Text → ℕ → List Job → Bool
taken name id jobs = any (λ job. text_eq job.name name && not (job.id == id)) jobs

-- `_resync`
unfoldable pub resync : (Text → Text → Bool) → App → App
resync accepts app = elim app.scheduler [
  | none ↦ app
  | some schedule ↦ record app { scheduler = some (reload accepts app.jobs) }
]

-- The commit of a new row; the name of a job is unique.
abbrev pub commit_new : (Text → Text → Bool) → App → Reply Job → Reply App
commit_new accepts app (error e) = error e
commit_new accepts app (answer job) =
    if taken job.name job.id app.jobs
    then error conflict
    else answer
        (resync accepts (record app { jobs = app.jobs ++ job ∷ []; next_id = suc app.next_id }))

abbrev pub replace_job : Job → List Job → List Job
replace_job job [] = []
replace_job job (j ∷ jobs) =
    let rest = replace_job job jobs in if j.id == job.id then job ∷ jobs else j ∷ rest

abbrev pub commit_update : App → Reply Job → Reply App
commit_update app (error e) = error e
commit_update app (answer job) =
    if taken job.name job.id app.jobs
    then error conflict
    else answer (record app { jobs = replace_job job app.jobs })

module _ (accepts : Text → Text → Bool) where
  -- A new `Job()` has the defaults of its marks.
  unfoldable pub create_job : JobPayload → App → Reply App
  unfolding apply resync
  create_job payload app = commit_new accepts app (
      apply payload app (record payload.columns {
        id = app.next_id;
        last_checked_at = none;
        bisync_initialized = false;
      }))

  unfoldable pub update_job : ℕ → JobPayload → App → Reply App
  unfolding apply
  update_job job_id payload app = elim (find_job job_id app.jobs) [
    | none ↦ error not_found
    | some job ↦ commit_update app (apply payload app job)
  ]

  unfoldable pub delete_job : ℕ → App → Reply App
  unfolding resync
  delete_job job_id app = elim (find_job job_id app.jobs) [
    | none ↦ error not_found
    | some job ↦
        answer (resync accepts (record app { jobs = keep (λ j. not (j.id == job_id)) app.jobs }))
  ]
