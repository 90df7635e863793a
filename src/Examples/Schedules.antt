-- ===== src/Examples/Schedules.antt =====
-- A nightly job that is moved to another hour through the API.
use hivesync.Prelude.{◌≡◌, ◌↔◌, refl, Bool, true, some, List, [], ◌∷◌, Text, codes}
use hivesync.Prelude.Dict.{get}
use hivesync.Models.{Job}
use hivesync.Scheduler.{Schedule, find_job, trigger_of, reload}
use hivesync.Scheduler.Reload.{IsDue, reload-agrees}
use hivesync.Api.{JobPayload, App, Reply, answer, error, apply, update_job}
use hivesync.Api.Stale.{edited_keeps_trigger}
use hivesync.Examples.{photos, disk}

abbrev every : Text → Text → Bool
every expression zone = true

abbrev at_hour : Text → Job
at_hour cron = record photos { schedule_cron = some cron }

abbrev table : List Job
table = at_hour (codes "30 2 * * *") ∷ record photos { id = 8; name = codes "other" } ∷ []

reload-agrees_example :
    (get 7 (reload every table).entries ≡ some (codes "30 2 * * *", codes "UTC")) ↔ (
      (job : Job) × (find_job 7 table ≡ some job)
      × IsDue every job (codes "30 2 * * *", codes "UTC"))
reload-agrees_example =
    reload-agrees every table 7 (codes "30 2 * * *", codes "UTC") (refl, (refl, tt))

abbrev running_app : App
running_app = record {
  jobs = table;
  next_id = 9;
  connections = (1, disk (codes "/photos")) ∷ (2, disk (codes "/backup")) ∷ [];
  presets = [];
  scheduler = some (reload every table);
}

abbrev later : JobPayload
later = record {
  columns = at_hour (codes "0 5 * * *");
  source_connection_id = 1;
  dest_connection_id = 2;
  filter_preset_ids = [];
}

abbrev app_of : Reply App → App
app_of (answer app) = app
app_of (error e) = running_app

edited_keeps_trigger_example :
    (s : Schedule) × ((app_of (update_job every 7 later running_app)).scheduler ≡ some s)
    × (get 7 s.entries ≡ trigger_of every (at_hour (codes "30 2 * * *")))
unfolding update_job apply get
edited_keeps_trigger_example =
    edited_keeps_trigger every 7 later running_app (app_of (update_job every 7 later running_app))
      (at_hour (codes "30 2 * * *")) (refl, (refl, tt)) refl refl refl
