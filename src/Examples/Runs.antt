-- ===== src/Examples/Runs.antt =====
-- Runs on an emptied source, and on a job that was never synced.
use hivesync.Prelude.{
  ℕ, if◌then◌else◌, ◌<◌, ◌≡◌, refl, ◌⊎◌, false, none, some, List, [], ◌∷◌, Text, length, arith,
}
use hivesync.Engines.Plan.{Plan, empty_plan, deleted_count}
use hivesync.Engines.Reconcile.{by_path, reconcile}
use hivesync.Parsers.{copies, dest_file_count, removals}
use hivesync.Engines.Rclone.{resolve_max_delete, endpoints_and_paths}
use hivesync.Runner.State.{Effect, released}
use hivesync.Runner.Plan.{Planned, planned, engine_error, plan_one_way}
use hivesync.Runner.OneWay.{
  execute_one_way, checked, preflight, threshold_for, sentinel_gone, brake_refusal,
}
use hivesync.Runner.Record.{refuse_row}
use hivesync.Runner.RunNow.{
  cut_off, execute, release, prune_quiet_cycle, notify, handled, concluded, run_now, started,
}
use hivesync.Runner.Effects.{spawns}
use hivesync.Runner.Allowed.{Allowed}
use hivesync.Runner.Brake.{run_now_within_brake}
use hivesync.Lifecycle.{System, find_run, force_run}
use hivesync.Runner.Bisync.{execute_bisync}
use hivesync.Runner.Refusal.{IsRefused, run_now-IsRefused, emptied_source_refused}
use hivesync.Runner.Ends.{EndsWell, run_now-EndsWell}
use hivesync.Runner.FirstSync.{first_sync_refusal, never_resyncs_by_itself}
use hivesync.Examples.{emptied, fresh_run, photos, pair}

abbrev plan_of : Planned → Plan
plan_of (planned plan) = plan
plan_of (engine_error m) = empty_plan

abbrev wipe_plan : Plan
wipe_plan = plan_of (plan_one_way emptied photos)

wipe_planned : plan_one_way emptied photos ≡ planned wipe_plan
unfolding plan_one_way
wipe_planned = refl

wipe_there : sentinel_gone emptied (endpoints_and_paths photos).0 ≡ false
unfolding endpoints_and_paths
wipe_there = refl

wipe_over : threshold_for none 50 wipe_plan.dest_file_count < deleted_count wipe_plan
unfolding plan_one_way deleted_count resolve_max_delete reconcile dest_file_count by_path copies
    removals
wipe_over = omega arith

wipe_held : dest_file_count emptied.presence ≡ 3
unfolding dest_file_count
wipe_held = refl

wipe_gone : length (by_path (removals emptied.dry_log)) ≡ 3
unfolding by_path removals
wipe_gone = refl

-- A run that an `OSError` ends right after its start is left running.
left_running :
    (run_now (record emptied { fault = some 2 }) fresh_run photos).row
    ≡ some (started emptied fresh_run)
unfolding run_now concluded cut_off execute release prune_quiet_cycle notify handled started
    execute_one_way checked preflight plan_one_way reconcile deleted_count resolve_max_delete
    dest_file_count by_path copies removals endpoints_and_paths brake_refusal refuse_row
left_running = refl

run_now_within_brake_example :
    (spawns (run_now emptied fresh_run photos).effects ≡ [])
    ⊎ ((argv : List Text) × (spawns (run_now emptied fresh_run photos).effects ≡ argv ∷ [])
        × Allowed emptied (started emptied fresh_run) photos argv)
run_now_within_brake_example = run_now_within_brake emptied fresh_run photos refl

run_now-IsRefused_example :
    IsRefused
      (if sentinel_gone emptied (endpoints_and_paths photos).0
        then none
        else some (deleted_count wipe_plan))
      emptied
      (run_now emptied fresh_run photos)
run_now-IsRefused_example =
    run_now-IsRefused emptied fresh_run photos wipe_plan refl refl wipe_planned wipe_over

emptied_source_refused_example :
    ((run_now emptied fresh_run photos).row
      ≡ some (
          refuse_row emptied photos
            (brake_refusal photos wipe_plan (resolve_max_delete 50 3))
            (started emptied fresh_run)))
    × (spawns (run_now emptied fresh_run photos).effects ≡ [])
emptied_source_refused_example =
    emptied_source_refused emptied fresh_run photos wipe_plan 3 refl refl wipe_planned wipe_there
      refl wipe_held wipe_gone (omega arith) (omega arith)

run_now-EndsWell_example :
    (EndsWell emptied (run_now emptied fresh_run photos) ⊎ ((n : ℕ) × (emptied.fault ≡ some n)))
    × ((rest : List Effect) × ((run_now emptied fresh_run photos).effects ≡ released ∷ rest))
run_now-EndsWell_example = run_now-EndsWell emptied fresh_run photos

abbrev unsynced : System
unsynced = record {
  db = record {
    runs = refuse_row emptied pair (first_sync_refusal pair) (started emptied fresh_run) ∷ [];
    next_id = 2;
  };
  queue = [];
  working = [];
}

pair_refused : find_run 1 unsynced.db.runs ≡ (run_now emptied fresh_run pair).row
unfolding run_now execute execute_bisync release prune_quiet_cycle notify handled started concluded
    refuse_row
pair_refused = refl

never_resyncs_by_itself_example :
    IsRefused none emptied (run_now emptied fresh_run pair)
    × (force_run (pair ∷ []) 1 unsynced ≡ none)
never_resyncs_by_itself_example =
    never_resyncs_by_itself emptied fresh_run pair (pair ∷ []) 1 unsynced refl refl refl refl
      pair_refused
