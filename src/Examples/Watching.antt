-- ===== src/Examples/Watching.antt =====
-- A watched job through two ticks, and watchers of a run with room in their queue and without.
use hivesync.Prelude.{
  false, ℕ, zero, suc, ◌+◌, ◌-◌, ◌≡◌, refl, true, Option, none, some, List, [], ◌∷◌, ◌++◌, codes,
  length, drop, keep, arith,
}
use hivesync.Models.{Job, running, schedule, live}
use hivesync.Prelude.Dict.{get}
use hivesync.Planner.{Db, new_run}
use hivesync.Planner.OneActive.{OneActive}
use hivesync.Watcher.{WatchState, Watch, Cycle, tick_job}
use hivesync.Watcher.Ticks.{not_started_early}
use hivesync.Events.{
  Kind, log_line, stats, RunEvent, Broker, empty_broker, publish, finish, subscribe, channels_of,
  stats_events,
}
use hivesync.Events.Bounds.{
  Bounded, initially, published, finished_run, subscribed, Reachable-Bounded,
}
use hivesync.Events.Replay.{publish_all, is_line, newest_stats, late_subscriber_replay}
use hivesync.Events.Ending.{AllEvents, is_ended, next_turn, receive_all, full_reader_waits}
use hivesync.Events.{heartbeat}
use hivesync.Examples.{photos}

abbrev watched : Job
watched = record photos { continuous = true }

abbrev first_state : WatchState
first_state = record { interval = 240; consecutive_quiet = 2 }

abbrev empty_db : Db
empty_db = record { runs = []; next_id = 1 }

abbrev other_db : Db
other_db = record { runs = new_run 1 8 schedule live running ∷ []; next_id = 2 }

abbrev no_watch : Watch
no_watch = record { states = []; due = []; cycle_started = [] }

empty_one : OneActive empty_db
empty_one job_id = omega arith

abbrev cycle : Cycle
cycle = record { watch = no_watch; db = other_db; jobs = []; started = [] }

not_started_early_example :
    (tick_job 1004 1004 watched (tick_job 1000 1000 watched cycle)).started
    ≡ (tick_job 1000 1000 watched cycle).started
unfolding get
not_started_early_example =
    not_started_early 1000 1004 1000 1004 watched watched cycle (omega arith) refl (omega arith)

abbrev event : Kind → RunEvent
event kind = record { kind = kind; text = codes "x"; data_text = [] }

Reachable-Bounded_example :
    Bounded (finish 1 (publish 1 (event log_line) (subscribe 1 empty_broker).1))
Reachable-Bounded_example =
    Reachable-Bounded (finished_run 1 (published 1 (event log_line) (subscribed 1 initially)))

abbrev output : List RunEvent
output = event stats ∷ event log_line ∷ event stats ∷ []

late_subscriber_replay_example :
    (subscribe 1 (publish_all 1 output empty_broker)).0.0
    ≡ drop (length (keep is_line output) - 200) (keep is_line output)
      ++ stats_events (newest_stats none output)
unfolding get
late_subscriber_replay_example = late_subscriber_replay 1 output empty_broker refl refl refl

abbrev with_queue : List (Option RunEvent) → Broker
with_queue items = record empty_broker {
  subscribers = (1, record { number = 0; items = items } ∷ []) ∷ [];
  next_number = 1;
}

abbrev repeated : ℕ → List (Option RunEvent)
repeated zero = []
repeated (suc n) = some (event log_line) ∷ repeated n

all_events : (n : ℕ) → AllEvents (repeated n)
all_events zero = tt
all_events (suc n) = all_events n

full_reader_waits_example :
    (is_ended (next_turn (channels_of 1 (receive_all 3 0 1 (finish 1 (with_queue (repeated 500))))))
      ≡ false)
    × (next_turn (channels_of 1 (receive_all (500 + 3) 0 1 (finish 1 (with_queue (repeated 500)))))
        ≡ heartbeat)
unfolding channels_of get
full_reader_waits_example =
    full_reader_waits 1 0 3 (repeated 500) (with_queue (repeated 500)) refl refl (all_events 500)
