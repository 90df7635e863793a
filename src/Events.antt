-- ===== src/Events.antt =====
-- `RunBroker` of app/jobs/events.py: the output of the runs, handed on to whoever watches. A queue
-- holds its oldest item first; `none` is the end signal. Each call is one step: the broker's lock
-- guards its tables, and a queue is guarded by itself.
mod Queues
pub mod Bounds
pub mod Replay
pub mod Ending
use hivesync.Prelude.{
  ℕ, zero, suc, ◌+◌, ◌-◌, Bool, true, false, ◌||◌, Option, none, some, List, [], ◌∷◌, ◌++◌, map,
  Text, ltb, leb, ◌==◌, if◌then◌else◌, length, drop, keep, not,
}
use hivesync.Prelude.Dict.{Dict, get, put, pop}

pub data Kind : Type 0 where
  log_line status_change done stats ping : Kind

-- `data` is a JSON object, which nothing here looks at.
pub record RunEvent : Type 0 where
  pub kind : Kind
  pub text : Text
  pub data_text : Text

-- A `queue.Queue` of a subscriber.
pub record Channel : Type 0 where
  pub number : ℕ
  pub items : List (Option RunEvent)

pub record Broker : Type 0 where
  pub subscribers : Dict (List Channel)
  pub backlog : Dict (List RunEvent)
  pub latest_stats : Dict RunEvent
  pub finished : List ℕ
  pub next_number : ℕ

abbrev pub empty_broker : Broker
empty_broker = record {
  subscribers = [];
  backlog = [];
  latest_stats = [];
  finished = [];
  next_number = 0;
}

abbrev pub queue_size : ℕ
queue_size = 500

abbrev pub backlog_limit : ℕ
backlog_limit = 200

abbrev pub finished_memory : ℕ
finished_memory = 500

abbrev pub or_empty : {A : Type 0} → Option (List A) → List A
or_empty none = []
or_empty (some xs) = xs

-- `backlog_for`
unfoldable pub backlog_for : ℕ → Broker → List RunEvent
backlog_for run_id b = or_empty (get run_id b.backlog)

unfoldable pub channels_of : ℕ → Broker → List Channel
channels_of run_id b = or_empty (get run_id b.subscribers)

-- `del backlog[: len(backlog) - limit]` where it is over the limit.
unfoldable pub trimmed : List RunEvent → List RunEvent
trimmed events =
    if ltb backlog_limit (length events)
    then drop (length events - backlog_limit) events
    else events

-- `put_nowait`, and where the queue is full, once more without its oldest item.
unfoldable pub deliver : RunEvent → Channel → Channel
deliver event c =
    if ltb (length c.items) queue_size
    then record c { items = c.items ++ some event ∷ [] }
    else record c { items = drop 1 c.items ++ some event ∷ [] }

abbrev pub is_stats : Kind → Bool
is_stats stats = true
is_stats _ = false

-- A change of the queues of one run, if it has any.
unfoldable pub update_channels : (List Channel → List Channel) → ℕ → Broker → Broker
update_channels f run_id b = elim (get run_id b.subscribers) [
  | none ↦ b
  | some channels ↦ record b { subscribers = put run_id (f channels) b.subscribers }
]

-- What is kept for a late subscriber: of the stats only the newest, of the rest the last lines.
unfoldable pub stored : ℕ → RunEvent → Broker → Broker
unfolding backlog_for
stored run_id event b =
    if is_stats event.kind
    then record b { latest_stats = put run_id event b.latest_stats }
    else record b { backlog = put run_id (trimmed (backlog_for run_id b ++ event ∷ [])) b.backlog }

unfoldable pub publish : ℕ → RunEvent → Broker → Broker
unfolding stored update_channels
publish run_id event b = update_channels (map (deliver event)) run_id (stored run_id event b)

-- `put_nowait(None)`, which a full queue suppresses.
unfoldable pub end_signal : Channel → Channel
end_signal c =
    if ltb (length c.items) queue_size then record c { items = c.items ++ none ∷ [] } else c

abbrev pub has : ℕ → List ℕ → Bool
has n [] = false
has n (m ∷ ms) = (n == m) || has n ms

-- An `OrderedDict` keeps the place of a key it has; `popitem(last=False)` drops the oldest.
unfoldable pub remember : ℕ → List ℕ → List ℕ
remember run_id finished =
    let ids = if has run_id finished then finished else finished ++ run_id ∷ [] in
    drop (length ids - finished_memory) ids

unfoldable pub finish : ℕ → Broker → Broker
unfolding update_channels
finish run_id b =
    let told = update_channels (map end_signal) run_id b in
    record told {
      backlog = pop run_id told.backlog;
      latest_stats = pop run_id told.latest_stats;
      finished = remember run_id told.finished;
    }

abbrev pub stats_events : Option RunEvent → List RunEvent
stats_events none = []
stats_events (some e) = e ∷ []

-- What a new subscriber is given: the events to replay, and the number of its queue unless the
-- run is over.
unfoldable pub subscribe : ℕ → Broker → (List RunEvent × Option ℕ) × Broker
unfolding backlog_for channels_of
subscribe run_id b = if has run_id b.finished then ((backlog_for run_id b, none), b) else (
  (backlog_for run_id b ++ stats_events (get run_id b.latest_stats), some b.next_number),
  record b {
    subscribers =
        put run_id (channels_of run_id b ++ record { number = b.next_number; items = [] } ∷ [])
          b.subscribers;
    next_number = suc b.next_number;
  },
)

-- A turn of the subscriber's loop: a ping from an empty queue, the end, or the next event.
pub data Turn : Type 0 where
  heartbeat : Turn
  ended : Turn
  yielded : RunEvent → Turn

abbrev pub turn_of : List (Option RunEvent) → Turn
turn_of [] = heartbeat
turn_of (none ∷ items) = ended
turn_of (some e ∷ items) = yielded e

-- `channel.get`: the oldest item leaves the queue.
unfoldable pub taken : ℕ → Channel → Channel
taken number c = if c.number == number then record c { items = drop 1 c.items } else c

unfoldable pub receive : ℕ → ℕ → Broker → Broker
unfolding update_channels
receive number run_id b = update_channels (map (taken number)) run_id b

abbrev pub without : ℕ → List Channel → List Channel
without number channels = keep (λ c. not (c.number == number)) channels

-- What is left of a run's queues is stored, and nothing where none is left.
abbrev pub store_channels : ℕ → Broker → List Channel → Broker
store_channels run_id b [] = record b { subscribers = pop run_id b.subscribers }
store_channels run_id b (c ∷ cs) = record b { subscribers = put run_id (c ∷ cs) b.subscribers }

-- `finally`: the queue is removed, and with the last one the run's entry.
unfoldable pub unsubscribe : ℕ → ℕ → Broker → Broker
unsubscribe number run_id b = elim (get run_id b.subscribers) [
  | none ↦ b
  | some channels ↦ store_channels run_id b (without number channels)
]
