-- ===== src/Events/Bounds.antt =====
-- The sizes of what `RunBroker` of app/jobs/events.py holds, over every sequence of calls.
use hivesync.Prelude.{ℕ, ◌≤◌, ◌≡◌, Bool-cases, List, [], ◌∷◌, ◌++◌, map, length, arith, inl, inr}
use hivesync.Prelude.Dict.{Dict, get, put, pop, get-put, get-pop}
use hivesync.Events.{
  RunEvent, Channel, Broker, empty_broker, or_empty, backlog_for, channels_of, deliver, is_stats,
  stored, publish, end_signal, has, finish, subscribe, taken, receive, unsubscribe, update_channels,
}
use hivesync.Events.Queues.{
  Fits, Fits-append, deliver-bound, end_signal-bound, taken-bound, remember-bound, trimmed-bound,
  put-Fits, update-Fits, unsubscribe-Fits,
}

pub record Bounded (b : Broker) : Type 0 where
  pub queues : (run_id : ℕ) → Fits (channels_of run_id b)
  pub lines : (run_id : ℕ) → length (backlog_for run_id b) ≤ 200
  pub memory : length b.finished ≤ 500

-- The calls on the broker, one after the other.
pub data Reachable : Broker → Type 0 where
  initially : Reachable empty_broker
  published :
      {b : Broker} → (run_id : ℕ) (e : RunEvent) → Reachable b → Reachable (publish run_id e b)
  finished_run : {b : Broker} → (run_id : ℕ) → Reachable b → Reachable (finish run_id b)
  subscribed : {b : Broker} → (run_id : ℕ) → Reachable b → Reachable (subscribe run_id b).1
  received : {b : Broker} → (number run_id : ℕ) → Reachable b → Reachable (receive number run_id b)
  unsubscribed :
      {b : Broker} → (number run_id : ℕ) → Reachable b → Reachable (unsubscribe number run_id b)

put-lines :
    (i j : ℕ) (es : List RunEvent) (d : Dict (List RunEvent))
    → length es ≤ 200
    → length (or_empty (get j d)) ≤ 200
    → length (or_empty (get j (put i es d))) ≤ 200
put-lines i j es d new old = ground (arith, get-put i j es d)

pop-lines :
    (i j : ℕ) (d : Dict (List RunEvent))
    → length (or_empty (get j d)) ≤ 200
    → length (or_empty (get j (pop i d))) ≤ 200
pop-lines i j d old = ground (arith, get-pop i j d)

-- The queues change, the rest stays.
same-update :
    (f : List Channel → List Channel) (i : ℕ) (b : Broker)
    → ((update_channels f i b).backlog ≡ b.backlog)
      × ((update_channels f i b).finished ≡ b.finished)
unfolding update_channels
same-update f i b = ground arith

update-Bounded :
    (f : Channel → Channel) (i : ℕ) (b : Broker)
    → ((c : Channel) → length c.items ≤ 500 → length (f c).items ≤ 500)
    → Bounded b
    → Bounded (update_channels (map f) i b)
unfolding backlog_for channels_of
update-Bounded f i b h bounded = record {
  queues = update-Fits f i b h bounded.queues;
  lines = λ j. rw (same-update (map f) i b).0 (bounded.lines j);
  memory = rw (same-update (map f) i b).1 bounded.memory;
}

stored-Bounded : (i : ℕ) (e : RunEvent) (b : Broker) → Bounded b → Bounded (stored i e b)
unfolding stored backlog_for channels_of
stored-Bounded i e b h = elim (Bool-cases (is_stats e.kind)) [
  | inl progress ↦ rw progress (record { queues = h.queues; lines = h.lines; memory = h.memory })
  | inr text ↦ rw text (record {
    queues = h.queues;
    lines = λ j. put-lines i j _ b.backlog (trimmed-bound (backlog_for i b ++ e ∷ [])) (h.lines j);
    memory = h.memory;
  })
]

finish-Bounded : (i : ℕ) (b : Broker) → Bounded b → Bounded (finish i b)
unfolding finish backlog_for channels_of
finish-Bounded i b h =
    let told = update-Bounded end_signal i b end_signal-bound h in
    record {
      queues = told.queues;
      lines = λ j. pop-lines i j (update_channels (map end_signal) i b).backlog (told.lines j);
      memory = remember-bound i (update_channels (map end_signal) i b).finished;
    }

subscribe-Bounded : (i : ℕ) (b : Broker) → Bounded b → Bounded (subscribe i b).1
unfolding subscribe backlog_for channels_of
subscribe-Bounded i b h = elim (Bool-cases (has i b.finished)) [
  | inl over ↦ rw over h
  | inr going ↦ rw going (record {
    queues = λ j.
        put-Fits i j _ b.subscribers (Fits-append (channels_of i b) _ (omega arith) (h.queues i))
          (h.queues j);
    lines = h.lines;
    memory = h.memory;
  })
]

same-unsubscribe :
    (number i : ℕ) (b : Broker)
    → ((unsubscribe number i b).backlog ≡ b.backlog)
      × ((unsubscribe number i b).finished ≡ b.finished)
unfolding unsubscribe
same-unsubscribe number i b = ground arith

unsubscribe-Bounded : (number i : ℕ) (b : Broker) → Bounded b → Bounded (unsubscribe number i b)
unfolding backlog_for channels_of
unsubscribe-Bounded number i b h = record {
  queues = unsubscribe-Fits number i b h.queues;
  lines = λ j. rw (same-unsubscribe number i b).0 (h.lines j);
  memory = rw (same-unsubscribe number i b).1 h.memory;
}

-- However long the runs are, whatever they publish and whoever reads or stops reading: no queue
-- ever holds more than 500 items, no backlog more than 200 events, and the finished runs that are
-- remembered are at most 500.
pub Reachable-Bounded : {b : Broker} → Reachable b → Bounded b
unfolding publish receive channels_of backlog_for get
Reachable-Bounded initially = record {
  queues = λ j. tt;
  lines = λ j. omega arith;
  memory = omega arith;
}
Reachable-Bounded (published {b} i e r) =
    update-Bounded (deliver e) i (stored i e b) (deliver-bound e)
      (stored-Bounded i e b (Reachable-Bounded r))
Reachable-Bounded (finished_run {b} i r) = finish-Bounded i b (Reachable-Bounded r)
Reachable-Bounded (subscribed {b} i r) = subscribe-Bounded i b (Reachable-Bounded r)
Reachable-Bounded (received {b} number i r) =
    update-Bounded (taken number) i b (taken-bound number) (Reachable-Bounded r)
Reachable-Bounded (unsubscribed {b} number i r) =
    unsubscribe-Bounded number i b (Reachable-Bounded r)
