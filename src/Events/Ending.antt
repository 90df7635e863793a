-- ===== src/Events/Ending.antt =====
-- The end signal of `finish` in app/jobs/events.py, and the queue it is put into.
use hivesync.Prelude.{
  ℕ, zero, suc, ◌+◌, ◌≤◌, ◌<◌, ◌≡◌, refl, Bool, true, false, Option, none, some, List, [], ◌∙◌, ap,
  ◌∷◌, ◌++◌, map, length, drop, arith, Option-cases,
}
use hivesync.Prelude.Dict.{get, get-put}
use hivesync.Events.{
  Turn, heartbeat, ended, turn_of, RunEvent, Channel, Broker, channels_of, end_signal, finish,
  taken, receive, update_channels,
}

channels-update :
    (f : Channel → Channel) (i : ℕ) (b : Broker)
    → channels_of i (update_channels (map f) i b) ≡ map f (channels_of i b)
unfolding channels_of update_channels
channels-update f i b =
    grind (
      arith,
      get-put i i (map f (channels_of i b)) b.subscribers,
      Option-cases (get i b.subscribers),
    )

-- `n` items of one queue are taken.
unfoldable pub receive_all : ℕ → ℕ → ℕ → Broker → Broker
receive_all zero number i b = b
receive_all (suc n) number i b = receive_all n number i (receive number i b)

drop_one-drop : {A : Type 0} (n : ℕ) (xs : List A) → drop n (drop 1 xs) ≡ drop (suc n) xs
drop_one-drop zero [] = refl
drop_one-drop (suc n) [] = refl
drop_one-drop n (x ∷ xs) = refl

drop_all : {A : Type 0} (n : ℕ) (xs : List A) → length xs ≤ n → drop n xs ≡ []
drop_all zero [] h = refl
drop_all (suc n) [] h = refl
drop_all zero (x ∷ xs) h = ground (arith, h)
drop_all (suc n) (x ∷ xs) h = drop_all n xs (omega (arith, h))

drop_exactly : {A : Type 0} (n : ℕ) (xs ys : List A) → length xs ≡ n → drop n (xs ++ ys) ≡ ys
drop_exactly zero [] ys h = refl
drop_exactly zero (x ∷ xs) ys h = ground (arith, h)
drop_exactly (suc n) [] ys h = ground (arith, h)
drop_exactly (suc n) (x ∷ xs) ys h = drop_exactly n xs ys (omega (arith, h))

-- The items that are left of a queue after `n` of them were taken.
receive_all-channel :
    (n i number : ℕ) (items : List (Option RunEvent)) (b : Broker)
    → channels_of i b ≡ record { number = number; items = items } ∷ []
    → channels_of i (receive_all n number i b)
      ≡ record { number = number; items = drop n items } ∷ []
unfolding receive_all receive taken
receive_all-channel zero i number items b h = h
receive_all-channel (suc n) i number items b h =
    receive_all-channel n i number (drop 1 items) (receive number i b) one
    ∙ ap (λ left. record { number = number; items = left } ∷ []) (drop_one-drop n items)
  where
    one : channels_of i (receive number i b) ≡ record { number = number; items = drop 1 items } ∷ []
    one = ground (arith, channels-update (taken number) i b, h)

finish-channel :
    (i : ℕ) (b : Broker) (c : Channel)
    → channels_of i b ≡ c ∷ []
    → channels_of i (finish i b) ≡ end_signal c ∷ []
unfolding finish channels_of
finish-channel i b c h = ground (arith, h, channels-update end_signal i b)

-- A watcher whose queue has room when the run is finished is told: once it has taken what was
-- there before, the end signal is the one item left.
pub reader_told :
    (i number : ℕ) (items : List (Option RunEvent)) (b : Broker)
    → channels_of i b ≡ record { number = number; items = items } ∷ []
    → length items < 500
    → channels_of i (receive_all (length items) number i (finish i b))
      ≡ record { number = number; items = none ∷ [] } ∷ []
unfolding end_signal
reader_told i number items b h room =
    let signalled : channels_of i (finish i b)
        ≡ record { number = number; items = items ++ none ∷ [] } ∷ [] =
      ground (arith, finish-channel i b (record { number = number; items = items }) h, room) in
    receive_all-channel (length items) i number (items ++ none ∷ []) (finish i b) signalled
    ∙ ap (λ left. record { number = number; items = left } ∷ [])
        (drop_exactly (length items) items (none ∷ []) refl)

-- Each item is an event: no end signal is among them.
abbrev pub AllEvents : List (Option RunEvent) → Type 0
AllEvents [] = Unit
AllEvents (none ∷ items) = ⊥
AllEvents (some e ∷ items) = AllEvents items

abbrev pub is_ended : Turn → Bool
is_ended ended = true
is_ended _ = false

-- What the one watcher of a run is sent next.
abbrev pub next_turn : List Channel → Turn
next_turn (c ∷ cs) = turn_of c.items
next_turn [] = heartbeat

no_end :
    (k : ℕ) (items : List (Option RunEvent))
    → AllEvents items
    → is_ended (turn_of (drop k items)) ≡ false
no_end zero [] all = refl
no_end (suc k) [] all = refl
no_end k (none ∷ items) all = elim all [ ]
no_end zero (some e ∷ items) all = refl
no_end (suc k) (some e ∷ items) all = no_end k items all

-- A watcher whose queue is full of events when the run is finished, and that then only takes items,
-- is never told by that call: whatever number of items it has taken, it is not sent the end, and
-- from the 500th on it is sent a heartbeat.
pub full_reader_waits :
    (i number k : ℕ) (items : List (Option RunEvent)) (b : Broker)
    → channels_of i b ≡ record { number = number; items = items } ∷ []
    → length items ≡ 500
    → AllEvents items
    → (is_ended (next_turn (channels_of i (receive_all k number i (finish i b)))) ≡ false)
      × (next_turn (channels_of i (receive_all (500 + k) number i (finish i b))) ≡ heartbeat)
unfolding end_signal
full_reader_waits i number k items b h full all =
    let suppressed : channels_of i (finish i b) ≡ record { number = number; items = items } ∷ [] =
      ground (arith, finish-channel i b (record { number = number; items = items }) h, full) in
    (
      rw (receive_all-channel k i number items (finish i b) suppressed) (no_end k items all),
      rw
          (
            receive_all-channel (500 + k) i number items (finish i b) suppressed,
            drop_all (500 + k) items (omega (arith, full)),
          )
          refl,
    )
