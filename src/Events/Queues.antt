-- ===== src/Events/Queues.antt =====
-- The sizes of the queues of `RunBroker` in app/jobs/events.py.
use hivesync.Prelude.{
  ℕ, ◌-◌, ◌≤◌, Bool-cases, none, some, List, [], ◌∷◌, ◌++◌, map, ◌==◌, if◌then◌else◌, length, drop,
  length-append, length-drop, arith, Option-cases, inl, inr,
}
use hivesync.Prelude.Dict.{Dict, get, put, pop, get-put, get-pop}
use hivesync.Events.{
  RunEvent, Channel, Broker, or_empty, trimmed, deliver, end_signal, has, remember, taken, without,
  store_channels, unsubscribe, update_channels,
}

-- Each queue is within its size.
abbrev pub Fits : List Channel → Type 0
Fits [] = Unit
Fits (c ∷ cs) = (length c.items ≤ 500) × Fits cs

pub Fits-map :
    (f : Channel → Channel) (cs : List Channel)
    → ((c : Channel) → length c.items ≤ 500 → length (f c).items ≤ 500)
    → Fits cs
    → Fits (map f cs)
Fits-map f [] h fits = tt
Fits-map f (c ∷ cs) h fits = (h c fits.0, Fits-map f cs h fits.1)

pub Fits-append :
    (cs : List Channel) (c : Channel) → length c.items ≤ 500 → Fits cs → Fits (cs ++ c ∷ [])
Fits-append [] c h fits = (h, tt)
Fits-append (d ∷ cs) c h fits = (fits.0, Fits-append cs c h fits.1)

pub Fits-without : (number : ℕ) (cs : List Channel) → Fits cs → Fits (without number cs)
Fits-without number [] fits = tt
Fits-without number (c ∷ cs) fits = elim (Bool-cases (c.number == number)) [
  | inl same ↦ rw same (Fits-without number cs fits.1)
  | inr other ↦ rw other (fits.0, Fits-without number cs fits.1)
]

pub deliver-bound :
    (e : RunEvent) (c : Channel) → length c.items ≤ 500 → length (deliver e c).items ≤ 500
unfolding deliver
deliver-bound e c h = ground (
  arith,
  length-append c.items (some e ∷ []),
  length-append (drop 1 c.items) (some e ∷ []),
  length-drop 1 c.items,
)

pub end_signal-bound : (c : Channel) → length c.items ≤ 500 → length (end_signal c).items ≤ 500
unfolding end_signal
end_signal-bound c h = ground (arith, length-append c.items (none ∷ []))

pub taken-bound :
    (number : ℕ) (c : Channel) → length c.items ≤ 500 → length (taken number c).items ≤ 500
unfolding taken
taken-bound number c h = ground (arith, length-drop 1 c.items)

pub remember-bound : (run_id : ℕ) (ids : List ℕ) → length (remember run_id ids) ≤ 500
unfolding remember
remember-bound run_id ids =
    let grown = if has run_id ids then ids else ids ++ run_id ∷ [] in
    ground (arith, length-drop (length grown - 500) grown)

pub trimmed-bound : (events : List RunEvent) → length (trimmed events) ≤ 200
unfolding trimmed
trimmed-bound events = ground (arith, length-drop (length events - 200) events)

abbrev pub FitsAt : ℕ → Dict (List Channel) → Type 0
FitsAt run_id d = Fits (or_empty (get run_id d))

pub put-Fits :
    (i j : ℕ) (cs : List Channel) (d : Dict (List Channel))
    → Fits cs
    → FitsAt j d
    → FitsAt j (put i cs d)
put-Fits i j cs d new old = elim (Bool-cases (i == j)) [
  | inl same ↦ rw (get-put i j cs d, same) new
  | inr other ↦ rw (get-put i j cs d, other) old
]

pop-Fits : (i j : ℕ) (d : Dict (List Channel)) → FitsAt j d → FitsAt j (pop i d)
pop-Fits i j d old = elim (Bool-cases (i == j)) [
  | inl same ↦ rw (get-pop i j d, same) tt
  | inr other ↦ rw (get-pop i j d, other) old
]

-- A change that keeps each queue within its size keeps all of them so.
pub update-Fits :
    (f : Channel → Channel) (i : ℕ) (b : Broker)
    → ((c : Channel) → length c.items ≤ 500 → length (f c).items ≤ 500)
    → ((j : ℕ) → FitsAt j b.subscribers)
    → (j : ℕ) → FitsAt j (update_channels (map f) i b).subscribers
unfolding update_channels
update-Fits f i b h fits j = elim (Option-cases (get i b.subscribers)) [
  | inl missing ↦ rw (update_channels, missing) (fits j)
  | inr (cs, there) ↦
      rw (update_channels, there)
        (put-Fits i j (map f cs) b.subscribers (Fits-map f cs h (rw there at (fits i))) (fits j))
]

store-Fits :
    (i j : ℕ) (b : Broker) (cs : List Channel)
    → Fits cs
    → FitsAt j b.subscribers
    → FitsAt j (store_channels i b cs).subscribers
store-Fits i j b [] new old = pop-Fits i j b.subscribers old
store-Fits i j b (c ∷ cs) new old = put-Fits i j (c ∷ cs) b.subscribers new old

pub unsubscribe-Fits :
    (number i : ℕ) (b : Broker)
    → ((j : ℕ) → FitsAt j b.subscribers)
    → (j : ℕ) → FitsAt j (unsubscribe number i b).subscribers
unfolding unsubscribe
unsubscribe-Fits number i b fits j = elim (Option-cases (get i b.subscribers)) [
  | inl missing ↦ rw (unsubscribe, missing) (fits j)
  | inr (cs, there) ↦
      rw (unsubscribe, there)
        (store-Fits i j b (without number cs) (Fits-without number cs (rw there at (fits i)))
          (fits j))
]
