-- ===== src/Events/Replay.antt =====
-- What `subscribe` of app/jobs/events.py replays to a late subscriber.
use hivesync.Prelude.{
  ℕ, zero, suc, ◌+◌, ◌-◌, ◌≤◌, ◌≡◌, refl, Bool, false, Bool-cases, Option, none, some, List, [],
  sym, ◌∙◌, ap, append-nil, append_assoc, ◌∷◌, ◌++◌, map, ltb, if◌then◌else◌, length, drop, keep,
  not, length-append, length-drop, arith, inl, inr,
}
use hivesync.Prelude.Dict.{get, get-put}
use hivesync.Events.{
  RunEvent, Channel, Broker, backlog_for, trimmed, stats_events, deliver, is_stats, stored, publish,
  has, subscribe, update_channels,
}

-- The events of one run, published one after the other.
unfoldable pub publish_all : ℕ → List RunEvent → Broker → Broker
publish_all i [] b = b
publish_all i (e ∷ es) b = publish_all i es (publish i e b)

drop-append :
    {A : Type 0} (n : ℕ) (xs ys : List A) → n ≤ length xs → drop n (xs ++ ys) ≡ drop n xs ++ ys
drop-append zero xs ys h = refl
drop-append (suc n) [] ys h = ground arith
drop-append (suc n) (x ∷ xs) ys h = drop-append n xs ys (omega (arith, h))

drop_nil : {A : Type 0} (n : ℕ) (xs : List A) → xs ≡ [] → drop n xs ≡ []
drop_nil zero xs h = h
drop_nil (suc n) [] h = refl
drop_nil (suc n) (x ∷ xs) h = ground (arith, h)

drop-drop : {A : Type 0} (n m : ℕ) (xs : List A) → drop n (drop m xs) ≡ drop (m + n) xs
drop-drop n zero xs = ground arith
drop-drop n (suc m) [] = drop_nil n [] refl ∙ sym (drop_nil (suc m + n) [] refl)
drop-drop n (suc m) (x ∷ xs) =
    let same : suc (m + n) ≡ suc m + n = omega arith in
    drop-drop n m xs ∙ ap (λ k. drop k (x ∷ xs)) same

-- Trimming after every line is trimming once at the end.
trimmed-trimmed : (xs ys : List RunEvent) → trimmed (trimmed xs ++ ys) ≡ trimmed (xs ++ ys)
unfolding trimmed
trimmed-trimmed xs ys = elim (Bool-cases (ltb 200 (length xs))) [
  | inr short ↦ rw short refl
  | inl long ↦
      let cut = drop (length xs - 200) xs in
      ground (
        arith,
        long,
        length-append cut ys,
        length-append xs ys,
        length-drop (length xs - 200) xs,
        drop-append (length xs - 200) xs ys,
        drop-drop (length (cut ++ ys) - 200) (length xs - 200) (xs ++ ys),
      )
]

same-update :
    (f : List Channel → List Channel) (i : ℕ) (b : Broker)
    → ((update_channels f i b).backlog ≡ b.backlog)
      × ((update_channels f i b).latest_stats ≡ b.latest_stats)
      × ((update_channels f i b).finished ≡ b.finished)
unfolding update_channels
same-update f i b = ground arith

abbrev pub is_line : RunEvent → Bool
is_line e = not (is_stats e.kind)

-- The newest stats among some events, or the ones before them.
abbrev pub newest_stats : Option RunEvent → List RunEvent → Option RunEvent
newest_stats before [] = before
newest_stats before (e ∷ es) =
    if is_stats e.kind then newest_stats (some e) es else newest_stats before es

publish-keeps :
    (i : ℕ) (e : RunEvent) (b : Broker)
    → (backlog_for i (publish i e b)
        ≡ (if is_stats e.kind then backlog_for i b else trimmed (backlog_for i b ++ e ∷ [])))
      × (get i (publish i e b).latest_stats
          ≡ (if is_stats e.kind then some e else get i b.latest_stats))
      × ((publish i e b).finished ≡ b.finished)
unfolding publish stored backlog_for
publish-keeps i e b =
    let told = same-update (map (deliver e)) i (stored i e b) in
    ground (
      arith,
      told,
      get-put i i e b.latest_stats,
      get-put i i (trimmed (backlog_for i b ++ e ∷ [])) b.backlog,
    )

trimmed_idempotent : (xs : List RunEvent) → trimmed (trimmed xs) ≡ trimmed xs
trimmed_idempotent xs =
    sym (ap trimmed (append-nil (trimmed xs)))
    ∙ (trimmed-trimmed xs [] ∙ ap trimmed (append-nil xs))

-- One event more: the lines kept before it and it, if it is a line.
publish-lines :
    (i : ℕ) (e : RunEvent) (b : Broker) (lines : List RunEvent)
    → trimmed (backlog_for i b) ≡ backlog_for i b
    → (trimmed (backlog_for i (publish i e b)) ≡ backlog_for i (publish i e b))
      × (trimmed (backlog_for i (publish i e b) ++ lines)
          ≡ trimmed (backlog_for i b ++ (if is_line e then e ∷ lines else lines)))
publish-lines i e b lines h =
    let kept = (publish-keeps i e b).0 in
    elim (Bool-cases (is_stats e.kind)) [
      | inl progress ↦ ground (arith, kept, h, progress)
      | inr text ↦ ground (
        arith,
        kept,
        text,
        trimmed_idempotent (backlog_for i b ++ e ∷ []),
        trimmed-trimmed (backlog_for i b ++ e ∷ []) lines,
        append_assoc (backlog_for i b) (e ∷ []) lines,
      )
    ]

publish_all-backlog :
    (i : ℕ) (es : List RunEvent) (b : Broker)
    → trimmed (backlog_for i b) ≡ backlog_for i b
    → backlog_for i (publish_all i es b) ≡ trimmed (backlog_for i b ++ keep is_line es)
unfolding publish_all
publish_all-backlog i [] b h = sym (ap trimmed (append-nil (backlog_for i b)) ∙ h)
publish_all-backlog i (e ∷ es) b h =
    let (same, step) = publish-lines i e b (keep is_line es) h in
    publish_all-backlog i es (publish i e b) same ∙ step

publish_all-rest :
    (i : ℕ) (es : List RunEvent) (b : Broker)
    → (get i (publish_all i es b).latest_stats ≡ newest_stats (get i b.latest_stats) es)
      × ((publish_all i es b).finished ≡ b.finished)
unfolding publish_all
publish_all-rest i [] b = (refl, refl)
publish_all-rest i (e ∷ es) b =
    ground (arith, publish-keeps i e b, publish_all-rest i es (publish i e b))

-- Whoever subscribes to a run after it published any events, on a broker that had kept nothing of
-- it and does not know it as finished, first gets the last 200 of its events that are no stats, in
-- their order, and then the newest stats if there were any: however many stats there were, they
-- push out no line.
pub late_subscriber_replay :
    (i : ℕ) (es : List RunEvent) (b : Broker)
    → get i b.backlog ≡ none
    → get i b.latest_stats ≡ none
    → has i b.finished ≡ false
    → (subscribe i (publish_all i es b)).0.0
      ≡ drop (length (keep is_line es) - 200) (keep is_line es)
        ++ stats_events (newest_stats none es)
unfolding subscribe backlog_for trimmed
late_subscriber_replay i es b no_lines no_stats going =
    let none_kept : backlog_for i b ≡ [] = ground (arith, no_lines) in
    let lines = publish_all-backlog i es b (ground (arith, none_kept)) in
    let (stats, same) = publish_all-rest i es b in
    ground (arith, lines, stats, same, none_kept, no_stats, going)
