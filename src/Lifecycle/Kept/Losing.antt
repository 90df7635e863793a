-- ===== src/Lifecycle/Kept/Losing.antt =====
-- The steps after which no more runs are active: a cancellation (app/api/jobs.py), the end of a run
-- (app/jobs/runner.py, app/jobs/planner.py), retention (app/jobs/retention.py) and a restart
-- (app/main.py).
use hivesync.Prelude.{
  ℕ, ◌≡◌, refl, ◌≤◌, ◌⊎◌, inl, inr, Bool, true, false, Bool-cases, not, List, [], ◌∷◌, ◌++◌, ◌==◌,
  keep, arith,
}
use hivesync.Models.{JobRun, is_active}
use hivesync.Planner.{update_run}
use hivesync.Lifecycle.{System, with_runs, dropped, settled, release_interrupted, restart}
use hivesync.Lifecycle.Rows.{InTable, update_run-InTable, keep-InTable, kept_by, map-InTable}
use hivesync.Lifecycle.Kept.{is_among}
use hivesync.Lifecycle.Kept.Sound.{
  Sound, KeepsKey, numbered, numbered-update_run, numbered-keep, numbered-map,
}

pub is_among-left : (n : ℕ) (xs ys : List ℕ) → is_among n xs ≡ true → is_among n (xs ++ ys) ≡ true
is_among-left n [] ys h = ground (arith, h)
is_among-left n (x ∷ xs) ys h = ground (arith, is_among-left n xs ys)

pub is_among-right : (n : ℕ) (xs ys : List ℕ) → is_among n ys ≡ true → is_among n (xs ++ ys) ≡ true
is_among-right n [] ys h = h
is_among-right n (x ∷ xs) ys h = ground (arith, is_among-right n xs ys h)

pub is_among-append :
    (n : ℕ) (xs ys : List ℕ)
    → is_among n (xs ++ ys) ≡ true
    → (is_among n xs ≡ true) ⊎ (is_among n ys ≡ true)
is_among-append n [] ys h = inr h
is_among-append n (x ∷ xs) ys h = elim (Bool-cases (x == n)) [
  | inl this ↦ inl (rw this refl)
  | inr other ↦
      let rest : (is_among n xs ≡ true) ⊎ (is_among n ys ≡ true) =
        is_among-append n xs ys (ground (arith, other, h)) in
      elim rest [ inl a ↦ inl (rw other a) | inr b ↦ inr b ]
]

pub is_among-dropped :
    (n id : ℕ) (ids : List ℕ)
    → (n == id) ≡ false
    → is_among n ids ≡ true
    → is_among n (dropped id ids) ≡ true
is_among-dropped n id [] other h = ground (arith, h)
is_among-dropped n id (x ∷ xs) other h = ground (arith, other, h, is_among-dropped n id xs)

pub left_working :
    (n id : ℕ) (queue working : List ℕ)
    → (n == id) ≡ false
    → is_among n (queue ++ working) ≡ true
    → is_among n (queue ++ dropped id working) ≡ true
left_working n id queue working other there = elim (is_among-append n queue working there) [
  | inl waits ↦ is_among-left n queue (dropped id working) waits
  | inr works ↦
      is_among-right n queue (dropped id working) (is_among-dropped n id working other works)
]

-- A row of the one table is a row of the other, and active there if it is here.
abbrev pub Fewer : List JobRun → List JobRun → Type 0
Fewer after before =
    (a : JobRun)
    → InTable a after
    → (b : JobRun) × InTable b before
      × (a.id ≡ b.id)
      × (a.job_id ≡ b.job_id)
      × (is_active a.status ≡ true → is_active b.status ≡ true)

Fewer-Sound :
    {s t : System}
    → Sound s
    → Fewer t.db.runs s.db.runs
    → s.db.next_id ≡ t.db.next_id
    → ((id : ℕ) → numbered id t.db.runs ≤ numbered id s.db.runs)
    → ((a : JobRun)
        → InTable a t.db.runs
        → is_active a.status ≡ true
        → is_among a.id (t.queue ++ t.working) ≡ true)
    → Sound t
Fewer-Sound {s} {t} sound fewer same less watched = record {
  fresh = λ a there.
      let (b, here, key, job, on) = fewer a there in omega (arith, key, same, sound.fresh b here);
  distinct = λ id. omega (arith, less id, sound.distinct id);
  single = λ a b there too on on' job.
      let (a', here, key, job_a, on_a) = fewer a there in
      let (b', here', key', job_b, on_b) = fewer b too in
      let alike : a'.id ≡ b'.id =
        sound.single a' b' here here' (on_a on) (on_b on') (omega arith) in
      omega arith;
  watched = watched;
}

-- A write after which the row is over.
abbrev pub Ends : (JobRun → JobRun) → Type 0
Ends f = (r : JobRun) → is_active (f r).status ≡ false

ended-Fewer :
    (f : JobRun → JobRun) (id : ℕ) (runs : List JobRun)
    → KeepsKey f
    → Ends f
    → Fewer (update_run f id runs) runs
ended-Fewer f id runs keys ends a there =
    let (b, here, how) = update_run-InTable f id a runs there in
    elim how [
      | inl (this, same) ↦ (
        b,
        here,
        rw same (keys b).0,
        rw same (keys b).1,
        λ on. absurd (ground (arith, same, on, ends b)),
      )
      | inr (other, same) ↦ (b, here, rw same refl, rw same refl, λ on. rw same at on)
    ]

-- Another row than the one that is over is as it was.
pub still_active :
    (f : JobRun → JobRun) (id : ℕ) (a : JobRun) (runs : List JobRun)
    → Ends f
    → InTable a (update_run f id runs)
    → is_active a.status ≡ true
    → (b : JobRun) × InTable b runs × (a ≡ b) × ((b.id == id) ≡ false)
still_active f id a runs ends there on =
    let (b, here, how) = update_run-InTable f id a runs there in
    elim how [
      | inl (this, same) ↦ absurd (ground (arith, same, on, ends b))
      | inr (other, same) ↦ (b, here, same, other)
    ]

pub end-Sound :
    (f : JobRun → JobRun) (id : ℕ) (queue working : List ℕ) {s : System}
    → KeepsKey f
    → Ends f
    → ((n : ℕ)
        → (n == id) ≡ false
        → is_among n (s.queue ++ s.working) ≡ true
        → is_among n (queue ++ working) ≡ true)
    → Sound s
    → Sound (record {
      db = record s.db { runs = update_run f id s.db.runs };
      queue = queue;
      working = working;
    })
end-Sound f id queue working {s} keys ends moved sound =
    Fewer-Sound sound (ended-Fewer f id s.db.runs keys ends) refl
      (λ i. omega (arith, numbered-update_run f id i s.db.runs keys))
      λ a there on.
        let (b, here, same, other) = still_active f id a s.db.runs ends there on in
        let on' : is_active b.status ≡ true = rw same at on in
        rw same (moved b.id other (sound.watched b here on'))

pub keep-Sound : (p : JobRun → Bool) {s : System} → Sound s → Sound (with_runs s (keep p s.db.runs))
keep-Sound p {s} sound =
    Fewer-Sound sound (λ a there. (a, keep-InTable p a s.db.runs there, refl, refl, λ on. on)) refl
      (λ i. numbered-keep p i s.db.runs)
      (λ a there. sound.watched a (keep-InTable p a s.db.runs there))

-- The row of a quiet cycle is deleted.
pub gone-Sound :
    (id : ℕ) {s : System}
    → Sound s
    → Sound (record {
      db = record s.db { runs = keep (λ run. not (run.id == id)) s.db.runs };
      queue = s.queue;
      working = dropped id s.working;
    })
gone-Sound id {s} sound =
    Fewer-Sound sound
      (λ a there.
        (a, keep-InTable (λ run. not (run.id == id)) a s.db.runs there, refl, refl, λ on. on))
      refl (λ i. numbered-keep (λ run. not (run.id == id)) i s.db.runs)
      (λ a there on.
        left_working a.id id s.queue s.working
          (ground (arith, kept_by (λ run. not (run.id == id)) a s.db.runs there))
          (sound.watched a (keep-InTable (λ run. not (run.id == id)) a s.db.runs there) on))

settled-key : (now : ℕ) → KeepsKey (settled now)
settled-key now r = ground arith

settled-not_active : (now : ℕ) (r : JobRun) → is_active (settled now r).status ≡ false
settled-not_active now r = ground arith

-- After a start no run is active.
pub released :
    (now : ℕ) (a : JobRun) (runs : List JobRun)
    → InTable a (release_interrupted now runs)
    → is_active a.status ≡ false
unfolding release_interrupted
released now a runs there =
    let (b, here, same) = map-InTable (settled now) a runs there in
    rw same (settled-not_active now b)

pub restart-Sound : (now : ℕ) {s : System} → Sound s → Sound (restart now s)
unfolding restart release_interrupted
restart-Sound now {s} sound =
    Fewer-Sound sound
      (λ a there.
        let (b, here, same) = map-InTable (settled now) a s.db.runs there in
        (
          b,
          here,
          rw same (settled-key now b).0,
          rw same (settled-key now b).1,
          λ on. absurd (ground (arith, on, released now a s.db.runs there)),
        ))
      refl (λ i. omega (arith, numbered-map (settled now) i s.db.runs (settled-key now)))
      (λ a there on. absurd (ground (arith, on, released now a s.db.runs there)))
