-- ===== src/Lifecycle/Kept/Growing.antt =====
-- The steps that make a row or make one active: a start and a skip (app/jobs/planner.py,
-- app/jobs/scheduler.py), and a worker that takes a run.
use hivesync.Prelude.{
  ℕ, suc, ◌≡◌, refl, ◌<◌, inl, inr, true, false, Bool-cases, ◌&&◌, some, Option-cases, List, [],
  ◌∷◌, ◌++◌, ◌==◌, ==_iff, arith, sym, ap, Text,
}
use hivesync.Models.{JobRun, is_active, RunTrigger, schedule, RunMode, live, skipped, queued}
use hivesync.Planner.{Db, update_run, create_run, insert_run, record_skip, new_run, has_active}
use hivesync.Lifecycle.{System, find_run, blocked, as_started, start_run, take_next}
use hivesync.Lifecycle.Rows.{
  InTable, find_run-none, is_blocked, update_run-InTable, find_run-InTable, not_blocked,
  has_active-InTable,
}
use hivesync.Lifecycle.Kept.{is_among}
use hivesync.Lifecycle.Kept.Sound.{Sound, numbered-update_run, numbered-fresh, same_row}
use hivesync.Lifecycle.Kept.Losing.{is_among-left, is_among-right, is_among-append}

new-single :
    (run : JobRun) {s : System}
    → Sound s
    → (is_active run.status && has_active run.job_id s.db.runs) ≡ false
    → (a : JobRun) → InTable a s.db.runs
    → is_active run.status ≡ true
    → is_active a.status ≡ true
    → run.job_id ≡ a.job_id
    → ⊥
new-single run {s} sound free a here on on' job =
    let off : has_active run.job_id s.db.runs ≡ false = rw on at free in
    ground (arith, has_active-InTable run.job_id a s.db.runs off here, on', job)

-- A row with the next number, whose job has no active run if it is active, and which then waits.
pub insert-Sound :
    (run : JobRun) (queue : List ℕ) {s : System}
    → Sound s
    → run.id ≡ s.db.next_id
    → (is_active run.status && has_active run.job_id s.db.runs) ≡ false
    → ((n : ℕ) → is_among n (s.queue ++ s.working) ≡ true → is_among n (queue ++ s.working) ≡ true)
    → (is_active run.status ≡ true → is_among run.id (queue ++ s.working) ≡ true)
    → Sound (record {
      db = record { runs = run ∷ s.db.runs; next_id = suc s.db.next_id };
      queue = queue;
      working = s.working;
    })
insert-Sound run queue {s} sound key free moved waits = record {
  fresh = below;
  distinct = λ id.
      ground (arith, key, sound.distinct id, numbered-fresh s.db.next_id s.db.runs sound.fresh);
  single = one;
  watched = seen;
}
  where
    below : (a : JobRun) → InTable a (run ∷ s.db.runs) → a.id < suc s.db.next_id
    below a (inl same) = rw same (omega (arith, key))
    below a (inr there) = omega (arith, sound.fresh a there)

    one :
        (a b : JobRun)
        → InTable a (run ∷ s.db.runs)
        → InTable b (run ∷ s.db.runs)
        → is_active a.status ≡ true
        → is_active b.status ≡ true
        → a.job_id ≡ b.job_id
        → a.id ≡ b.id
    one a b (inl first) (inl second) on on' job = rw (first, second) refl
    one a b (inl first) (inr there) on on' job =
        absurd (new-single run sound free b there (rw first at on) on' (rw first at job))
    one a b (inr there) (inl second) on on' job =
        absurd (new-single run sound free a there (rw second at on') on (rw second at (sym job)))
    one a b (inr there) (inr too) on on' job = sound.single a b there too on on' job

    seen :
        (a : JobRun)
        → InTable a (run ∷ s.db.runs)
        → is_active a.status ≡ true
        → is_among a.id (queue ++ s.working) ≡ true
    seen a (inl same) on = rw same (waits (rw same at on))
    seen a (inr there) on = moved a.id (sound.watched a there on)

-- The pool without its first id.
pub popped :
    (id n : ℕ) (queue working taken : List ℕ)
    → (n == id) ≡ false
    → taken ≡ id ∷ queue
    → is_among n (taken ++ working) ≡ true
    → is_among n (queue ++ working) ≡ true
popped id n queue working taken other next there =
    let there' : is_among n (id ∷ (queue ++ working)) ≡ true = rw next at there in
    ground (arith, other, there')

module _ (now id : ℕ) (queue : List ℕ) {s : System} (sound : Sound s)
    (next : s.queue ≡ id ∷ queue) where
  -- An id whose row, if there is one, is over can leave the pool.
  skip-Sound :
      ((a : JobRun) → InTable a s.db.runs → is_active a.status ≡ true → (a.id == id) ≡ false)
      → Sound (record s { queue = queue })
  skip-Sound over = record {
    fresh = sound.fresh;
    distinct = sound.distinct;
    single = sound.single;
    watched = λ a there on.
        popped id a.id queue s.working s.queue (over a there on) next (sound.watched a there on);
  }

  blocked_over :
      (run : JobRun)
      → find_run id s.db.runs ≡ some run
      → blocked id run.job_id s.db.runs ≡ true
      → (a : JobRun) → InTable a s.db.runs
      → is_active a.status ≡ true
      → (a.id == id) ≡ false
  blocked_over run found refused a there on = elim (Bool-cases (a.id == id)) [
    | inr other ↦ other
    | inl this ↦
        let (here, key) = find_run-InTable id run s.db.runs found in
        let same : a ≡ run =
          same_row id a run s.db.runs (sound.distinct id) there here ((==_iff a.id id).0 this)
            key in
        let (b, too, on', apart) = is_blocked id run.job_id s.db.runs refused in
        let on_run : is_active run.status ≡ true = rw same at on in
        let one : b.id ≡ run.id =
          sound.single b run too here (ground (arith, on')) on_run (ground (arith, on')) in
        absurd (ground (arith, apart, one, key))
  ]

  module _ (run : JobRun) (found : find_run id s.db.runs ≡ some run)
      (free : blocked id run.job_id s.db.runs ≡ false) where
    -- Two rows after the write, of which the first is the row that is written.
    taken_alone :
        (b c : JobRun)
        → InTable b s.db.runs
        → (b.id == id) ≡ true
        → InTable c s.db.runs
        → is_active c.status ≡ true
        → b.job_id ≡ c.job_id
        → b.id ≡ c.id
    taken_alone b c here this too on job =
        let (there, key) = find_run-InTable id run s.db.runs found in
        let same : b ≡ run =
          same_row id b run s.db.runs (sound.distinct id) here there ((==_iff b.id id).0 this)
            key in
        let job' : run.job_id ≡ c.job_id = rw same at job in
        let named : (c.id == id) ≡ true =
          not_blocked id run.job_id c s.db.runs free too (ground (arith, job', on)) in
        omega (arith, (==_iff b.id id).0 this, (==_iff c.id id).0 named)

    start_single :
        (a b : JobRun)
        → InTable a (update_run (as_started now) id s.db.runs)
        → InTable b (update_run (as_started now) id s.db.runs)
        → is_active a.status ≡ true
        → is_active b.status ≡ true
        → a.job_id ≡ b.job_id
        → a.id ≡ b.id
    start_single a b there too on on' job =
        let (c, here, how) = update_run-InTable (as_started now) id a s.db.runs there in
        let (d, here', how') = update_run-InTable (as_started now) id b s.db.runs too in
        elim how [
          | inl (this, same) ↦ elim how' [
            | inl (this', same') ↦ ground (arith, same, same', this, this')
            | inr (other', same') ↦
                let alike : c.id ≡ d.id =
                  taken_alone c d here this here' (rw same' at on')
                    (ground (arith, same, same', job)) in
                ground (arith, same, same', alike)
          ]
          | inr (other, same) ↦ elim how' [
            | inl (this', same') ↦
                let alike : d.id ≡ c.id =
                  taken_alone d c here' this' here (rw same at on)
                    (ground (arith, same, same', job)) in
                ground (arith, same, same', alike)
            | inr (other', same') ↦
                let alike : c.id ≡ d.id =
                  sound.single c d here here' (rw same at on) (rw same' at on')
                    (ground (arith, same, same', job)) in
                ground (arith, same, same', alike)
          ]
        ]

    start_watched :
        (a : JobRun)
        → InTable a (update_run (as_started now) id s.db.runs)
        → is_active a.status ≡ true
        → is_among a.id (queue ++ id ∷ s.working) ≡ true
    start_watched a there on =
        let (c, here, how) = update_run-InTable (as_started now) id a s.db.runs there in
        elim how [
          | inl (this, same) ↦
              is_among-right a.id queue (id ∷ s.working) (ground (arith, same, this))
          | inr (other, same) ↦
              let still : is_among c.id (queue ++ s.working) ≡ true =
                popped id c.id queue s.working s.queue other next
                  (sound.watched c here (rw same at on)) in
              elim (is_among-append c.id queue s.working still) [
                | inl waits ↦ rw same (is_among-left c.id queue (id ∷ s.working) waits)
                | inr works ↦
                    rw same (is_among-right c.id queue (id ∷ s.working) (ground (arith, works)))
              ]
        ]

    start_fresh :
        (a : JobRun) → InTable a (update_run (as_started now) id s.db.runs) → a.id < s.db.next_id
    start_fresh a there =
        let (c, here, how) = update_run-InTable (as_started now) id a s.db.runs there in
        elim how [
          | inl (this, same) ↦ rw same (sound.fresh c here)
          | inr (other, same) ↦ rw same (sound.fresh c here)
        ]

    start-Sound : Sound (record {
      db = record s.db { runs = update_run (as_started now) id s.db.runs };
      queue = queue;
      working = id ∷ s.working;
    })
    start-Sound = record {
      fresh = start_fresh;
      distinct = λ i. omega (
        arith,
        numbered-update_run (as_started now) id i s.db.runs (λ r. (refl, refl)),
        sound.distinct i,
      );
      single = start_single;
      watched = start_watched;
    }

  pub take-Sound : Sound (take_next now id queue s)
  unfolding take_next
  take-Sound = elim (Option-cases (find_run id s.db.runs)) [
    | inl absent ↦
        rw (absent, take_next)
          (skip-Sound (λ a there on. find_run-none id a s.db.runs absent there))
    | inr (run, found) ↦
        rw (found, take_next)
          (elim (Bool-cases (blocked id run.job_id s.db.runs)) [
            | inl refused ↦ rw refused (skip-Sound (blocked_over run found refused))
            | inr free ↦ rw free (start-Sound run found free)
          ])
  ]

-- What the handlers write on a new row.
abbrev pub IsEdit : (JobRun → JobRun) → Type 0
IsEdit f = (r : JobRun) → ((f r).id ≡ r.id) × ((f r).job_id ≡ r.job_id) × ((f r).status ≡ r.status)

update_run_absent :
    (f : JobRun → JobRun) (id : ℕ) (runs : List JobRun)
    → ((a : JobRun) → InTable a runs → a.id < id)
    → update_run f id runs ≡ runs
unfolding update_run
update_run_absent f id [] below = refl
update_run_absent f id (r ∷ rs) below =
    let other : (r.id == id) ≡ false = ground (arith, below r (inl refl)) in
    rw other (ap (λ rest. r ∷ rest) (update_run_absent f id rs (λ a there. below a (inr there))))

-- What a start leaves.
begun : JobRun → System → System
begun run s = record s {
  db = record { runs = run ∷ s.db.runs; next_id = suc s.db.next_id };
  queue = s.queue ++ s.db.next_id ∷ [];
}

start_run-begun :
    (job_id : ℕ) (trigger : RunTrigger) (mode : RunMode) (edit : JobRun → JobRun) {s t : System}
    → Sound s
    → start_run job_id trigger mode edit s ≡ some t
    → (has_active job_id s.db.runs ≡ false)
      × (begun (edit (new_run s.db.next_id job_id trigger mode queued)) s ≡ t)
unfolding start_run begun create_run insert_run update_run
start_run-begun job_id trigger mode edit {s} {t} sound done =
    elim (Bool-cases (has_active job_id s.db.runs)) [
      | inl refused ↦ absurd (ground (arith, refused, done))
      | inr free ↦ (
        free,
        ground (arith, free, done, update_run_absent edit s.db.next_id s.db.runs sound.fresh),
      )
    ]

pub start_run-Sound :
    (job_id : ℕ) (trigger : RunTrigger) (mode : RunMode) (edit : JobRun → JobRun) {s t : System}
    → IsEdit edit
    → Sound s
    → start_run job_id trigger mode edit s ≡ some t
    → Sound t
unfolding begun
start_run-Sound job_id trigger mode edit {s} plain sound done =
    let run = new_run s.db.next_id job_id trigger mode queued in
    let (free, same) = start_run-begun job_id trigger mode edit sound done in
    let queue = s.queue ++ s.db.next_id ∷ [] in
    let made = edit run in
    rw (← same) (
      insert-Sound made queue sound (plain run).0 (ground (arith, plain run, free))
        (λ n there. elim (is_among-append n s.queue s.working there) [
          | inl waits ↦
              is_among-left n queue s.working (is_among-left n s.queue (s.db.next_id ∷ []) waits)
          | inr works ↦ is_among-right n queue s.working works
        ])
        (λ on.
          is_among-left made.id queue s.working
            (is_among-right made.id s.queue (s.db.next_id ∷ []) (ground (arith, plain run)))))

pub record_skip-Sound :
    (now job_id : ℕ) (reason : Text) {s : System} {db : Db}
    → Sound s
    → record_skip now job_id reason s.db ≡ some db
    → Sound (record s { db = db })
unfolding record_skip insert_run
record_skip-Sound now job_id reason {s} {db} sound done =
    let run = record (new_run s.db.next_id job_id schedule live skipped) {
      started_at = some now;
      finished_at = some now;
      skip_reason = some reason;
    } in
    let same : record { runs = run ∷ s.db.runs; next_id = suc s.db.next_id } ≡ db =
      ground (arith, done) in
    rw (← same)
      (insert-Sound run s.queue sound refl refl (λ n h. h) (λ on. absurd (ground (arith, on))))
