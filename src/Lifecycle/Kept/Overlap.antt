-- ===== src/Lifecycle/Kept/Overlap.antt =====
-- A cancellation (`cancel_run` of app/api/jobs.py) of a run that a worker is at.
use hivesync.Prelude.{
  suc, ◌<◌, [], ◌++◌, ℕ, ◌≡◌, refl, inl, inr, true, false, Bool-cases, some, List, ◌∷◌, arith,
}
use hivesync.Models.{queued, JobRun, is_active, RunTrigger, RunMode}
use hivesync.Planner.{new_run, has_active, create_run, insert_run, update_run, active_of}
use hivesync.Api.{answer}
use hivesync.Lifecycle.{
  as_is, start_run, System, find_run, as_cancelled, blocked, as_started, with_runs, cancel_run,
  take_next,
}
use hivesync.Lifecycle.Rows.{
  InTable, find_run-InTable, find_run-update_run, is_blocked, none_active,
}
use hivesync.Lifecycle.Kept.{is_among, ReachUncrashed}
use hivesync.Lifecycle.Kept.Sound.{Sound}
use hivesync.Lifecycle.Kept.Losing.{still_active}
use hivesync.Lifecycle.Kept.Reached.{ReachUncrashed-Sound}

module _ (id : ℕ) (run : JobRun) {s : System} (sound : Sound s)
    (found : find_run id s.db.runs ≡ some run) (on : is_active run.status ≡ true) where
  alone :
      (a : JobRun)
      → InTable a (update_run as_cancelled id s.db.runs)
      → active_of run.job_id a ≡ true
      → false ≡ true
  alone a there on_a =
      let (here, key) = find_run-InTable id run s.db.runs found in
      let (b, too, same, other) =
        still_active as_cancelled id a s.db.runs (λ r. refl) there (ground (arith, on_a)) in
      let on_b : active_of run.job_id b ≡ true = rw same at on_a in
      let one : b.id ≡ run.id =
        sound.single b run too here (ground (arith, on_b)) on (ground (arith, on_b)) in
      ground (arith, one, key, other)

  off :
      (a : JobRun)
      → InTable a (update_run as_cancelled id s.db.runs)
      → active_of run.job_id a ≡ false
  off a there = elim (Bool-cases (active_of run.job_id a)) [
    | inr over ↦ over
    | inl on_a ↦ absurd (ground (arith, alone a there on_a))
  ]

  unblocked : blocked id run.job_id (update_run as_cancelled id s.db.runs) ≡ false
  unblocked = elim (Bool-cases (blocked id run.job_id (update_run as_cancelled id s.db.runs))) [
    | inr free ↦ free
    | inl refused ↦
        let (a, there, on_a, apart) =
          is_blocked id run.job_id (update_run as_cancelled id s.db.runs) refused in
        absurd (ground (arith, alone a there on_a))
  ]

same_rows : (id : ℕ) (runs : List JobRun) → update_run as_is id runs ≡ runs
unfolding update_run
same_rows id [] = refl
same_rows id (r ∷ rs) = ground (arith, same_rows id rs)

not_blocked_off :
    (id job_id : ℕ) (runs : List JobRun)
    → has_active job_id runs ≡ false
    → blocked id job_id runs ≡ false
not_blocked_off id job_id [] over = refl
not_blocked_off id job_id (r ∷ rs) over =
    ground (arith, over, not_blocked_off id job_id rs (ground (arith, over)))

-- The state in which a job without an active run was started.
abbrev with_new : ℕ → RunTrigger → RunMode → System → System
with_new job_id trigger mode s = record {
  db = record {
    runs = new_run s.db.next_id job_id trigger mode queued ∷ s.db.runs;
    next_id = suc s.db.next_id;
  };
  queue = s.queue ++ s.db.next_id ∷ [];
  working = s.working;
}

starts :
    (job_id : ℕ) (trigger : RunTrigger) (mode : RunMode) (s : System)
    → has_active job_id s.db.runs ≡ false
    → start_run job_id trigger mode as_is s ≡ some (with_new job_id trigger mode s)
unfolding start_run create_run insert_run
starts job_id trigger mode s free = ground (
  arith,
  free,
  same_rows s.db.next_id (new_run s.db.next_id job_id trigger mode queued ∷ s.db.runs),
)

takes :
    (now job_id : ℕ) (trigger : RunTrigger) (mode : RunMode) (s : System)
    → has_active job_id s.db.runs ≡ false
    → ((take_next now s.db.next_id [] (with_new job_id trigger mode s)).working
        ≡ s.db.next_id ∷ s.working)
      × (find_run s.db.next_id
            (take_next now s.db.next_id [] (with_new job_id trigger mode s)).db.runs
          ≡ some (as_started now (new_run s.db.next_id job_id trigger mode queued)))
unfolding take_next update_run
takes now job_id trigger mode s free =
    let unblocked = not_blocked_off s.db.next_id job_id s.db.runs free in
    (ground (arith, unblocked), ground (arith, unblocked))

-- A run that a worker is at and that is cancelled leaves the worker at it. Where no other run waits,
-- its job can at once be started again, and the new run, which has another number, be taken: two runs
-- of one job are then worked at.
pub cancelled_overlaps :
    (now id : ℕ) (run : JobRun) {s : System} (trigger : RunTrigger) (mode : RunMode)
    → ReachUncrashed s
    → find_run id s.db.runs ≡ some run
    → is_active run.status ≡ true
    → is_among id s.working ≡ true
    → s.queue ≡ []
    → (t : System) × (cancel_run id s ≡ answer t)
      × (u : System) × (start_run run.job_id trigger mode as_is t ≡ some u)
      × (u.queue ≡ s.db.next_id ∷ [])
      × (id < s.db.next_id)
      × (is_among id (take_next now s.db.next_id [] u).working ≡ true)
      × (is_among s.db.next_id (take_next now s.db.next_id [] u).working ≡ true)
      × (find_run s.db.next_id (take_next now s.db.next_id [] u).db.runs
          ≡ some (as_started now (new_run s.db.next_id run.job_id trigger mode queued)))
unfolding cancel_run
cancelled_overlaps now id run {s} trigger mode r found on at_work idle =
    let runs = update_run as_cancelled id s.db.runs in
    let t = with_runs s runs in
    let sound = ReachUncrashed-Sound r in
    let free = none_active run.job_id runs (off id run sound found on) in
    let (here, key) = find_run-InTable id run s.db.runs found in
    let (working, row) = takes now run.job_id trigger mode t free in
    (
      t,
      ground (arith, found, on),
      with_new run.job_id trigger mode t,
      starts run.job_id trigger mode t free,
      rw idle refl,
      omega (arith, sound.fresh run here, key),
      rw working (ground (arith, at_work)),
      rw working (ground arith),
      row,
    )

-- A run that is cancelled while it is the next of the pool is taken all the same: its row is running
-- again, and a worker is at it.
pub cancelled_still_runs :
    (now id : ℕ) (run : JobRun) (queue : List ℕ) {s : System}
    → ReachUncrashed s
    → s.queue ≡ id ∷ queue
    → find_run id s.db.runs ≡ some run
    → is_active run.status ≡ true
    → (t : System) × (cancel_run id s ≡ answer t)
      × ((take_next now id queue t).working ≡ id ∷ s.working)
      × (find_run id (take_next now id queue t).db.runs ≡ some (as_started now run))
unfolding cancel_run take_next
cancelled_still_runs now id run queue {s} r next found on =
    let runs = update_run as_cancelled id s.db.runs in
    let free = unblocked id run (ReachUncrashed-Sound r) found on in
    let there = find_run-update_run as_cancelled id run s.db.runs (λ x. refl) found in
    let then_there =
      find_run-update_run (as_started now) id (as_cancelled run) runs (λ x. refl) there in
    (
      with_runs s runs,
      ground (arith, found, on),
      rw (there, free, take_next) refl,
      rw (there, free, take_next) then_there,
    )
