-- ===== src/Lifecycle/Kept/Served.antt =====
-- The workers of app/jobs/runner.py and app/jobs/planner.py on the runs that wait, one after another.
use hivesync.Prelude.{ℕ, ◌≡◌, true, List, ◌∷◌}
use hivesync.Lifecycle.{System, take_next}
use hivesync.Lifecycle.Kept.{is_among, RunEnd, end_run}

-- What workers do: each ends its run the way that `how` says.
pub data Works (how : ℕ → RunEnd) : System → System → Type 0 where
  rest : {s : System} → Works how s s
  take :
      (now id : ℕ) (queue : List ℕ) {s t : System}
      → s.queue ≡ id ∷ queue
      → Works how (take_next now id queue s) t
      → Works how s t
  end_work :
      (id : ℕ) {s t : System}
      → is_among id s.working ≡ true
      → Works how (end_run id (how id) s) t
      → Works how s t
