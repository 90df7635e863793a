-- ===== src/Examples/Life.antt =====
-- A job whose run waits, is taken, is cancelled and is approved.
use hivesync.Prelude.{◌<◌, ℕ, ◌≡◌, refl, true, none, some, [], ◌∷◌}
use hivesync.Models.{JobRun, live, dry_run, schedule, manual, failed, queued, failure, interrupted}
use hivesync.Planner.{new_run}
use hivesync.Planner.OneActive.{OneActive}
use hivesync.Api.{answer}
use hivesync.Lifecycle.{
  System, unexpected, engine_error, plan_now, find_run, start_run, as_is, as_approved, as_started,
  cancel_run, take_next, finish_run, force_run, restart,
}
use hivesync.Lifecycle.Kept.{
  is_among, RunEnd, dry_plan, ReachUncrashed, begin_empty, later, submitted, taken,
}
use hivesync.Lifecycle.Kept.Idle.{CanStart, restart-CanStart}
use hivesync.Lifecycle.Kept.Overlap.{cancelled_overlaps, cancelled_still_runs}
use hivesync.Lifecycle.Approved.{Approval, DeletesAtMost, approved_deletions}
use hivesync.Lifecycle.Crashed.{crashed_blocks}
use hivesync.Examples.{emptied, photos, fresh_run}

abbrev nightly : JobRun
nightly = new_run 1 7 schedule live queued

abbrev waiting : System
waiting = record { db = record { runs = nightly ∷ []; next_id = 2 }; queue = 1 ∷ []; working = [] }

is_waiting : ReachUncrashed waiting
unfolding start_run
is_waiting = later begin_empty (submitted 7 schedule live refl)

abbrev at_work : System
at_work = record {
  db = record { runs = as_started 60 nightly ∷ []; next_id = 2 };
  queue = [];
  working = 1 ∷ [];
}

is_at_work : ReachUncrashed at_work
unfolding take_next
is_at_work = later is_waiting (taken 60 1 [] refl)

abbrev gives_up : ℕ → RunEnd
gives_up id = dry_plan 60 70 photos (engine_error interrupted) fresh_run

restart-CanStart_example : CanStart 7 schedule live (restart 90 at_work)
restart-CanStart_example = restart-CanStart 90 7 schedule live at_work

cancelled_overlaps_example :
    (t : System) × (cancel_run 1 at_work ≡ answer t)
    × (u : System) × (start_run 7 manual live as_is t ≡ some u)
    × (u.queue ≡ 2 ∷ [])
    × (1 < 2)
    × (is_among 1 (take_next 80 2 [] u).working ≡ true)
    × (is_among 2 (take_next 80 2 [] u).working ≡ true)
    × (find_run 2 (take_next 80 2 [] u).db.runs
        ≡ some (as_started 80 (new_run 2 7 manual live queued)))
cancelled_overlaps_example =
    cancelled_overlaps 80 1 (as_started 60 nightly) manual live is_at_work refl refl refl refl

cancelled_still_runs_example :
    (t : System) × (cancel_run 1 waiting ≡ answer t)
    × ((take_next 60 1 [] t).working ≡ 1 ∷ [])
    × (find_run 1 (take_next 60 1 [] t).db.runs ≡ some (as_started 60 nightly))
cancelled_still_runs_example = cancelled_still_runs 60 1 nightly [] is_waiting refl refl refl

crashed_blocks_example :
    start_run 7 schedule dry_run as_is
      (finish_run 1 (plan_now 60 70 photos unexpected) (take_next 60 1 [] waiting))
    ≡ none
crashed_blocks_example =
    crashed_blocks 60 60 70 1 [] photos nightly waiting refl refl schedule dry_run as_is

abbrev refused_row : JobRun
refused_row = record nightly {
  status = failed;
  summary = some (
      failure interrupted (
        some
          (record { new = 0; updated = 0; deleted = 5; refused_deletions = some 5; plan = none })));
}

abbrev was_refused : System
was_refused = record {
  db = record { runs = refused_row ∷ []; next_id = 2 };
  queue = [];
  working = [];
}

abbrev approved_run : System
approved_run = record {
  db = record {
    runs = as_approved 5 (new_run 2 7 manual live queued) ∷ refused_row ∷ [];
    next_id = 3;
  };
  queue = 2 ∷ [];
  working = [];
}

is_approved : force_run (photos ∷ []) 1 was_refused ≡ some approved_run
unfolding force_run
is_approved = refl

approved_deletions_example :
    (approval : Approval 1 was_refused approved_run) × DeletesAtMost approval.number emptied
      approval.row photos
approved_deletions_example = approved_deletions (photos ∷ []) 1 emptied photos is_approved refl
