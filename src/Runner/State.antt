-- ===== src/Runner/State.antt =====
-- What app/jobs/runner.py works on: the run's rows, the effects in their order, the exceptions
-- that end a run, and what the world answers.
use hivesync.Prelude.{ℕ, Bool, Option, List, ◌∷◌, Text}
use hivesync.Models.{Job, JobRun, ExitCode, Message, RunStatus}
use hivesync.Parsers.{DryRunLog, PresenceReport, TransferStats}
use hivesync.Engines.Plan.{PlannedChange, Plan}

-- A value of a decoded JSON object, as far as `_absorb` tells its type.
pub data Scalar : Type 0 where
  str : Text → Scalar
  int : ℕ → Scalar
  negative_int : ℕ → Scalar
  other : Scalar

-- The payload of one JSON log line. `stats` is what `parse_stats` reads in its stats object,
-- with the whole non-negative number under the key `bytes` of that object.
pub record LogPayload : Type 0 where
  pub stats : Option (TransferStats × Option ℕ)
  pub object : Scalar
  pub size : Scalar
  pub msg : Text
  pub level : Scalar

-- A line of output: its text, and its payload if it is a JSON object.
pub record LogLine : Type 0 where
  pub text : Text
  pub payload : Option LogPayload

pub data Event : Type 0 where
  planning : Event
  refused : Message → Event
  failed_with : Message → Event
  archiving_to : Text → Event
  syncing : Event
  resyncing : Event
  syncing_both_ways : Event
  needs_sync : Event
  reconciled : RunStatus → ℕ → Event
  line : Text → Event
  stats : TransferStats → Event
  finished : RunStatus → ℕ → ℕ → ℕ → Event

pub data Effect : Type 0 where
  committed : JobRun → Effect
  emitted : Event → Effect
  spawned : List Text → Effect
  notified : RunStatus → Effect
  pruned : Effect
  released : Effect

-- The rows of the run and of its job, and the effects so far, the newest first.
pub record RunSession : Type 0 where
  pub run : JobRun
  pub job : Job
  pub effects : List Effect

-- `BrakeEngaged`, with what it carries, or another exception that `run_now` catches.
pub record Refusal : Type 0 where
  pub message : Message
  pub deletions : Option ℕ
  pub changes : List PlannedChange
  pub plan : Option Plan
  pub threshold : Option ℕ

pub data Stop : Type 0 where
  brake_engaged : Refusal → Stop
  error : Message → Stop

pub data Returned (A : Type 0) : Type 0 where
  returned : A → Returned A
  raised : Stop → Returned A

abbrev pub Exec : Type 0 → Type 0
Exec A = RunSession → Returned A × RunSession

abbrev pub continue : {A B : Type 0} → Returned A → (A → Exec B) → Exec B
continue (returned a) f s = f a s
continue (raised e) f s = (raised e, s)

infixl 5 ◌>>=◌ ◌>>◌
abbrev pub ◌>>=◌ : {A B : Type 0} → Exec A → (A → Exec B) → Exec B
◌>>=◌ m f s = continue (m s).0 f (m s).1

abbrev pub ◌>>◌ : {B : Type 0} → Exec (Unit {0}) → Exec B → Exec B
m >> k = m >>= λ _. k

abbrev pub pure : {A : Type 0} → A → Exec A
pure a s = (returned a, s)

abbrev pub raise : {A : Type 0} → Stop → Exec A
raise e s = (raised e, s)

abbrev pub emit : Event → Exec (Unit {0})
emit e s = (returned tt, record s { effects = emitted e ∷ s.effects })

abbrev pub spawn : List Text → Exec (Unit {0})
spawn argv s = (returned tt, record s { effects = spawned argv ∷ s.effects })

-- `session.commit()` after a change of the run's row.
abbrev pub commit_run : (JobRun → JobRun) → Exec (Unit {0})
commit_run f s =
    (returned tt, record s { run = f s.run; effects = committed (f s.run) ∷ s.effects })

-- What `rcloneconf.prepare` gives: the specs of the two endpoints, or its error.
pub data Prepared : Type 0 where
  specs : Text → Text → Prepared
  not_prepared : Text → Prepared

-- `BisyncDeltas` of app/engines/bisync.py.
pub record BisyncDeltas : Type 0 where
  pub path1_new : ℕ
  pub path1_modified : ℕ
  pub path1_deleted : ℕ
  pub path2_new : ℕ
  pub path2_modified : ℕ
  pub path2_deleted : ℕ
  pub safety_abort : Option Text

-- What is read out of bisync's text: `needs_resync`, `parse_deltas` and `parse_planned_changes`.
pub record BisyncReport : Type 0 where
  pub needs_resync : Bool
  pub deltas : BisyncDeltas
  pub changes : List PlannedChange

-- The world of one run: clocks, files and the three processes of rclone. The session never reads a
-- row again (`expire_on_commit=False`), so what others write to the run meanwhile is not seen.
pub record World : Type 0 where
  pub started_at : ℕ
  pub finished_at : ℕ
  pub checked_at : ℕ
  pub stamp : Text
  pub exists : Text → Text → Bool
  pub prepared : Prepared
  pub argv : List Text → List Text
  pub check_exit : ExitCode
  pub check_failure : Text
  pub presence : PresenceReport
  pub dry_exit : ExitCode
  pub dry_failure : Text
  pub dry_log : DryRunLog
  pub output : List LogLine
  pub exit_code : ExitCode
  pub log_path : Text
  pub command_line : Text
  -- Whether the stored preferences name a notification target.
  pub notify_configured : Bool
  -- What bisync reports, in its dry run and in the run itself.
  pub bisync_dir : Text
  pub bisync_dry : BisyncReport
  pub bisync_run : BisyncReport
  -- Where an exception that `run_now` does not catch ends the run: how many effects it then has.
  pub fault : Option ℕ
