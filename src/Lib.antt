-- ===== src/Lib.antt =====
-- HiveSync: scheduled and continuous copies between two storage connections, run by rclone.
--
-- A job names two connections, a direction, filters and limits. A run of a job is planned (rclone's
-- `check` and a dry run are reconciled into a plan), checked against the delete brake, executed as
-- one rclone process whose JSON log is folded into totals, and stored as a row with its changes.
--
-- Which file models which part:
--   Models, Models/Enums, Models/Messages: app/models/job.py and app/models/connection.py; each
--     user facing message is a constructor with the values that the source formats into its text.
--   Parsers: the records of app/engines/parsers.py and their views (`copies`, `removals`,
--     `present_on_dest`, `summarise_errors`, `percentage`).
--   Engines/Plan: app/engines/base.py. Engines/Rclone, Engines/Reconcile: app/engines/rclone.py
--     (the argument lists, `resolve_max_delete`, `_reconcile`). Engines/Bisync: the command of
--     app/engines/bisync.py. Engines/Brake and Engines/Reconcile/Counts hold proofs.
--   Archive and its children: app/jobs/archive.py; Paths and Slug are its two regular expressions
--     as recursions on the text, the other children hold proofs.
--   Runner: app/jobs/runner.py. State has the session (the run's row, the job's row, the effects so
--     far) and the monad of a step that can raise; Absorb is `_consume` and `_absorb`; Record is
--     `_record` and `_fail`; Plan is `RcloneEngine.plan`, `_run_phases` and `_add_warnings`; OneWay
--     is `_preflight` and `_execute_one_way`; Bisync is `_bisync_preflight` and `_execute_bisync`,
--     BisyncRecord is `_record_bisync`; RunNow is `run_now` with `_notify` and
--     `_prune_quiet_cycle`. The other children hold proofs.
--   Planner: app/jobs/planner.py (`create_run`, `_persist_plan`, `_finish_failed`) and
--     `_record_skip` of app/jobs/scheduler.py, over the list of the run rows.
--   Events: `RunBroker` of app/jobs/events.py, each call as one step; Events/Queues, Events/Bounds,
--     Events/Replay and Events/Ending hold proofs.
--   Watcher: app/jobs/watcher.py, the tick and what it calls; Watcher/Interval and Watcher/Ticks
--     hold proofs. An interval there is a float in the source and a natural number here.
--   Activity: `ActivityRecorder` of app/jobs/events.py. Retention: the removals of
--     app/jobs/retention.py; whether the file system removes a path is a parameter. Retention/Plan
--     is `plan_archive`, Retention/History `prune_runs`.
--   Security/Setup: `create_first_admin` of app/security.py, its database statements as the steps of
--     submissions that run side by side. Csrf: the middleware of app/csrf.py.
--   RateLimit: app/ratelimit.py over the list of the failed attempts.
--   Remotes, Remotes/Env: app/engines/rcloneconf.py, paths and then environment and arguments; what
--     a credential decrypts to is a parameter.
--   Restore: app/jobs/restore.py; the answer of rclone to a command is a parameter.
--   Portable, Portable/Import: app/portable.py, documents as records and the tables as lists of
--     rows; its other children hold proofs.
--   Parsers/DryRun: `parse_dry_run` and `parse_presence` of app/engines/parsers.py, over decoded
--     JSON values; Parsers/DryRun/Stream holds proofs.
--   Scheduler: app/jobs/scheduler.py and `build_trigger` of app/jobs/cron.py. Api: the handlers of
--     app/api/jobs.py that write the job table. Scheduler/Reload, Scheduler/Fires and
--     Api/Stale hold proofs.
--   Lifecycle: the pools of app/jobs/runner.py and app/jobs/planner.py, `run_job`, `resync_job` and
--     `cancel_run` of app/api/jobs.py, `force_run_form` of app/web/__init__.py and
--     `_release_interrupted_runs` of app/main.py; Lifecycle/Forms: the forms of app/web/__init__.py
--     that start and cancel a run. Lifecycle/Kept has their steps in any order, and
--     its children, Rows, Approved and Crashed hold proofs.
--   Redaction: `Redactor` of app/crypto.py; Redaction/Hidden holds proofs.
--   Preferences: `load` and `save` of app/preferences.py over the rows of app/models/setting.py;
--     Preferences/Kept and Preferences/Reset hold proofs.
--   Capabilities: `intersect` of app/capabilities.py; Capabilities/Agreed and Capabilities/Unknown
--     hold proofs.
--   Examples: rows and answers of rclone, and each theorem at work on them.
--
-- What is outside is a parameter. `World` (Runner/State) holds what one run reads: the clocks, the
-- sentinel test on the file system, what `rcloneconf.prepare` gives, the exit codes and the parsed
-- output of the processes, what is read out of bisync's text, and where an exception that `run_now`
-- does not catch ends the run, if one does (`fault`). The theorems on runs take any such world, so
-- any answer of rclone, failures included; those that need it ask for no such exception.
--
-- Numbers are natural numbers without a bound, as Python's are; a speed and an interval, floats
-- in the source, are whole numbers of their unit. Text is the list of its code points. No loop
-- of the program takes fuel: each recursion is on a list or a text, so each run comes to a result.
-- The decimal text of a number counts its rounds, as many as the number, which is enough.
--
-- Not modelled: how many workers a pool has, the rendering of pages and the other HTTP handlers,
-- password hashes, sessions, encryption, subprocesses, the decoding of JSON and the parsing of
-- bisync's text.
pub mod Prelude
pub mod Models
pub mod Parsers
pub mod Engines
pub mod Archive
pub mod Runner
pub mod Planner
pub mod Redaction
pub mod Preferences
pub mod Capabilities
pub mod Lifecycle
pub mod Scheduler
pub mod Api
pub mod Security
pub mod Csrf
pub mod RateLimit
pub mod Remotes
pub mod Portable
pub mod Restore
pub mod Events
pub mod Watcher
pub mod Activity
pub mod Retention
pub mod Examples
