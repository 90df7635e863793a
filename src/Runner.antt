-- ===== src/Runner.antt =====
-- app/jobs/runner.py: the life of a live run.
pub mod State
pub mod Absorb
pub mod Record
pub mod Plan
pub mod OneWay
pub mod BisyncRecord
pub mod Bisync
pub mod RunNow
pub mod Effects
pub mod Allowed
pub mod Brake
pub mod Refusal
pub mod Ends
pub mod Rows
pub mod FirstSync
