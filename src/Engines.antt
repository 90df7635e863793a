-- ===== src/Engines.antt =====
-- app/engines: the plan of a run and the commands that are built for rclone.
pub mod Plan
pub mod Rclone
pub mod Bisync
pub mod Brake
pub mod Reconcile
