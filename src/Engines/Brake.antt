-- ===== src/Engines/Brake.antt =====
-- `resolve_max_delete` of app/engines/rclone.py, the threshold of the delete brake.
use hivesync.Prelude.{ℕ, ◌+◌, ◌*◌, ◌≤◌, ◌<◌, ◌≡◌, ◌↔◌, arith}
use hivesync.Engines.Rclone.{resolve_max_delete}

-- On a destination that holds files, the threshold is the percentage of its file count rounded up,
-- but at least 1: it is never less than the percentage, less than one file above it where it is
-- more than 1, and 1 on an empty destination.
pub resolve_max_delete_bounds :
    (pct n : ℕ)
    → (1 ≤ resolve_max_delete pct n)
      × (n * pct ≤ 100 * resolve_max_delete pct n)
      × (1 < resolve_max_delete pct n → 100 * resolve_max_delete pct n < n * pct + 100)
      × (resolve_max_delete pct 0 ≡ 1)
unfolding resolve_max_delete
resolve_max_delete_bounds pct n = grind arith

-- Deleting every file of a destination that holds at least two is over the threshold exactly when
-- the files that the percentage leaves over come to one whole file.
pub wipe_over_threshold :
    (pct n : ℕ) → 2 ≤ n → (resolve_max_delete pct n < n) ↔ (n * pct + 100 ≤ n * 100)
unfolding resolve_max_delete
wipe_over_threshold pct n h = (λ k. ground arith, λ k. ground arith)
