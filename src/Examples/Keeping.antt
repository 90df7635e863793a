-- ===== src/Examples/Keeping.antt =====
-- A session of two reports, and a pruning in which one file cannot be removed.
use hivesync.Prelude.{ℕ, ◌*◌, ◌≤◌, ◌⊎◌, Bool, not, none, List, [], ◌∷◌, Text, codes}
use hivesync.Prelude.{text_eq}
use hivesync.Parsers.{TransferStats}
use hivesync.Retention.{LogFile, ArchivePruning, empty_report, prune_logs}
use hivesync.Retention.Pruned.{AllRefused, bytes_in, prune_logs_within_cap}

abbrev moved : ℕ → TransferStats
moved bytes = record {
  bytes_done = bytes;
  total_bytes = 900;
  speed = 50;
  eta_seconds = none;
  transferring = [];
}

abbrev reports : List (TransferStats × ℕ)
reports = (moved 300, 5) ∷ (moved 700, 10) ∷ []

abbrev log_of : Text → ℕ → LogFile
log_of path mtime = record { mtime = mtime; size = 3000000; path = path }

abbrev removable : Text → Bool
removable path = not (text_eq path (codes "b"))

abbrev logs : List LogFile
logs = log_of (codes "a") 20 ∷ log_of (codes "b") 15 ∷ []

prune_logs_within_cap_example :
    (bytes_in (prune_logs removable 10 5 logs empty_report).0 ≤ 5 * 1024 * 1024)
    ⊎ AllRefused removable (prune_logs removable 10 5 logs empty_report).0
prune_logs_within_cap_example = prune_logs_within_cap removable 10 5 logs empty_report

abbrev old_archive : ArchivePruning
old_archive = record {
  job_id = 7;
  job_name = codes "n";
  retention_days = 30;
  skipped_reason = none;
  directories = codes "x" ∷ [];
  bytes_freed = 4096;
}
