-- ===== src/Retention/Pruned.antt =====
-- What the pruning of app/jobs/retention.py leaves and reports.
use hivesync.Prelude.{
  ℕ, suc, ◌+◌, ◌-◌, ◌*◌, ◌≤◌, ◌≡◌, refl, ◌⊎◌, inl, inr, Bool, false, Bool-cases, List, [], ◌∷◌,
  Text, leb, total, length, length-append, arith, leb→le,
}
use hivesync.Retention.{
  Report, could_not_remove, ArchivePruning, LogFile, with_error, insert_file, oldest_first,
  remove_directories, prune_archive, prune_aged, shrink, prune_logs,
}

abbrev pub bytes_in : List LogFile → ℕ
bytes_in files = total (λ f. f.size) files

bytes-insert_file :
    (f : LogFile) (fs : List LogFile) → bytes_in (insert_file f fs) ≡ f.size + bytes_in fs
bytes-insert_file f [] = refl
bytes-insert_file f (g ∷ gs) = ground (arith, bytes-insert_file f gs)

bytes-oldest_first : (fs : List LogFile) → bytes_in (oldest_first fs) ≡ bytes_in fs
bytes-oldest_first [] = refl
bytes-oldest_first (f ∷ fs) =
    omega (arith, bytes-insert_file f (oldest_first fs), bytes-oldest_first fs)

module _ (removable : Text → Bool) where
  -- No file of the list could be removed.
  abbrev pub AllRefused : List LogFile → Type 0
  AllRefused [] = Unit
  AllRefused (f ∷ fs) = (removable f.path ≡ false) × AllRefused fs

  shrink-within :
      (budget bytes refused : ℕ) (fs : List LogFile) (r : Report)
      → bytes ≡ refused + bytes_in fs
      → (refused + bytes_in (shrink removable budget bytes fs r).0 ≤ budget)
        ⊎ AllRefused (shrink removable budget bytes fs r).0
  unfolding shrink
  shrink-within budget bytes refused [] r h = inr tt
  shrink-within budget bytes refused (f ∷ fs) r h = elim (Bool-cases (leb bytes budget)) [
    | inl fits ↦ inl (rw fits (omega (arith, h, leb→le bytes budget fits)))
    | inr over ↦ elim (Bool-cases (removable f.path)) [
      | inl gone ↦
          rw (over, gone)
            (shrink-within budget (bytes - f.size) refused fs
              (record r { logs_removed = suc r.logs_removed }) (omega (arith, h)))
      | inr left ↦
          elim (shrink-within budget bytes (refused + f.size) fs (with_error f.path r)
            (omega (arith, h))) [
              | inl within ↦ inl (rw (over, left) (omega (arith, within)))
              | inr all ↦ inr (rw (over, left) (left, all))
            ]
    ]
  ]

  -- Of the logs that are young enough, what is left is within the size cap, or is made of files
  -- only that could not be removed.
  pub prune_logs_within_cap :
      (cutoff max_total_mb : ℕ) (files : List LogFile) (r : Report)
      → (bytes_in (prune_logs removable cutoff max_total_mb files r).0 ≤ max_total_mb * 1024 * 1024)
        ⊎ AllRefused (prune_logs removable cutoff max_total_mb files r).0
  unfolding prune_logs
  prune_logs_within_cap cutoff max_total_mb files r =
      let (young, aged) = prune_aged removable cutoff files r in
      elim (shrink-within (max_total_mb * 1024 * 1024) (bytes_in young) 0 (oldest_first young) aged
        (omega (arith, bytes-oldest_first young))) [
          | inl within ↦ inl (omega (arith, within))
          | inr all ↦ inr all
        ]

  remove-totals :
      (ds : List Text) (r : Report)
      → let after = remove_directories removable ds r in
        (after.directories_removed + length after.errors
          ≡ r.directories_removed + length r.errors + length ds)
        × (after.bytes_freed ≡ r.bytes_freed)
  remove-totals [] r = (omega arith, refl)
  remove-totals (d ∷ ds) r = ground (
    arith,
    remove-totals ds (record r { directories_removed = suc r.directories_removed }),
    remove-totals ds (with_error d r),
    length-append r.errors (could_not_remove d ∷ []),
  )

  -- Each directory of a plan is either counted as removed or named among the errors, while the
  -- bytes of the whole plan are counted as freed whichever it was.
  pub prune_archive_totals :
      (plan : ArchivePruning) (r : Report)
      → let after = prune_archive removable plan r in
        (after.directories_removed + length after.errors
          ≡ r.directories_removed + length r.errors + length plan.directories)
        × (after.bytes_freed ≡ r.bytes_freed + plan.bytes_freed)
  unfolding prune_archive
  prune_archive_totals plan r = ground (arith, remove-totals plan.directories r)
