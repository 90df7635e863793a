-- ===== src/Capabilities/Agreed.antt =====
-- `intersect` of app/capabilities.py and `build_sync_command` of app/engines/rclone.py on jobs that
-- compare by checksum.
use hivesync.Prelude.{
  ℕ, ◌≡◌, refl, Bool, true, false, not, none, some, List, [], ◌∷◌, Text, codes, arith,
  if◌then◌else◌, inl, inr, Option-cases,
}
use hivesync.Models.{Job, Connection, checksum}
use hivesync.Engines.Rclone.{shares, flag_text, comparison_args, build_sync_command}
use hivesync.Capabilities.{Capabilities, was_probed, shared, is_empty, checksum_of, intersect}

shared-shares : (xs ys : List Text) → is_empty (shared xs ys) ≡ not (shares xs ys)
shared-shares [] ys = refl
shared-shares (x ∷ xs) ys = ground (arith, shared-shares xs ys)

-- The command line of the job, whatever the rest of it is.
abbrev pub HasCommand : Job → Bool → Type 0
HasCommand job true =
    (src dst : Text) (n : ℕ) (archive : List Text)
    → (args : List Text) × (build_sync_command job src dst n archive ≡ some args)
HasCommand job false =
    (src dst : Text) (n : ℕ) (archive : List Text) → build_sync_command job src dst n archive ≡ none

compared :
    (job : Job)
    → job.compare_mode ≡ checksum
    → comparison_args job ≡ (
        if shares job.source_connection.hashes job.dest_connection.hashes
        then some
            (codes "--checksum" ∷ flag_text (codes "--modify-window") (some job.modify_window))
        else none)
unfolding comparison_args
compared job mode = ground (arith, mode)

with_shares :
    (job : Job) (b : Bool)
    → job.compare_mode ≡ checksum
    → shares job.source_connection.hashes job.dest_connection.hashes ≡ b
    → HasCommand job b
unfolding build_sync_command
with_shares job true mode same = λ src dst n archive.
    elim (Option-cases (build_sync_command job src dst n archive)) [
      | inl refused ↦ absurd (ground (arith, compared job mode, same, refused))
      | inr found ↦ found
    ]
with_shares job false mode same = λ src dst n archive. ground (arith, compared job mode, same)

offered :
    (now : ℕ) (source dest : Connection) (a b : Capabilities)
    → was_probed a ≡ true
    → was_probed b ≡ true
    → (intersect now source dest a b).checksum.available ≡ shares a.hashes b.hashes
unfolding intersect checksum_of
offered now source dest a b probed probed' =
    ground (arith, probed, probed', shared-shares a.hashes b.hashes)

-- A job that compares by checksum, of two connections that were tested, has a command line where the
-- editor offers the comparison, and has none, whatever the rest of the command is, where it does not.
pub checksum_offered :
    (now : ℕ) (job : Job) (a b : Capabilities)
    → a.hashes ≡ job.source_connection.hashes
    → b.hashes ≡ job.dest_connection.hashes
    → job.compare_mode ≡ checksum
    → was_probed a ≡ true
    → was_probed b ≡ true
    → HasCommand job
        (intersect now job.source_connection job.dest_connection a b).checksum.available
checksum_offered now job a b same same' mode probed probed' =
    rw (offered now job.source_connection job.dest_connection a b probed probed', same, same')
      (with_shares job (shares job.source_connection.hashes job.dest_connection.hashes) mode refl)
