-- ===== src/Archive/ShareRoot.antt =====
-- The default archive of a share root, in app/jobs/archive.py.
use hivesync.Prelude.{
  ℕ, ◌≡◌, refl, ◌∙◌, true, false, none, some, ◌∷◌, ◌++◌, Text, codes, text_eq_refl, arith,
}
use hivesync.Models.{Job}
use hivesync.Archive.Paths.{strip_slashes, has_slash, first_segment}
use hivesync.Archive.Paths.Split.{no_break}
use hivesync.Archive.Paths.Trim.{
  strip-plain, last_plain-append, first_plain-append, first_segment-child, text_eq-append_left,
  starts_with-same, drop-child,
}
use hivesync.Archive.{
  done, archive_suffix, below, relative_to, check_exclude, exclude_for, default_base, validate,
  layout_plan, plan_for,
}
use hivesync.Archive.Joined.{
  no_break-append, relative_path, suffix_path, prefix_of-remote, default_base-join,
  exclude_for-join, validate-join,
}
use hivesync.Archive.Placement.{IsRelative}

-- `path/.hivesync-archive`
abbrev child_of : Text → Text
child_of p = p ++ (47 ∷ archive_suffix)

-- A child is below the path, and relative to it has the archive's name.
child_below :
    (c : ℕ) (q : Text)
    → (below (child_of (c ∷ q)) (c ∷ q) ≡ true)
      × (relative_to (child_of (c ∷ q)) (c ∷ q) ≡ archive_suffix)
child_below c q =
    let facts = starts_with-same (c ∷ q) archive_suffix in
    let other = text_eq-append_left (c ∷ q) 47 archive_suffix in
    let rest = drop-child (c ∷ q) archive_suffix in
    (ground (arith, facts, other), ground (arith, facts, other, rest))

suffix_stripped : strip_slashes archive_suffix ≡ archive_suffix
unfolding strip_slashes
suffix_stripped = refl

module _ (r : Text) (c : ℕ) (q : Text) (h : IsRelative r (c ∷ q))
    (s : has_slash (c ∷ q) ≡ false) where
  abbrev p : Text
  p = c ∷ q

  base-child : default_base (r ++ (58 ∷ p)) ≡ r ++ (58 ∷ child_of p)
  base-child =
      default_base-join r p p h.remote h.one_line h.one_line
      ∙ (ground (arith, relative_path p h.begins, strip-plain p h.begins h.ends)
          ∙ prefix_of-remote r (child_of p) h.remote)

  child_stripped : strip_slashes (child_of p) ≡ child_of p
  child_stripped =
      strip-plain (child_of p) (first_plain-append p (47 ∷ archive_suffix) h.begins)
        (last_plain-append p 47 archive_suffix suffix_path.0)

  child_one_line : no_break (child_of p) ≡ true
  child_one_line = no_break-append p (47 ∷ archive_suffix) h.one_line suffix_path.1

  exclude-child :
      exclude_for (r ++ (58 ∷ child_of p)) (r ++ (58 ∷ p))
      ≡ done (some (codes "/.hivesync-archive/**"))
  exclude-child = ground (
    arith,
    exclude_for-join r (child_of p) p h.remote child_one_line h.one_line,
    strip-plain p h.begins h.ends,
    child_stripped,
    child_below c q,
    suffix_stripped,
  )

  validate-child : validate (r ++ (58 ∷ p)) (r ++ (58 ∷ child_of p)) ≡ done tt
  unfolding check_exclude
  validate-child = ground (
    arith,
    validate-join r (child_of p) p h.remote child_one_line h.one_line,
    strip-plain p h.begins h.ends,
    child_stripped,
    first_segment-child p archive_suffix,
    text_eq_refl (first_segment p),
    child_below c q,
    exclude-child,
  )

-- A destination that is a share root, with no archive chosen, archives into a child of itself, and
-- the run accepts it together with the exclude `/.hivesync-archive/**`.
pub share_root_accepted :
    (job : Job) (stamp r : Text) (c : ℕ) (q : Text)
    → job.archive_base ≡ none
    → IsRelative r (c ∷ q)
    → has_slash (c ∷ q) ≡ false
    → plan_for job (r ++ (58 ∷ c ∷ q)) stamp
      ≡ done (
          layout_plan job.archive_layout job.name
            (r ++ (58 ∷ child_of (c ∷ q)))
            stamp
            (some (codes "/.hivesync-archive/**")))
unfolding plan_for
share_root_accepted job stamp r c q n h s =
    ground (arith, base-child r c q h s, validate-child r c q h s, exclude-child r c q h s)
