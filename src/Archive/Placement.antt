-- ===== src/Archive/Placement.antt =====
-- The default archive of a destination below a share, in app/jobs/archive.py.
use hivesync.Prelude.{◌≡◌, ◌∙◌, true, false, none, [], ◌∷◌, ◌++◌, Text, codes, text_eq_refl, arith}
use hivesync.Models.{Job}
use hivesync.Archive.Paths.{strip_slashes, has_slash, first_segment}
use hivesync.Archive.Paths.Split.{IsRemote, no_break}
use hivesync.Archive.Paths.Trim.{
  first_plain, last_plain, strip-plain, last_plain-append, first_plain-append, first_segment-slash,
  text_eq-append_left, starts_with-other,
}
use hivesync.Archive.{
  done, archive_suffix, below, check_exclude, exclude_for, default_base, validate, layout_plan,
  plan_for,
}
use hivesync.Archive.Joined.{
  no_break-append, relative_path, suffix_path, prefix_of-remote, default_base-join,
  exclude_for-join, validate-join,
}

-- A destination `remote:path` whose path is relative, and has no slash at its ends.
pub record IsRelative (r p : Text) : Type 0 where
  pub remote : IsRemote r
  pub one_line : no_break p ≡ true
  pub begins : first_plain p ≡ true
  pub ends : last_plain p ≡ true

-- A sibling by the suffix is not below the path.
below-sibling : (p : Text) → first_plain p ≡ true → below (p ++ archive_suffix) p ≡ false
below-sibling [] f = ground arith
below-sibling (c ∷ p) f = ground (
  arith,
  text_eq-append_left (c ∷ p) 46 (codes "hivesync-archive"),
  starts_with-other (c ∷ p) (codes "hivesync-archive"),
)

module _ (r p : Text) (h : IsRelative r p) where
  sibling_stripped : strip_slashes (p ++ archive_suffix) ≡ p ++ archive_suffix
  sibling_stripped =
      strip-plain (p ++ archive_suffix) (first_plain-append p archive_suffix h.begins)
        (last_plain-append p 46 (codes "hivesync-archive") suffix_path.0)

  sibling_outside : below (p ++ archive_suffix) p ≡ false
  sibling_outside = below-sibling p h.begins

  base-sibling :
      has_slash p ≡ true → default_base (r ++ (58 ∷ p)) ≡ r ++ (58 ∷ (p ++ archive_suffix))
  base-sibling s =
      default_base-join r p p h.remote h.one_line h.one_line
      ∙ (ground (arith, relative_path p h.begins, strip-plain p h.begins h.ends)
          ∙ prefix_of-remote r (p ++ archive_suffix) h.remote)

  validate-sibling :
      has_slash p ≡ true → validate (r ++ (58 ∷ p)) (r ++ (58 ∷ (p ++ archive_suffix))) ≡ done tt
  unfolding check_exclude
  validate-sibling s = ground (
    arith,
    validate-join r (p ++ archive_suffix) p h.remote
        (no_break-append p archive_suffix h.one_line suffix_path.1) h.one_line,
    strip-plain p h.begins h.ends,
    sibling_stripped,
    first_segment-slash p archive_suffix s,
    text_eq_refl (first_segment p),
    sibling_outside,
  )

  exclude-sibling : exclude_for (r ++ (58 ∷ (p ++ archive_suffix))) (r ++ (58 ∷ p)) ≡ done none
  exclude-sibling = ground (
    arith,
    exclude_for-join r (p ++ archive_suffix) p h.remote
        (no_break-append p archive_suffix h.one_line suffix_path.1) h.one_line,
    strip-plain p h.begins h.ends,
    sibling_stripped,
    sibling_outside,
  )

-- A destination below a share, with no archive chosen, archives beside it: the run accepts the
-- sibling `path.hivesync-archive` on the same remote, and needs no exclude.
pub sibling_accepted :
    (job : Job) (stamp r p : Text)
    → job.archive_base ≡ none
    → IsRelative r p
    → has_slash p ≡ true
    → plan_for job (r ++ (58 ∷ p)) stamp
      ≡ done
          (layout_plan job.archive_layout job.name (r ++ (58 ∷ (p ++ archive_suffix))) stamp none)
unfolding plan_for
sibling_accepted job stamp r p n h s =
    ground (arith, base-sibling r p h s, validate-sibling r p h s, exclude-sibling r p h)
