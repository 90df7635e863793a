-- ===== src/Archive/Joined.antt =====
-- The functions of app/jobs/archive.py at specs that are put together from a remote and a path.
use mathlib.Core.List.{append_assoc}
use hivesync.Prelude.{
  ◌≡◌, refl, ap, true, false, none, [], ◌∷◌, ◌++◌, Text, text_eq, text_eq_refl, if◌then◌else◌,
  arith,
}
use hivesync.Models.{other_share}
use hivesync.Archive.Paths.{strip_slashes, first_segment}
use hivesync.Archive.Paths.Split.{IsRemote, no_break, split_remote-join}
use hivesync.Archive.Paths.Trim.{first_plain, last_plain}
use hivesync.Archive.{
  done, raised, same_share, check_exclude, archive_suffix, anchored, relative_to, below, prefix_of,
  base_in, is_absolute, default_base, is_inside, exclude_for, validate,
}

pub no_break-append :
    (p s : Text) → no_break p ≡ true → no_break s ≡ true → no_break (p ++ s) ≡ true
no_break-append [] s h k = k
no_break-append (c ∷ p) s h k = ground (arith, no_break-append p s)

pub relative_path : (p : Text) → first_plain p ≡ true → is_absolute p ≡ false
relative_path [] h = refl
relative_path (c ∷ p) h = ground arith

pub suffix_path : (last_plain archive_suffix ≡ true) × (no_break archive_suffix ≡ true)
suffix_path = (refl, refl)

pub prefix_of-remote : (r x : Text) → IsRemote r → prefix_of r ++ x ≡ r ++ (58 ∷ x)
prefix_of-remote [] x h = absurd (omega (arith, h.long_enough))
prefix_of-remote (c ∷ r) x h = append_assoc (c ∷ r) (58 ∷ []) x

same_share-remote :
    (r a p : Text)
    → IsRemote r
    → same_share r a p ≡ (
        if text_eq (first_segment (strip_slashes a)) (first_segment (strip_slashes p))
        then done tt
        else raised
            (other_share (first_segment (strip_slashes p)) (first_segment (strip_slashes a))))
same_share-remote [] a p h = absurd (omega (arith, h.long_enough))
same_share-remote (c ∷ r) a p h = refl

-- The functions of a spec, where the specs are put together from one remote and two paths.
module _ (r a p : Text) (h : IsRemote r) (ba : no_break a ≡ true) (bp : no_break p ≡ true) where
  pub default_base-join :
      default_base (r ++ (58 ∷ p)) ≡ base_in (prefix_of r) (is_absolute p) (strip_slashes p)
  unfolding default_base
  default_base-join =
      ap (λ (s : Text × Text). base_in (prefix_of s.0) (is_absolute s.1) (strip_slashes s.1))
        (split_remote-join r p h bp)

  pub is_inside-join :
      is_inside (r ++ (58 ∷ a)) (r ++ (58 ∷ p)) ≡ below (strip_slashes a) (strip_slashes p)
  unfolding is_inside
  is_inside-join =
      ground (arith, split_remote-join r a h ba, split_remote-join r p h bp, text_eq_refl r)

  pub exclude_for-join : exclude_for (r ++ (58 ∷ a)) (r ++ (58 ∷ p)) ≡ (
      if below (strip_slashes a) (strip_slashes p)
      then anchored (strip_slashes (relative_to (strip_slashes a) (strip_slashes p)))
      else done none)
  unfolding exclude_for
  exclude_for-join =
      ground (arith, is_inside-join, split_remote-join r a h ba, split_remote-join r p h bp)

  pub validate-join : validate (r ++ (58 ∷ p)) (r ++ (58 ∷ a)) ≡ (
      if text_eq (first_segment (strip_slashes a)) (first_segment (strip_slashes p))
      then check_exclude (below (strip_slashes a) (strip_slashes p)) (r ++ (58 ∷ a)) (r ++ (58 ∷ p))
      else raised (other_share (first_segment (strip_slashes p)) (first_segment (strip_slashes a))))
  unfolding validate
  validate-join = ground (
    arith,
    is_inside-join,
    split_remote-join r a h ba,
    split_remote-join r p h bp,
    text_eq_refl r,
    same_share-remote r a p h,
  )
