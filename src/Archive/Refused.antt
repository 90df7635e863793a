-- ===== src/Archive/Refused.antt =====
-- The default archive of one directory under the root, in app/jobs/archive.py.
use hivesync.Prelude.{ℕ, ◌≡◌, ap, ◌∙◌, true, false, none, [], ◌∷◌, ◌++◌, Text, codes, arith}
use hivesync.Models.{Job, other_share}
use hivesync.Archive.Paths.{has_slash}
use hivesync.Archive.Paths.Split.{IsRemote, no_break}
use hivesync.Archive.Paths.Trim.{
  last_plain, strip-slash, last_plain-append, has_slash-append, first_segment-no_slash,
  text_eq-append_left,
}
use hivesync.Archive.{raised, archive_suffix, base_in, prefix_of, default_base, validate, plan_for}
use hivesync.Archive.Joined.{
  no_break-append, suffix_path, prefix_of-remote, default_base-join, validate-join,
}

plain-no_slash : (c : ℕ) (p : Text) → has_slash (c ∷ p) ≡ false → last_plain (c ∷ p) ≡ true
plain-no_slash c [] h = ground arith
plain-no_slash c (d ∷ p) h = ground (arith, plain-no_slash d p)

module _ (r : Text) (c : ℕ) (q : Text) (h : IsRemote r) (s : has_slash (c ∷ q) ≡ false)
    (b : no_break (c ∷ q) ≡ true) where
  abbrev p : Text
  p = c ∷ q

  base-single : default_base (r ++ (58 ∷ 47 ∷ p)) ≡ r ++ (58 ∷ 47 ∷ (p ++ archive_suffix))
  base-single =
      default_base-join r p (47 ∷ p) h b b
      ∙ (ap (base_in (prefix_of r) true) (strip-slash p (ground arith) (plain-no_slash c q s))
          ∙ prefix_of-remote r (47 ∷ (p ++ archive_suffix)) h)

  -- no slash in the archive's name either
  no_slash-archive : has_slash (p ++ archive_suffix) ≡ false
  no_slash-archive = has_slash-append p archive_suffix s

  validate-single :
      validate (r ++ (58 ∷ 47 ∷ p)) (r ++ (58 ∷ 47 ∷ (p ++ archive_suffix)))
      ≡ raised (other_share p (p ++ archive_suffix))
  validate-single =
      let plain = plain-no_slash c q s in
      let suffixed = last_plain-append p 46 (codes "hivesync-archive") suffix_path.0 in
      ground (
        arith,
        validate-join r (47 ∷ (p ++ archive_suffix)) (47 ∷ p) h
            (no_break-append p archive_suffix b suffix_path.1) b,
        strip-slash p (ground arith) plain,
        strip-slash (p ++ archive_suffix) (ground arith) suffixed,
        first_segment-no_slash p s,
        first_segment-no_slash (p ++ archive_suffix) no_slash-archive,
        text_eq-append_left p 46 (codes "hivesync-archive"),
      )

-- A destination that is a directory directly under the root of a local connection, addressed as
-- `remote:/name`, has a default archive beside it, and `plan_for` refuses that archive for being on
-- another share: such a job cannot archive until its operator chooses another place.
pub root_directory_refused :
    (job : Job) (stamp r : Text) (c : ℕ) (q : Text)
    → job.archive_base ≡ none
    → IsRemote r
    → has_slash (c ∷ q) ≡ false
    → no_break (c ∷ q) ≡ true
    → plan_for job (r ++ (58 ∷ 47 ∷ c ∷ q)) stamp
      ≡ raised (other_share (c ∷ q) ((c ∷ q) ++ archive_suffix))
unfolding plan_for
root_directory_refused job stamp r c q n h s b =
    ground (arith, base-single r c q h s b, validate-single r c q h s b)
