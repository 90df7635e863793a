-- ===== src/Remotes/Subpath.antt =====
-- The paths that `join_subpath` of app/engines/rcloneconf.py gives.
use hivesync.Prelude.{
  ℕ, ◌≡◌, refl, inl, inr, Bool, true, false, Bool-cases, not, ◌&&◌, Option, List, [], ◌∷◌, Text,
  codes, text_eq, non_empty, ◌==◌, arith,
}
use hivesync.Prelude.Parts.{split_at, push_part}
use hivesync.Archive.Paths.{strip_slashes, has_slash}
use hivesync.Remotes.{
  Resolved-cases, ok, or_blank, forward_slashes, kept_parts, joined, join_subpath,
}

-- One step down: not blank, neither `.` nor `..`, and without a slash of its own.
abbrev pub is_step : Text → Bool
is_step p =
    non_empty p && not (text_eq p (codes ".")) && not (text_eq p (codes "..")) && not (has_slash p)

abbrev pub all_steps : List Text → Bool
all_steps [] = true
all_steps (p ∷ ps) = is_step p && all_steps ps

abbrev pub no_slashes : List Text → Bool
no_slashes [] = true
no_slashes (p ∷ ps) = not (has_slash p) && no_slashes ps

no_slashes-push :
    (d : ℕ) (ps : List Text)
    → (d == 47) ≡ false
    → no_slashes ps ≡ true
    → no_slashes (push_part d ps) ≡ true
no_slashes-push d [] h all = ground (arith, h)
no_slashes-push d (p ∷ ps) h all = ground (arith, h, all)

no_slashes-split : (s : Text) → no_slashes (split_at 47 s) ≡ true
no_slashes-split [] = refl
no_slashes-split (d ∷ s) = elim (Bool-cases (d == 47)) [
  | inl slash ↦ rw slash (no_slashes-split s)
  | inr other ↦ rw other (no_slashes-push d (split_at 47 s) other (no_slashes-split s))
]

kept_parts-steps :
    (ps : List Text) (kept : List Text)
    → no_slashes ps ≡ true
    → kept_parts ps ≡ ok kept
    → all_steps kept ≡ true
unfolding kept_parts
kept_parts-steps [] kept all h = ground (arith, h)
kept_parts-steps (p ∷ ps) kept all h = elim (Resolved-cases (kept_parts ps)) [
  | inl (rest, there) ↦
      ground (arith, there, h, all, kept_parts-steps ps rest (ground (arith, all)) there)
  | inr (e, there) ↦ ground (arith, there, h)
]

-- A path below a base that is not refused is the base itself, or the base and then steps down only:
-- no part of it is blank, `.` or `..`, or has a slash, so it never leaves the base; whatever the
-- subpath, with slashes of either kind.
pub join_subpath-below :
    (base : Text) (subpath : Option Text) (path : Text)
    → join_subpath base subpath ≡ ok path
    → (kept : List Text) × (all_steps kept ≡ true) × (path ≡ joined base kept)
unfolding join_subpath
join_subpath-below base subpath path h =
    let parts = split_at 47 (strip_slashes (forward_slashes (or_blank subpath))) in
    elim (Resolved-cases (kept_parts parts)) [
      | inl (kept, there) ↦ (
        kept,
        kept_parts-steps parts kept
            (no_slashes-split (strip_slashes (forward_slashes (or_blank subpath)))) there,
        ground (arith, there, h),
      )
      | inr (e, there) ↦ ground (arith, there, h)
    ]
