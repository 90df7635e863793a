-- ===== src/Archive/Slug/Safe.antt =====
-- A slug of app/jobs/archive.py as one element of a path.
use hivesync.Prelude.{
  ℕ, ◌≡◌, refl, Bool, true, false, not, [], ◌∷◌, map, Text, strip, non_empty, arith,
}
use hivesync.Archive.Slug.{
  is_kept, push_edge, replace_runs, collapse_runs, lstrip_edges, rstrip_edges, is_edge, lower,
  or_job, slugify,
}
use hivesync.Archive.Slug.Dots.{
  no_dots, no_dots-collapse_dots, no_dots-collapse_none, no_dots-lstrip, no_dots-rstrip,
  no_dots-lower,
}
use hivesync.Archive.Slug.Chars.{
  all_slug, is_slug_char, all_kept-replace, all_kept-collapse, all_kept-lstrip, all_kept-rstrip,
  all_slug-lower,
}

abbrev pub starts_well : Text → Bool
starts_well [] = true
starts_well (c ∷ s) = not (is_edge c)

starts_well-lstrip : (s : Text) → starts_well (lstrip_edges s) ≡ true
unfolding lstrip_edges
starts_well-lstrip [] = refl
starts_well-lstrip (c ∷ s) = ground (arith, starts_well-lstrip s)

starts_well-push : (c : ℕ) (s : Text) → not (is_edge c) ≡ true → starts_well (push_edge c s) ≡ true
starts_well-push c [] h = ground arith
starts_well-push c (d ∷ t) h = h

starts_well-rstrip : (s : Text) → starts_well s ≡ true → starts_well (rstrip_edges s) ≡ true
unfolding rstrip_edges
starts_well-rstrip [] h = refl
starts_well-rstrip (c ∷ s) h = starts_well-push c (rstrip_edges s) h

starts_well-lower : (s : Text) → starts_well s ≡ true → starts_well (map lower s) ≡ true
starts_well-lower [] h = refl
starts_well-lower (c ∷ s) h = ground arith

-- Not empty, no dot or dash in front, no character but those of a slug, no two dots in a row.
pub record IsSafe (s : Text) : Type 0 where
  pub is_named : non_empty s ≡ true
  pub starts : starts_well s ≡ true
  pub slug_chars : all_slug s ≡ true
  pub no_traversal : no_dots false s ≡ true

IsSafe-or_job :
    (s : Text)
    → starts_well s ≡ true
    → all_slug s ≡ true
    → no_dots false s ≡ true
    → IsSafe (or_job s)
unfolding is_slug_char
IsSafe-or_job [] w a d = record {
  is_named = refl;
  starts = refl;
  slug_chars = refl;
  no_traversal = refl;
}
IsSafe-or_job (c ∷ s) w a d = record {
  is_named = refl;
  starts = w;
  slug_chars = a;
  no_traversal = d;
}

period_kept : (is_kept 46 ≡ true) × (is_kept 45 ≡ true)
unfolding is_kept
period_kept = (refl, refl)

-- Whatever the job's name, its slug is not empty, does not begin with a dot or a dash, has no
-- character but lower case letters, digits, dots, underscores and dashes (so no separator), and no
-- two dots in a row.
pub slugify-IsSafe : (name : Text) → IsSafe (slugify name)
unfolding slugify
slugify-IsSafe name =
    let kept = replace_runs false (strip name) in
    let dotless = collapse_runs 46 0 kept in
    let dashed = collapse_runs 45 0 dotless in
    let kept_dotless =
      all_kept-collapse 46 0 kept period_kept.0 (all_kept-replace false (strip name)) in
    let kept_dashed = all_kept-collapse 45 0 dotless period_kept.1 kept_dotless in
    let no_dots_dashed = no_dots-collapse_none false dotless (no_dots-collapse_dots 0 kept) in
    IsSafe-or_job (map lower (rstrip_edges (lstrip_edges dashed)))
      (starts_well-lower (rstrip_edges (lstrip_edges dashed))
        (starts_well-rstrip (lstrip_edges dashed) (starts_well-lstrip dashed)))
      (all_slug-lower (rstrip_edges (lstrip_edges dashed))
        (all_kept-rstrip (lstrip_edges dashed) (all_kept-lstrip dashed kept_dashed)))
      (no_dots-lower false (rstrip_edges (lstrip_edges dashed))
        (no_dots-rstrip false (lstrip_edges dashed) (no_dots-lstrip false dashed no_dots_dashed)))
