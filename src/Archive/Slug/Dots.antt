-- ===== src/Archive/Slug/Dots.antt =====
-- The dots that the steps of `slugify` in app/jobs/archive.py leave.
use hivesync.Prelude.{
  ℕ, zero, suc, ◌≡◌, refl, Bool, true, false, [], ◌∷◌, map, Text, ◌==◌, if◌then◌else◌, arith,
}
use hivesync.Archive.Slug.{collapse_runs, lstrip_edges, rstrip_edges, push_edge, lower}

-- No two dots stand side by side, counting the character before the text if `dot` says it is one.
abbrev pub no_dots : Bool → Text → Bool
no_dots dot [] = true
no_dots dot (c ∷ s) =
    let after_dot = no_dots true s in
    let after_other = no_dots false s in
    if c == b'.' then (if dot then false else after_dot) else after_other

no_dots_weaken : (s : Text) → no_dots true s ≡ true → no_dots false s ≡ true
no_dots_weaken [] h = refl
no_dots_weaken (c ∷ s) h = ground arith

pub no_dots-collapse_dots : (n : ℕ) (s : Text) → no_dots false (collapse_runs 46 n s) ≡ true
unfolding collapse_runs
no_dots-collapse_dots zero [] = refl
no_dots-collapse_dots (suc zero) [] = refl
no_dots-collapse_dots (suc (suc n)) [] = refl
no_dots-collapse_dots zero (c ∷ s) =
    ground (arith, no_dots-collapse_dots 1 s, no_dots-collapse_dots 0 s)
no_dots-collapse_dots (suc zero) (c ∷ s) =
    ground (arith, no_dots-collapse_dots 2 s, no_dots-collapse_dots 0 s)
no_dots-collapse_dots (suc (suc n)) (c ∷ s) =
    ground (arith, no_dots-collapse_dots (suc (suc (suc n))) s, no_dots-collapse_dots 0 s)

mutual
  unfolding collapse_runs

  pub no_dots-collapse_none :
      (dot : Bool) (s : Text) → no_dots dot s ≡ true → no_dots dot (collapse_runs 45 0 s) ≡ true
  no_dots-collapse_none dot [] h = refl
  no_dots-collapse_none dot (c ∷ s) h = ground (
    arith,
    no_dots-collapse_some dot 0 s,
    no_dots-collapse_none true s,
    no_dots-collapse_none false s,
  )

  pub no_dots-collapse_some :
      (dot : Bool) (n : ℕ) (s : Text)
      → no_dots false s ≡ true
      → no_dots dot (collapse_runs 45 (suc n) s) ≡ true
  no_dots-collapse_some dot zero [] h = refl
  no_dots-collapse_some dot (suc n) [] h = refl
  no_dots-collapse_some dot zero (c ∷ s) h = ground (
    arith,
    no_dots-collapse_some dot 1 s,
    no_dots-collapse_none true s,
    no_dots-collapse_none false s,
  )
  no_dots-collapse_some dot (suc n) (c ∷ s) h = ground (
    arith,
    no_dots-collapse_some dot (suc (suc n)) s,
    no_dots-collapse_none true s,
    no_dots-collapse_none false s,
  )

pub no_dots-lstrip :
    (dot : Bool) (s : Text) → no_dots dot s ≡ true → no_dots false (lstrip_edges s) ≡ true
unfolding lstrip_edges
no_dots-lstrip dot [] h = refl
no_dots-lstrip dot (c ∷ s) h =
    ground (arith, no_dots-lstrip true s, no_dots-lstrip false s, no_dots_weaken s)

no_dots-push :
    (dot : Bool) (c : ℕ) (s : Text)
    → no_dots dot (c ∷ s) ≡ true
    → no_dots dot (push_edge c s) ≡ true
no_dots-push dot c [] h = ground arith
no_dots-push dot c (d ∷ t) h = h

pub no_dots-rstrip :
    (dot : Bool) (s : Text) → no_dots dot s ≡ true → no_dots dot (rstrip_edges s) ≡ true
unfolding rstrip_edges
no_dots-rstrip dot [] h = refl
no_dots-rstrip dot (c ∷ s) h =
    no_dots-push dot c (rstrip_edges s)
      (ground (arith, no_dots-rstrip true s, no_dots-rstrip false s))

pub no_dots-lower :
    (dot : Bool) (s : Text) → no_dots dot s ≡ true → no_dots dot (map lower s) ≡ true
no_dots-lower dot [] h = refl
no_dots-lower dot (c ∷ s) h = ground (arith, no_dots-lower true s, no_dots-lower false s)
