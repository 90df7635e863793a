-- ===== src/Archive/Slug/Chars.antt =====
-- The characters that the steps of `slugify` in app/jobs/archive.py leave.
use hivesync.Prelude.{
  ℕ, zero, suc, ◌≡◌, refl, Bool, true, false, not, ◌&&◌, [], ◌∷◌, map, Text, leb, arith,
}
use hivesync.Archive.Slug.{
  is_kept, replace_runs, collapse_runs, lstrip_edges, rstrip_edges, push_edge, lower,
}

-- A character of a slug: lower case, a digit, a dot, an underscore or a dash.
unfoldable pub is_slug_char : ℕ → Bool
unfolding is_kept
is_slug_char c = is_kept c && not (leb b'A' c && leb c b'Z')

abbrev pub all_kept : Text → Bool
all_kept [] = true
all_kept (c ∷ s) = is_kept c && all_kept s

abbrev pub all_slug : Text → Bool
all_slug [] = true
all_slug (c ∷ s) = is_slug_char c && all_slug s

dash_kept : is_kept 45 ≡ true
unfolding is_kept
dash_kept = refl

pub all_kept-replace : (inside : Bool) (s : Text) → all_kept (replace_runs inside s) ≡ true
unfolding replace_runs
all_kept-replace inside [] = refl
all_kept-replace inside (c ∷ s) =
    ground (arith, dash_kept, all_kept-replace true s, all_kept-replace false s)

pub all_kept-collapse :
    (k n : ℕ) (s : Text)
    → is_kept k ≡ true
    → all_kept s ≡ true
    → all_kept (collapse_runs k n s) ≡ true
unfolding collapse_runs
all_kept-collapse k zero [] e h = refl
all_kept-collapse k (suc zero) [] e h = ground arith
all_kept-collapse k (suc (suc n)) [] e h = ground (arith, dash_kept)
all_kept-collapse k zero (c ∷ s) e h =
    ground (arith, dash_kept, all_kept-collapse k 1 s, all_kept-collapse k 0 s)
all_kept-collapse k (suc zero) (c ∷ s) e h =
    ground (arith, dash_kept, all_kept-collapse k 2 s, all_kept-collapse k 0 s)
all_kept-collapse k (suc (suc n)) (c ∷ s) e h =
    ground (arith, dash_kept, all_kept-collapse k (suc (suc (suc n))) s, all_kept-collapse k 0 s)

pub all_kept-lstrip : (s : Text) → all_kept s ≡ true → all_kept (lstrip_edges s) ≡ true
unfolding lstrip_edges
all_kept-lstrip [] h = refl
all_kept-lstrip (c ∷ s) h = ground (arith, all_kept-lstrip s)

all_kept-push :
    (c : ℕ) (s : Text) → is_kept c ≡ true → all_kept s ≡ true → all_kept (push_edge c s) ≡ true
all_kept-push c [] e h = ground arith
all_kept-push c (d ∷ t) e h = ground arith

pub all_kept-rstrip : (s : Text) → all_kept s ≡ true → all_kept (rstrip_edges s) ≡ true
unfolding rstrip_edges
all_kept-rstrip [] h = refl
all_kept-rstrip (c ∷ s) h =
    all_kept-push c (rstrip_edges s) (ground arith) (all_kept-rstrip s (ground arith))

is_slug_char-lower : (c : ℕ) → is_kept c ≡ true → is_slug_char (lower c) ≡ true
unfolding is_slug_char
is_slug_char-lower c h = ground arith

pub all_slug-lower : (s : Text) → all_kept s ≡ true → all_slug (map lower s) ≡ true
all_slug-lower [] h = refl
all_slug-lower (c ∷ s) h = ground (arith, is_slug_char-lower c, all_slug-lower s)
