-- ===== src/Archive/Slug.antt =====
-- `slugify` of app/jobs/archive.py: a job's name as one element of a path.
mod Dots
mod Chars
pub mod Safe
use hivesync.Prelude.{
  ℕ, zero, suc, ◌+◌, ◌≡◌, refl, Bool, true, false, ◌&&◌, ◌||◌, [], ◌∷◌, ◌++◌, map, Text, codes,
  ◌==◌, leb, strip, if◌then◌else◌, arith,
}

-- `[A-Za-z0-9._-]`
unfoldable pub is_kept : ℕ → Bool
is_kept c =
    (leb b'A' c && leb c b'Z')
    || (leb b'a' c && leb c b'z')
    || (leb b'0' c && leb c b'9')
    || (c == b'.')
    || (c == b'_')
    || (c == b'-')

-- `re.sub(r"[^A-Za-z0-9._-]+", "-", s)`; `inside` says that the run has its dash already.
pub replace_runs : Bool → Text → Text
replace_runs inside [] = []
replace_runs inside (c ∷ s) =
    let plain = c ∷ replace_runs false s in
    let more = replace_runs true s in
    if is_kept c then plain else if inside then more else b'-' ∷ more

-- A run of `n` times `k`, with a longer run than one made a dash.
abbrev pub flush : ℕ → ℕ → Text
flush k zero = []
flush k (suc zero) = k ∷ []
flush k (suc (suc n)) = b'-' ∷ []

-- `re.sub(k{2,}, "-", s)`, with `n` times `k` read and not yet written.
pub collapse_runs : ℕ → ℕ → Text → Text
collapse_runs k n [] = flush k n
collapse_runs k n (c ∷ s) =
    let longer = collapse_runs k (suc n) s in
    let next = flush k n ++ (c ∷ collapse_runs k 0 s) in if c == k then longer else next

abbrev pub is_edge : ℕ → Bool
is_edge c = (c == b'-') || (c == b'.')

pub lstrip_edges : Text → Text
lstrip_edges [] = []
lstrip_edges (c ∷ s) = let rest = lstrip_edges s in if is_edge c then rest else c ∷ s

abbrev pub push_edge : ℕ → Text → Text
push_edge c [] = if is_edge c then [] else c ∷ []
push_edge c (d ∷ t) = c ∷ d ∷ t

pub rstrip_edges : Text → Text
rstrip_edges [] = []
rstrip_edges (c ∷ s) = push_edge c (rstrip_edges s)

-- `str.lower` of one character of the kept class.
abbrev pub lower : ℕ → ℕ
lower c = if leb b'A' c && leb c b'Z' then c + 32 else c

abbrev pub or_job : Text → Text
or_job [] = codes "job"
or_job (c ∷ s) = c ∷ s

pub slugify : Text → Text
unfolding is_kept replace_runs collapse_runs lstrip_edges rstrip_edges
slugify name = or_job (
    map lower (
      rstrip_edges (
        lstrip_edges
          (collapse_runs b'-' 0 (collapse_runs b'.' 0 (replace_runs false (strip name)))))))
