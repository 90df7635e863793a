-- ===== src/Archive/Paths.antt =====
-- `_split_remote` and the trimming of paths in app/jobs/archive.py.
pub mod Split
pub mod Trim
use hivesync.Prelude.{
  ℕ, Bool, false, ◌&&◌, ◌||◌, Option, none, some, [], ◌∷◌, Text, ◌==◌, leb, length, if◌then◌else◌,
}

-- `s.lstrip("/")`
abbrev pub lstrip_slashes : Text → Text
lstrip_slashes [] = []
lstrip_slashes (c ∷ s) = let rest = lstrip_slashes s in if c == b'/' then rest else c ∷ s

abbrev pub push_path : ℕ → Text → Text
push_path c [] = if c == b'/' then [] else c ∷ []
push_path c (d ∷ t) = c ∷ d ∷ t

-- `s.rstrip("/")`
abbrev pub rstrip_slashes : Text → Text
rstrip_slashes [] = []
rstrip_slashes (c ∷ s) = push_path c (rstrip_slashes s)

-- `s.strip("/")`
unfoldable pub strip_slashes : Text → Text
strip_slashes s = rstrip_slashes (lstrip_slashes s)

abbrev pub has_slash : Text → Bool
has_slash [] = false
has_slash (c ∷ s) = (c == b'/') || has_slash s

-- `s.split("/")[0]`
abbrev pub first_segment : Text → Text
first_segment [] = []
first_segment (c ∷ s) = let rest = first_segment s in if c == b'/' then [] else c ∷ rest

-- `[A-Za-z0-9_.\-]`
unfoldable pub is_remote_char : ℕ → Bool
is_remote_char c =
    (leb b'A' c && leb c b'Z')
    || (leb b'a' c && leb c b'z')
    || (leb b'0' c && leb c b'9')
    || (c == b'_')
    || (c == b'.')
    || (c == b'-')

-- `(.*)$`: no line break, but for one at the end, which is left out.
abbrev pub line : Text → Option Text
line [] = some []
line (c ∷ []) = if c == 10 then some [] else some (c ∷ [])
line (c ∷ d ∷ s) = elim (line (d ∷ s)) [
  | none ↦ none
  | some t ↦ if c == 10 then none else some (c ∷ t)
]

-- The name before the first colon, if it has the characters of a name only, and what follows.
abbrev pub scan : Text → Option (Text × Text)
scan [] = none
scan (c ∷ s) = elim (scan s) [
  | none ↦ if c == b':' then some ([], s) else none
  | some (name, rest) ↦
      if c == b':' then some ([], s) else if is_remote_char c then some (c ∷ name, rest) else none
]

abbrev pub match : Text → Text → Option Text → Text × Text
match spec name none = ([], spec)
match spec name (some rest) = if leb 2 (length name) then (name, rest) else ([], spec)

unfoldable pub split_remote : Text → Text × Text
unfolding is_remote_char
split_remote spec = elim (scan spec) [
  | none ↦ ([], spec)
  | some (name, rest) ↦ match spec name (line rest)
]

unfoldable pub strip_remote : Text → Text
unfolding split_remote
strip_remote spec = (split_remote spec).1
