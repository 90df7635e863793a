-- ===== src/Prelude/Parts.antt =====
-- Parts of a text: `str.partition`, `str.split` at one character, `str.join`, `str.lower`.
use mathlib.Core.Bool.{◌&&◌}
use mathlib.Core.List.{List, [], ◌∷◌, ◌++◌, map}
use Prim.Native.Nat.{ℕ, ◌+◌}
use hivesync.Prelude.Tests.{leb, ◌==◌, if◌then◌else◌}
use hivesync.Prelude.Codes.{Text}

-- Before and after the first `c`; all of it and nothing where there is none.
abbrev pub partition : ℕ → Text → Text × Text
partition c [] = ([], [])
partition c (d ∷ s) =
    let (before, after) = partition c s in if d == c then ([], s) else (d ∷ before, after)

-- `s.split(c)[0]`
abbrev pub head_of : ℕ → Text → Text
head_of c s = (partition c s).0

abbrev pub push_part : ℕ → List Text → List Text
push_part d [] = (d ∷ []) ∷ []
push_part d (p ∷ ps) = (d ∷ p) ∷ ps

-- `s.split(c)`
abbrev pub split_at : ℕ → Text → List Text
split_at c [] = [] ∷ []
split_at c (d ∷ s) = let rest = split_at c s in if d == c then [] ∷ rest else push_part d rest

-- `sep.join(parts)`
abbrev pub join_with : Text → List Text → Text
join_with sep [] = []
join_with sep (p ∷ []) = p
join_with sep (p ∷ q ∷ ps) = p ++ (sep ++ join_with sep (q ∷ ps))

-- `str.lower` of ASCII.
abbrev pub lowercase : Text → Text
lowercase s = map (λ c. if leb b'A' c && leb c b'Z' then c + 32 else c) s
