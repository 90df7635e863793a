-- ===== src/Archive/Paths/Split.antt =====
-- `_split_remote` of a spec that was put together as `remote:path`.
use hivesync.Prelude.{
  ℕ, ◌≤◌, ◌≡◌, refl, Bool, true, false, not, ◌&&◌, Option, none, some, [], ◌∷◌, ◌++◌, Text, ◌==◌,
  length, arith,
}
use hivesync.Archive.Paths.{is_remote_char, line, scan, split_remote}

abbrev pub all_remote : Text → Bool
all_remote [] = true
all_remote (c ∷ s) = is_remote_char c && all_remote s

abbrev pub no_break : Text → Bool
no_break [] = true
no_break (c ∷ s) = not (c == 10) && no_break s

-- The name of a remote, as rclone allows it and `_split_remote` reads it.
pub record IsRemote (r : Text) : Type 0 where
  pub long_enough : 2 ≤ length r
  pub name_chars : all_remote r ≡ true

pub line-no_break : (p : Text) → no_break p ≡ true → line p ≡ some p
line-no_break [] h = refl
line-no_break (c ∷ []) h = ground arith
line-no_break (c ∷ d ∷ s) h = ground (arith, line-no_break (d ∷ s))

colon_apart : (c : ℕ) → is_remote_char c ≡ true → (c == 58) ≡ false
unfolding is_remote_char
colon_apart c h = ground arith

-- What follows the first colon is not looked at by the scan.
scan-colon : (p : Text) → scan (58 ∷ p) ≡ some ([], p)
scan-colon p =
    elim (scan p)
      as (λ o.
        (elim o as (λ _. Option (Text × Text)) [ none ↦ some ([], p) | some _ ↦ some ([], p) ])
        ≡ some ([], p)) [ none ↦ refl | some _ ↦ refl ]

scan-remote : (r p : Text) → all_remote r ≡ true → scan (r ++ (58 ∷ p)) ≡ some (r, p)
scan-remote [] p h = scan-colon p
scan-remote (c ∷ r) p h = ground (arith, scan-remote r p, colon_apart c)

pub split_remote-join :
    (r p : Text) → IsRemote r → no_break p ≡ true → split_remote (r ++ (58 ∷ p)) ≡ (r, p)
unfolding split_remote
split_remote-join r p h b =
    ground (arith, scan-remote r p h.name_chars, line-no_break p b, h.long_enough)
