-- ===== src/Prelude/Codes.antt =====
-- Text as its code points: a Python `str` that the program takes apart or compares.
use Prim.Native.Nat.{ℕ, zero, suc, ◌+◌, ◌-◌, ◌*◌, ◌/◌, ◌%◌, ◌<◌}
use Prim.Native.Char.{code}
use Prim.Native.String.{String}
use mathlib.Core.Path.{◌≡◌, refl, ◌∙◌}
use mathlib.Core.Logic.{◌↔◌, inl, inr}
use mathlib.Core.Option.{Option, none, some}
use mathlib.Core.Bool.{Bool, true, false, ◌&&◌, ◌||◌}
use mathlib.Core.List.{List, [], ◌∷◌}
use native.Mathlib.Omega.{arith}
use hivesync.Prelude.Tests.{Bool-cases, ◌==◌, ltb, leb, if◌then◌else◌}

abbrev pub Text : Type 0
Text = List ℕ

abbrev pub codes : String → Text
codes String.[] = []
codes (String.◌∷◌ c s) = code c ∷ codes s

abbrev pub text_eq : Text → Text → Bool
text_eq [] [] = true
text_eq (a ∷ s) (b ∷ t) = (a == b) && text_eq s t
text_eq _ _ = false

pub text_eq→eq : (s t : Text) → text_eq s t ≡ true → s ≡ t
text_eq→eq [] [] h = refl
text_eq→eq [] (b ∷ t) h = cc
text_eq→eq (a ∷ s) [] h = cc
text_eq→eq (a ∷ s) (b ∷ t) h = ground (arith, text_eq→eq s t)

pub text_eq_refl : (s : Text) → text_eq s s ≡ true
text_eq_refl [] = refl
text_eq_refl (a ∷ s) = ground (arith, text_eq_refl s)

pub text_eq_iff : (s t : Text) → (text_eq s t ≡ true) ↔ (s ≡ t)
text_eq_iff s t = (text_eq→eq s t, λ e. rw e (text_eq_refl t))

-- `s.startswith(p)`
abbrev pub starts_with : Text → Text → Bool
starts_with s [] = true
starts_with [] (b ∷ p) = false
starts_with (a ∷ s) (b ∷ p) = (a == b) && starts_with s p

-- `p in s`
abbrev pub contains : Text → Text → Bool
contains [] p = starts_with [] p
contains (a ∷ s) p = let rest = contains s p in if starts_with (a ∷ s) p then true else rest

-- `bool(s)` of a string
abbrev pub non_empty : Text → Bool
non_empty [] = false
non_empty (a ∷ s) = true

-- `str(n)`: the decimal digits of a number; `n + 1` rounds are more than its digits.
abbrev digits_from : ℕ → ℕ → Text → Text
digits_from zero n acc = acc
digits_from (suc f) n acc =
    let rest = digits_from f (n / 10) ((48 + n % 10) ∷ acc) in
    if ltb n 10 then (48 + n) ∷ acc else rest

pub decimal : ℕ → Text
decimal n = digits_from (suc n) n []

-- `int(t)` of decimal digits, after digits that say `n`.
abbrev pub read_digits : ℕ → Text → Option ℕ
read_digits n [] = some n
read_digits n (c ∷ t) =
    let rest = read_digits (n * 10 + (c - 48)) t in if leb 48 c && leb c 57 then rest else none

read_digits-digits_from :
    (f n : ℕ) (acc : Text) → n < f → read_digits 0 (digits_from f n acc) ≡ read_digits n acc
read_digits-digits_from zero n acc h = absurd (omega arith)
read_digits-digits_from (suc f) n acc h = elim (Bool-cases (ltb n 10)) [
  | inl small ↦ ground (arith, small)
  | inr big ↦
      let last = read_digits-digits_from f (n / 10) ((48 + n % 10) ∷ acc) (ground (arith, big)) in
      let whole : n / 10 * 10 + (48 + n % 10 - 48) ≡ n = omega arith in
      let in_range : (leb 48 (48 + n % 10) && leb (48 + n % 10) 57) ≡ true = ground arith in
      rw big (last ∙ (rw (in_range, whole) refl))
]

pub read_digits-decimal : (n : ℕ) → read_digits 0 (decimal n) ≡ some n
unfolding decimal
read_digits-decimal n = read_digits-digits_from (suc n) n [] (omega arith)

digits_from-filled : (f n c : ℕ) (acc : Text) → non_empty (digits_from f n (c ∷ acc)) ≡ true
digits_from-filled zero n c acc = refl
digits_from-filled (suc f) n c acc =
    ground (arith, digits_from-filled f (n / 10) (48 + n % 10) (c ∷ acc))

pub non_empty-decimal : (n : ℕ) → non_empty (decimal n) ≡ true
unfolding decimal
non_empty-decimal n = ground (arith, digits_from-filled n (n / 10) (48 + n % 10) [])

-- `s <= t` of two strings, by code points.
abbrev pub text_le : Text → Text → Bool
text_le [] t = true
text_le (a ∷ s) [] = false
text_le (a ∷ s) (b ∷ t) = if a == b then text_le s t else ltb a b

-- `str.isspace` of one character.
pub is_space : ℕ → Bool
is_space c =
    (leb 9 c && leb c 13)
    || (leb 28 c && leb c 32)
    || (c == 133)
    || (c == 160)
    || (c == 5760)
    || (leb 8192 c && leb c 8202)
    || (c == 8232)
    || (c == 8233)
    || (c == 8239)
    || (c == 8287)
    || (c == 12288)

unfoldable pub lstrip : Text → Text
unfolding is_space
lstrip [] = []
lstrip (c ∷ s) = let rest = lstrip s in if is_space c then rest else c ∷ s

abbrev push_right : ℕ → Text → Text
push_right c [] = if is_space c then [] else c ∷ []
push_right c (d ∷ t) = c ∷ d ∷ t

unfoldable pub rstrip : Text → Text
unfolding is_space
rstrip [] = []
rstrip (c ∷ s) = push_right c (rstrip s)

-- `s.strip()`
unfoldable pub strip : Text → Text
unfolding lstrip rstrip
strip s = rstrip (lstrip s)
