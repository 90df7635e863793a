-- ===== src/Archive/Paths/Trim.antt =====
-- Trimming slashes, and the first element of a path.
use hivesync.Prelude.{
  ℕ, ◌≡◌, refl, Bool, true, false, not, [], ◌∷◌, ◌++◌, Text, ◌==◌, text_eq, starts_with, length,
  drop, arith,
}
use hivesync.Archive.Paths.{rstrip_slashes, strip_slashes, has_slash, first_segment}

abbrev pub last_plain : Text → Bool
last_plain [] = false
last_plain (c ∷ []) = not (c == 47)
last_plain (c ∷ d ∷ s) = last_plain (d ∷ s)

abbrev pub first_plain : Text → Bool
first_plain [] = false
first_plain (c ∷ s) = not (c == 47)

rstrip-last_plain : (s : Text) → last_plain s ≡ true → rstrip_slashes s ≡ s
rstrip-last_plain [] h = refl
rstrip-last_plain (c ∷ []) h = ground arith
rstrip-last_plain (c ∷ d ∷ s) h = ground (arith, rstrip-last_plain (d ∷ s))

-- A path that neither begins nor ends with a slash is its own trimmed form.
pub strip-plain : (s : Text) → first_plain s ≡ true → last_plain s ≡ true → strip_slashes s ≡ s
unfolding strip_slashes
strip-plain [] f l = refl
strip-plain (c ∷ s) f l = ground (arith, rstrip-last_plain (c ∷ s))

-- One slash in front of such a path is taken off.
pub strip-slash :
    (s : Text) → first_plain s ≡ true → last_plain s ≡ true → strip_slashes (47 ∷ s) ≡ s
unfolding strip_slashes
strip-slash [] f l = refl
strip-slash (c ∷ s) f l = ground (arith, rstrip-last_plain (c ∷ s))

pub last_plain-append :
    (p : Text) (c : ℕ) (s : Text) → last_plain (c ∷ s) ≡ true → last_plain (p ++ (c ∷ s)) ≡ true
last_plain-append [] c s h = h
last_plain-append (a ∷ []) c s h = h
last_plain-append (a ∷ b ∷ p) c s h = last_plain-append (b ∷ p) c s h

pub first_plain-append : (p s : Text) → first_plain p ≡ true → first_plain (p ++ s) ≡ true
first_plain-append [] s h = ground arith
first_plain-append (c ∷ p) s h = h

pub first_segment-no_slash : (p : Text) → has_slash p ≡ false → first_segment p ≡ p
first_segment-no_slash [] h = refl
first_segment-no_slash (c ∷ p) h = ground (arith, first_segment-no_slash p)

pub first_segment-slash :
    (p s : Text) → has_slash p ≡ true → first_segment (p ++ s) ≡ first_segment p
first_segment-slash [] s h = ground arith
first_segment-slash (c ∷ p) s h = ground (arith, first_segment-slash p s)

-- The first element of a path is not changed by what follows a slash.
pub first_segment-child : (p s : Text) → first_segment (p ++ (47 ∷ s)) ≡ first_segment p
first_segment-child [] s = refl
first_segment-child (c ∷ p) s = ground (arith, first_segment-child p s)

pub has_slash-append : (p s : Text) → has_slash p ≡ false → has_slash (p ++ s) ≡ has_slash s
has_slash-append [] s h = refl
has_slash-append (c ∷ p) s h = ground (arith, has_slash-append p s)

pub text_eq-append : (p : Text) (c : ℕ) (s : Text) → text_eq p (p ++ (c ∷ s)) ≡ false
text_eq-append [] c s = refl
text_eq-append (a ∷ p) c s = ground (arith, text_eq-append p c s)

pub text_eq-append_left : (p : Text) (c : ℕ) (s : Text) → text_eq (p ++ (c ∷ s)) p ≡ false
text_eq-append_left [] c s = refl
text_eq-append_left (a ∷ p) c s = ground (arith, text_eq-append_left p c s)

pub starts_with-same : (p s : Text) → starts_with (p ++ (47 ∷ s)) (p ++ (47 ∷ [])) ≡ true
starts_with-same [] [] = refl
starts_with-same [] (c ∷ s) = refl
starts_with-same (a ∷ p) s = ground (arith, starts_with-same p s)

pub starts_with-other : (p s : Text) → starts_with (p ++ (46 ∷ s)) (p ++ (47 ∷ [])) ≡ false
starts_with-other [] s = refl
starts_with-other (a ∷ p) s = ground (arith, starts_with-other p s)

pub drop-child : (p s : Text) → drop (length (p ++ (47 ∷ []))) (p ++ (47 ∷ s)) ≡ s
drop-child [] s = refl
drop-child (a ∷ p) s = drop-child p s
