-- ===== src/Redaction/Hidden.antt =====
-- What a text holds after `Redactor.redact` of app/crypto.py.
use hivesync.Prelude.{
  ℕ, zero, suc, ◌-◌, ◌≤◌, ◌≡◌, refl, ◌∙◌, Bool, true, false, Bool-cases, not, ◌&&◌, ◌||◌, List, [],
  ◌∷◌, ◌++◌, Text, codes, text_eq, text_eq→eq, contains, starts_with, ◌==◌, length, keep, arith,
  inl, inr,
}
use hivesync.Parsers.{member, from_keys}
use hivesync.Redaction.{
  redacted, is_redactable, insert_longest, longest_first, redactor, replace_from, redact,
}

-- None of the characters is an asterisk.
abbrev pub no_star : Text → Bool
no_star [] = true
no_star (c ∷ t) = not (c == 42) && no_star t

-- A value that the marker does not get in the way of: it is not empty, has no asterisk, and is no
-- part of the word in the marker.
abbrev pub IsPlain : Text → Type 0
IsPlain v = (1 ≤ length v) × (no_star v ≡ true) × (contains (codes "REDACTED") v ≡ false)

starts_with-star : (a b v : Text) → no_star v ≡ true → starts_with (a ++ 42 ∷ b) v ≡ starts_with a v
starts_with-star a b [] h = refl
starts_with-star [] b (c ∷ v) h = ground (arith, h)
starts_with-star (x ∷ a) b (c ∷ v) h = ground (arith, h, starts_with-star a b v)

contains-star :
    (a b v : Text)
    → 1 ≤ length v
    → no_star v ≡ true
    → contains (a ++ 42 ∷ b) v ≡ (contains a v || contains b v)
contains-star [] b [] some h = absurd (omega (arith, some))
contains-star [] b (c ∷ v) some h = ground (arith, h)
contains-star (x ∷ a) b v some h =
    ground (arith, starts_with-star (x ∷ a) b v h, contains-star a b v some h)

contains-nothing : (v : Text) → 1 ≤ length v → contains [] v ≡ false
contains-nothing [] some = absurd (omega (arith, some))
contains-nothing (c ∷ v) some = refl

contains-redacted : (v t : Text) → IsPlain v → contains (redacted ++ t) v ≡ contains t v
contains-redacted v t (some, starless, word) =
    let none = contains-nothing v some in
    let star : (s : Text) → contains (42 ∷ s) v ≡ contains s v =
      λ s. contains-star [] s v some starless ∙ ground (arith, none) in
    star (42 ∷ 42 ∷ (codes "REDACTED" ++ 42 ∷ 42 ∷ 42 ∷ t))
    ∙ star (42 ∷ (codes "REDACTED" ++ 42 ∷ 42 ∷ 42 ∷ t))
    ∙ star (codes "REDACTED" ++ 42 ∷ 42 ∷ 42 ∷ t)
    ∙ contains-star (codes "REDACTED") (42 ∷ 42 ∷ t) v some starless
    ∙ ground (arith, word, star (42 ∷ t), star t)

-- A beginning of the result that has no asterisk was there before.
starts_with-replace :
    (w t u : Text)
    → no_star u ≡ true
    → starts_with (replace_from zero w t) u ≡ true
    → starts_with t u ≡ true
unfolding replace_from
starts_with-replace w t [] starless h = refl
starts_with-replace w [] (x ∷ u) starless h = h
starts_with-replace w (c ∷ t) (x ∷ u) starless h = elim (Bool-cases (starts_with (c ∷ t) w)) [
  | inl here ↦ ground (arith, here, h, starless)
  | inr other ↦ ground (arith, other, h, starless, starts_with-replace w t u)
]

-- No value is left in the text that replaced it, and a replacement brings none.
contains-replace_self :
    (skip : ℕ) (v t : Text) → IsPlain v → contains (replace_from skip v t) v ≡ false
unfolding replace_from
contains-replace_self skip v [] plain = contains-nothing v plain.0
contains-replace_self (suc skip) v (c ∷ t) plain = contains-replace_self skip v t plain
contains-replace_self zero v (c ∷ t) plain = elim (Bool-cases (starts_with (c ∷ t) v)) [
  | inl here ↦ rw here (
      contains-redacted v (replace_from (length v - 1) v t) plain
      ∙ contains-replace_self (length v - 1) v t plain)
  | inr other ↦
      ground (
        arith,
        other,
        starts_with-replace v (c ∷ t) v plain.1,
        contains-replace_self zero v t plain,
      )
]

contains-replace :
    (skip : ℕ) (w v t : Text)
    → IsPlain v
    → contains t v ≡ false
    → contains (replace_from skip w t) v ≡ false
unfolding replace_from
contains-replace skip w v [] plain none = none
contains-replace (suc skip) w v (c ∷ t) plain none =
    contains-replace skip w v t plain (ground (arith, none))
contains-replace zero w v (c ∷ t) plain none = elim (Bool-cases (starts_with (c ∷ t) w)) [
  | inl here ↦ rw here (
      contains-redacted v (replace_from (length w - 1) w t) plain
      ∙ contains-replace (length w - 1) w v t plain (ground (arith, none)))
  | inr other ↦ ground (
    arith,
    other,
    none,
    starts_with-replace w (c ∷ t) v plain.1,
    contains-replace zero w v t plain (ground (arith, none)),
  )
]

redact-keeps :
    (vs : List Text) (v t : Text)
    → IsPlain v
    → contains t v ≡ false
    → contains (redact vs t) v ≡ false
unfolding redact
redact-keeps [] v t plain none = none
redact-keeps (w ∷ vs) v t plain none =
    redact-keeps vs v (replace_from zero w t) plain (contains-replace zero w v t plain none)

redact-member :
    (vs : List Text) (v t : Text)
    → IsPlain v
    → member v vs ≡ true
    → contains (redact vs t) v ≡ false
unfolding redact
redact-member [] v t plain there = absurd (ground (arith, there))
redact-member (w ∷ vs) v t plain there = elim (Bool-cases (text_eq v w)) [
  | inl same ↦
      redact-keeps vs v (replace_from zero w t) plain
        (rw (← (text_eq→eq v w same)) (contains-replace_self zero v t plain))
  | inr other ↦ redact-member vs v (replace_from zero w t) plain (ground (arith, other, there))
]

member-insert_longest :
    (v w : Text) (ws : List Text) → member v (insert_longest w ws) ≡ (text_eq v w || member v ws)
member-insert_longest v w [] = refl
member-insert_longest v w (x ∷ ws) = ground (arith, member-insert_longest v w ws)

member-longest_first : (v : Text) (vs : List Text) → member v (longest_first vs) ≡ member v vs
member-longest_first v [] = refl
member-longest_first v (w ∷ vs) =
    ground (arith, member-insert_longest v w (longest_first vs), member-longest_first v vs)

member-from_keys :
    (seen vs : List Text) (v : Text)
    → member v vs ≡ true
    → member v seen ≡ false
    → member v (from_keys seen vs) ≡ true
member-from_keys seen [] v there new = there
member-from_keys seen (w ∷ vs) v there new = elim (Bool-cases (text_eq v w)) [
  | inl same ↦ ground (arith, same, rw (text_eq→eq v w same) at new)
  | inr other ↦ ground (
    arith,
    other,
    there,
    new,
    member-from_keys seen vs v (ground (arith, other, there)) new,
    member-from_keys (w ∷ seen) vs v (ground (arith, other, there)) (ground (arith, other, new)),
  )
]

member-keep :
    (vs : List Text) (v : Text)
    → member v vs ≡ true
    → is_redactable v ≡ true
    → member v (keep is_redactable vs) ≡ true
member-keep [] v there long = there
member-keep (w ∷ vs) v there long = elim (Bool-cases (text_eq v w)) [
  | inl same ↦
      let here : is_redactable w ≡ true = rw (text_eq→eq v w same) at long in
      ground (arith, here, same)
  | inr other ↦ ground (arith, other, member-keep vs v (ground (arith, other, there)) long)
]

-- A secret of at least four characters that the redactor was made from is nowhere in a text that it
-- redacted, whatever the text and the other secrets are, if the secret has no asterisk and is no
-- part of the word REDACTED.
pub redact-hides :
    (values : List Text) (v t : Text)
    → member v values ≡ true
    → 4 ≤ length v
    → no_star v ≡ true
    → contains (codes "REDACTED") v ≡ false
    → contains (redact (redactor values) t) v ≡ false
unfolding redactor
redact-hides values v t there long starless word =
    let kept = from_keys [] (keep is_redactable values) in
    redact-member (longest_first kept) v t (omega (arith, long), starless, word)
      (member-longest_first v kept
        ∙ member-from_keys [] (keep is_redactable values) v
            (member-keep values v there (ground (arith, long))) refl)
