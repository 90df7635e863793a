-- ===== src/Portable/Names.antt =====
-- `order_by` the name, and `unique=True` on it, for the tables that app/portable.py reads.
use hivesync.Prelude.{
  ◌≡◌, refl, ◌||◌, Bool, true, false, Bool-cases, inl, inr, List, [], ◌∷◌, ◌++◌, map, Text, text_eq,
  text_le, if◌then◌else◌, arith,
}
use hivesync.Parsers.{member}

pub text_eq_sym : (s t : Text) → text_eq s t ≡ text_eq t s
text_eq_sym [] [] = refl
text_eq_sym [] (b ∷ t) = refl
text_eq_sym (a ∷ s) [] = refl
text_eq_sym (a ∷ s) (b ∷ t) = ground (arith, text_eq_sym s t)

module _ {ℓ} {A : Type ℓ} (key : A → Text) where
  abbrev pub insert_by : A → List A → List A
  insert_by a [] = a ∷ []
  insert_by a (b ∷ bs) =
      let rest = insert_by a bs in if text_le (key a) (key b) then a ∷ b ∷ bs else b ∷ rest

  unfoldable pub by_name : List A → List A
  by_name [] = []
  by_name (a ∷ as') = insert_by a (by_name as')

  abbrev pub has : Text → List A → Bool
  has n [] = false
  has n (a ∷ as') = text_eq n (key a) || has n as'

  abbrev pub Distinct : List A → Type 0
  Distinct [] = Unit
  Distinct (a ∷ as') = (has (key a) as' ≡ false) × Distinct as'

  -- None of the names is among those.
  abbrev pub apart : List Text → List A → Bool
  apart seen [] = true
  apart seen (a ∷ as') = let rest = apart seen as' in if member (key a) seen then false else rest

  has-insert :
      (n : Text) (a : A) (bs : List A) → has n (insert_by a bs) ≡ (text_eq n (key a) || has n bs)
  has-insert n a [] = refl
  has-insert n a (b ∷ bs) = ground (arith, has-insert n a bs)

  pub has-by_name : (n : Text) (xs : List A) → has n (by_name xs) ≡ has n xs
  unfolding by_name
  has-by_name n [] = refl
  has-by_name n (x ∷ xs) = ground (arith, has-insert n x (by_name xs), has-by_name n xs)

  Distinct-insert :
      (a : A) (bs : List A) → has (key a) bs ≡ false → Distinct bs → Distinct (insert_by a bs)
  Distinct-insert a [] h d = (refl, tt)
  Distinct-insert a (b ∷ bs) h d =
      let later = Distinct-insert a bs (ground (arith, h)) d.1 in
      elim (Bool-cases (text_le (key a) (key b))) [
        | inl le ↦ rw le (h, d)
        | inr gt ↦
            rw gt
              (ground (arith, h, d.0, has-insert (key b) a bs, text_eq_sym (key a) (key b)), later)
      ]

  pub Distinct-by_name : (xs : List A) → Distinct xs → Distinct (by_name xs)
  unfolding by_name
  Distinct-by_name [] d = tt
  Distinct-by_name (x ∷ xs) d =
      Distinct-insert x (by_name xs) (ground (arith, d.0, has-by_name (key x) xs))
        (Distinct-by_name xs d.1)

  pub apart_later :
      (a : A) (seen : List Text) (xs : List A)
      → has (key a) xs ≡ false
      → apart seen xs ≡ true
      → apart (key a ∷ seen) xs ≡ true
  apart_later a seen [] h free = refl
  apart_later a seen (x ∷ xs) h free =
      ground (arith, h, free, text_eq_sym (key a) (key x), apart_later a seen xs)

  pub apart_none : (xs : List A) → apart [] xs ≡ true
  apart_none [] = refl
  apart_none (x ∷ xs) = apart_none xs

  pub member-map : (n : Text) (xs : List A) → member n (map key xs) ≡ has n xs
  member-map n [] = refl
  member-map n (x ∷ xs) = ground (arith, member-map n xs)

  pub has-append : (n : Text) (xs ys : List A) → has n (xs ++ ys) ≡ (has n xs || has n ys)
  has-append n [] ys = refl
  has-append n (x ∷ xs) ys = ground (arith, has-append n xs ys)

  apart-insert :
      (seen : List Text) (a : A) (bs : List A)
      → member (key a) seen ≡ false
      → apart seen bs ≡ true
      → apart seen (insert_by a bs) ≡ true
  apart-insert seen a [] new free = ground (arith, new)
  apart-insert seen a (b ∷ bs) new free = ground (arith, new, free, apart-insert seen a bs new)

  pub apart-by_name :
      (seen : List Text) (xs : List A) → apart seen xs ≡ true → apart seen (by_name xs) ≡ true
  unfolding by_name
  apart-by_name seen [] free = refl
  apart-by_name seen (x ∷ xs) free =
      apart-insert seen x (by_name xs) (ground (arith, free))
        (apart-by_name seen xs (ground (arith, free)))

  module _ (P : A → Type 0) where
    abbrev pub Every : List A → Type 0
    Every [] = Unit
    Every (a ∷ as') = P a × Every as'

    Every-insert : (a : A) (bs : List A) → P a → Every bs → Every (insert_by a bs)
    Every-insert a [] p e = (p, tt)
    Every-insert a (b ∷ bs) p e =
        let later = Every-insert a bs p e.1 in
        elim (Bool-cases (text_le (key a) (key b))) [
          | inl le ↦ rw le (p, e)
          | inr gt ↦ rw gt (e.0, later)
        ]

    pub Every-by_name : (xs : List A) → Every xs → Every (by_name xs)
    unfolding by_name
    Every-by_name [] e = tt
    Every-by_name (x ∷ xs) e = Every-insert x (by_name xs) e.0 (Every-by_name xs e.1)
