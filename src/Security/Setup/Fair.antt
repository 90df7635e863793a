-- ===== src/Security/Setup/Fair.antt =====
-- Who has which account while the submissions of `create_first_admin` in app/security.py run.
use hivesync.Prelude.{
  ℕ, ◌≤◌, ◌<◌, ◌≡◌, refl, Bool, true, false, Bool-cases, Option, none, some, List, [], ◌∷◌, ◌==◌,
  if◌then◌else◌, length, arith, inl, inr,
}
use hivesync.Security.Setup.{
  Phase, submitted, free, inserted, found, claimed, refused, Instance, without_user, at_phase,
}

abbrev pub owner_of : Phase → Option ℕ
owner_of (inserted id) = some id
owner_of (found id total) = some id
owner_of (claimed id) = some id
owner_of _ = none

abbrev pub is_claimed : Phase → Bool
is_claimed (claimed id) = true
is_claimed _ = false

abbrev pub listed : ℕ → List ℕ → Bool
listed a [] = false
listed a (u ∷ us) = let rest = listed a us in if u == a then true else rest

-- The account of each submission that has one is in the table, no two have the same one, and no two
-- submissions have claimed the instance.
pub record IsFair (i : Instance) : Type 0 where
  pub present : (n id : ℕ) → owner_of (i.phase n) ≡ some id → listed id i.users ≡ true
  pub fresh : (n id : ℕ) → owner_of (i.phase n) ≡ some id → id < i.next_id
  pub apart : (n m id : ℕ) → owner_of (i.phase n) ≡ some id → owner_of (i.phase m) ≡ some id → n ≡ m
  pub single : (n m : ℕ) → is_claimed (i.phase n) ≡ true → is_claimed (i.phase m) ≡ true → n ≡ m

pub listed-without :
    (a b : ℕ) (us : List ℕ)
    → (a == b) ≡ false
    → listed a us ≡ true
    → listed a (without_user b us) ≡ true
listed-without a b [] d h = h
listed-without a b (u ∷ us) d h = ground (arith, listed-without a b us d)

-- Two listed accounts are two rows.
pub listed_two :
    (a b : ℕ) (us : List ℕ) → listed a us ≡ true → listed b us ≡ true → length us ≤ 1 → a ≡ b
listed_two a b [] ha hb h = ground (arith, ha)
listed_two a b (u ∷ []) ha hb h = ground (arith, ha, hb)
listed_two a b (u ∷ v ∷ us) ha hb h = ground (arith, h)

pub claimed-owner : (p : Phase) → is_claimed p ≡ true → (id : ℕ) × (owner_of p ≡ some id)
claimed-owner (claimed id) h = (id, refl)
claimed-owner submitted h = ground (arith, h)
claimed-owner free h = ground (arith, h)
claimed-owner (inserted id) h = ground (arith, h)
claimed-owner (found id total) h = ground (arith, h)
claimed-owner (refused why) h = ground (arith, h)

-- What a step of submission `n` may do: the other accounts stay, its own is there and nobody
-- else's, and it claims only where nobody has.
pub record Harmless (i : Instance) (n : ℕ) (p : Phase) (users : List ℕ) (next_id : ℕ) : Type 0 where
  pub others :
      (m id : ℕ) → (m == n) ≡ false → owner_of (i.phase m) ≡ some id → listed id users ≡ true
  pub own : (id : ℕ) → owner_of p ≡ some id → (listed id users ≡ true) × (id < next_id)
  pub alone :
      (m id : ℕ) → (m == n) ≡ false → owner_of p ≡ some id → owner_of (i.phase m) ≡ some id → ⊥
  pub grows : i.next_id ≤ next_id
  pub first : (m : ℕ) → (m == n) ≡ false → is_claimed p ≡ true → is_claimed (i.phase m) ≡ true → ⊥

abbrev pub after : Instance → ℕ → Phase → List ℕ → ℕ → Instance
after i n p users next_id = at_phase n p (record i { users = users; next_id = next_id })

module _ (i : Instance) (n : ℕ) (p : Phase) (users : List ℕ) (next_id : ℕ) (fair : IsFair i)
    (h : Harmless i n p users next_id) where
  after-present :
      (m id : ℕ) → owner_of ((after i n p users next_id).phase m) ≡ some id → listed id users ≡ true
  after-present m id o = elim (Bool-cases (m == n)) [
    | inl same ↦ (h.own id (rw same at o)).0
    | inr other ↦ h.others m id other (rw other at o)
  ]

  after-fresh : (m id : ℕ) → owner_of ((after i n p users next_id).phase m) ≡ some id → id < next_id
  after-fresh m id o = elim (Bool-cases (m == n)) [
    | inl same ↦ (h.own id (rw same at o)).1
    | inr other ↦ omega (arith, fair.fresh m id (rw other at o), h.grows)
  ]

  after-apart :
      (m k id : ℕ)
      → owner_of ((after i n p users next_id).phase m) ≡ some id
      → owner_of ((after i n p users next_id).phase k) ≡ some id
      → m ≡ k
  after-apart m k id om ok = elim (Bool-cases (m == n)) [
    | inl same ↦ elim (Bool-cases (k == n)) [
      | inl same' ↦ ground (arith, same, same')
      | inr other' ↦ absurd (h.alone k id other' (rw same at om) (rw other' at ok))
    ]
    | inr other ↦ elim (Bool-cases (k == n)) [
      | inl same' ↦ absurd (h.alone m id other (rw same' at ok) (rw other at om))
      | inr other' ↦ fair.apart m k id (rw other at om) (rw other' at ok)
    ]
  ]

  after-single :
      (m k : ℕ)
      → is_claimed ((after i n p users next_id).phase m) ≡ true
      → is_claimed ((after i n p users next_id).phase k) ≡ true
      → m ≡ k
  after-single m k cm ck = elim (Bool-cases (m == n)) [
    | inl same ↦ elim (Bool-cases (k == n)) [
      | inl same' ↦ ground (arith, same, same')
      | inr other' ↦ absurd (h.first k other' (rw same at cm) (rw other' at ck))
    ]
    | inr other ↦ elim (Bool-cases (k == n)) [
      | inl same' ↦ absurd (h.first m other (rw same' at ck) (rw other at cm))
      | inr other' ↦ fair.single m k (rw other at cm) (rw other' at ck)
    ]
  ]

  pub after-IsFair : IsFair (after i n p users next_id)
  after-IsFair = record {
    present = after-present;
    fresh = after-fresh;
    apart = after-apart;
    single = after-single;
  }
