-- ===== src/Capabilities/Unknown.antt =====
-- The reasons of `intersect` of app/capabilities.py where an endpoint was not tested.
use hivesync.Prelude.{
  ℕ, ◌≡◌, refl, ◌≤◌, ◌⊎◌, inl, inr, false, List, [], ◌∷◌, length, arith, Bool-cases,
}
use hivesync.Models.{Connection}
use hivesync.Capabilities.{
  Capabilities, was_probed, Blocked, unprobed, both_probed, supports_move, checksum_of, intersect,
  blocked_reasons,
}

module _ (source dest : Connection) (a b : Capabilities) where
  -- The reason says that an endpoint was not tested, and names one that was not.
  abbrev pub NamesUnprobed : Blocked → Type 0
  NamesUnprobed why =
      ((why ≡ unprobed source.name) × (was_probed a ≡ false))
      ⊎ ((why ≡ unprobed dest.name) × (was_probed b ≡ false))

  abbrev pub EachNames : List Blocked → Type 0
  EachNames [] = Unit
  EachNames (why ∷ reasons) = NamesUnprobed why × EachNames reasons

-- Where an endpoint was not tested, at least three options are blocked, and each reason that is given
-- says so and names an endpoint that was not tested: none says that something is unsupported.
pub unknown_not_unsupported :
    (now : ℕ) (source dest : Connection) (a b : Capabilities)
    → both_probed now source dest a b ≡ false
    → EachNames source dest a b (blocked_reasons (intersect now source dest a b))
      × (3 ≤ length (blocked_reasons (intersect now source dest a b)))
unfolding intersect checksum_of blocked_reasons
unknown_not_unsupported now source dest a b missing = elim (Bool-cases (was_probed a)) [
  | inl yes_a ↦ elim (Bool-cases (was_probed b)) [
    | inl yes_b ↦ absurd (ground (arith, yes_a, yes_b, missing))
    | inr no_b ↦
        rw (yes_a, no_b)
          (
            (inr (refl, no_b), (inr (refl, no_b), (inr (refl, no_b), (inr (refl, no_b), tt)))),
            omega arith,
          )
  ]
  | inr no_a ↦ elim (Bool-cases (was_probed b)) [
    | inl yes_b ↦ elim (Bool-cases (supports_move b)) [
      | inl moves ↦
          rw (no_a, yes_b, moves)
            ((inl (refl, no_a), (inl (refl, no_a), (inl (refl, no_a), tt))), omega arith)
      | inr slow ↦
          rw (no_a, yes_b, slow)
            ((inl (refl, no_a), (inl (refl, no_a), (inl (refl, no_a), tt))), omega arith)
    ]
    | inr no_b ↦
        rw (no_a, no_b)
          (
            (inl (refl, no_a), (inl (refl, no_a), (inr (refl, no_b), (inl (refl, no_a), tt)))),
            omega arith,
          )
  ]
]
