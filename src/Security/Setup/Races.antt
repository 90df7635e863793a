-- ===== src/Security/Setup/Races.antt =====
-- Submissions of the setup wizard that race.
use hivesync.Prelude.{
  Text, text_eq, if◌then◌else◌, ℕ, suc, ◌≤◌, ◌≡◌, refl, ap, true, false, Bool-cases, none, some,
  List, [], ◌∷◌, ◌==◌, ==_iff, length, strip, non_empty, arith, inl, inr,
}
use hivesync.Security.Setup.{
  name_taken, is_taken, Submission, Phase, submitted, free, inserted, found, claimed, refused,
  Instance, without_user, checked, counted, proceed, step, steps, unclaimed, taken_meanwhile,
}
use hivesync.Security.Setup.Fair.{
  owner_of, is_claimed, listed, IsFair, Harmless, listed-without, listed_two, claimed-owner,
  after-IsFair,
}

checked-unowned :
    (users : List ℕ) (s : Submission)
    → (owner_of (checked users s) ≡ none) × (is_claimed (checked users s) ≡ false)
unfolding checked
checked-unowned users s = ground arith

counted-owner :
    (id total : ℕ)
    → (owner_of (counted id total) ≡ some id) × (is_claimed (counted id total) ≡ true → total ≡ 1)
unfolding counted
counted-owner id total = grind arith

unclaimed_here : (m n : ℕ) → (m == n) ≡ false → m ≡ n → ⊥
unclaimed_here m n other same = ground (arith, other, same)

module _ (i : Instance) (n : ℕ) (fair : IsFair i) where
  unowned-Harmless :
      (p : Phase) → owner_of p ≡ none → is_claimed p ≡ false → Harmless i n p i.users i.next_id
  unowned-Harmless p o c = record {
    others = λ m id d owned. fair.present m id owned;
    own = λ id owned. ground (arith, o, owned);
    alone = λ m id d owned also. ground (arith, o, owned);
    grows = omega arith;
    first = λ m d claims also. ground (arith, c, claims);
  }

  inserted-Harmless : Harmless i n (inserted i.next_id) (i.next_id ∷ i.users) (suc i.next_id)
  inserted-Harmless = record {
    others = λ m id d owned. ground (arith, fair.present m id owned);
    own = λ id owned. ground (arith, owned);
    alone = λ m id d owned also. ground (arith, owned, fair.fresh m id also);
    grows = omega arith;
    first = λ m d claims also. ground (arith, claims);
  }

  counted-Harmless :
      (id : ℕ)
      → i.phase n ≡ inserted id
      → Harmless i n (counted id (length i.users)) i.users i.next_id
  counted-Harmless id here =
      let mine : owner_of (i.phase n) ≡ some id = ground (arith, here) in
      let (still, total) = counted-owner id (length i.users) in
      record {
        others = λ m a d owned. fair.present m a owned;
        own = λ a owned.
            let same : a ≡ id = ground (arith, still, owned) in
            (rw same (fair.present n id mine), rw same (fair.fresh n id mine));
        alone = λ m a d owned also.
            let same : a ≡ id = ground (arith, still, owned) in
            unclaimed_here m n d (fair.apart m n id (rw same at also) mine);
        grows = omega arith;
        first = λ m d claims also.
            let (a, owned) = claimed-owner (i.phase m) also in
            let same =
              listed_two a id i.users (fair.present m a owned) (fair.present n id mine)
                (omega (arith, total claims)) in
            unclaimed_here m n d (fair.apart m n id (rw same at owned) mine);
      }

  withdrawn-Harmless :
      (id total : ℕ)
      → i.phase n ≡ found id total
      → Harmless i n (refused taken_meanwhile) (without_user id i.users) i.next_id
  withdrawn-Harmless id total here =
      let mine : owner_of (i.phase n) ≡ some id = ground (arith, here) in
      record {
        others = λ m a d owned. elim (Bool-cases (a == id)) [
          | inl same ↦
              let equal = (==_iff a id).0 same in
              absurd (unclaimed_here m n d (fair.apart m n id (rw equal at owned) mine))
          | inr other ↦ listed-without a id i.users other (fair.present m a owned)
        ];
        own = λ a owned. ground (arith, owned);
        alone = λ m a d owned also. ground (arith, owned);
        grows = omega arith;
        first = λ m d claims also. ground (arith, claims);
      }

named-IsFair : {i : Instance} (names : ℕ → Text) → IsFair i → IsFair (record i { name_of = names })
named-IsFair names fair = record {
  present = fair.present;
  fresh = fair.fresh;
  apart = fair.apart;
  single = fair.single;
}

proceed-IsFair :
    (n : ℕ) (s : Submission) (p : Phase) (i : Instance)
    → i.phase n ≡ p
    → IsFair i
    → IsFair (proceed n s p i)
unfolding proceed
proceed-IsFair n s submitted i here fair =
    let (o, c) = checked-unowned i.users s in
    after-IsFair i n (checked i.users s) i.users i.next_id fair
      (unowned-Harmless i n fair (checked i.users s) o c)
proceed-IsFair n s free i here fair = elim (Bool-cases (is_taken (strip s.username) i)) [
  | inl taken ↦ rw taken (
      after-IsFair i n (refused name_taken) i.users i.next_id fair
        (unowned-Harmless i n fair (refused name_taken) refl refl))
  | inr unused ↦ rw unused (
      named-IsFair (λ u. if u == i.next_id then strip s.username else i.name_of u)
        (after-IsFair i n (inserted i.next_id) (i.next_id ∷ i.users) (suc i.next_id) fair
          (inserted-Harmless i n fair)))
]
proceed-IsFair n s (inserted id) i here fair =
    after-IsFair i n (counted id (length i.users)) i.users i.next_id fair
      (counted-Harmless i n fair id here)
proceed-IsFair n s (found id total) i here fair =
    after-IsFair i n (refused taken_meanwhile) (without_user id i.users) i.next_id fair
      (withdrawn-Harmless i n fair id total here)
proceed-IsFair n s (claimed id) i here fair = fair
proceed-IsFair n s (refused why) i here fair = fair

steps-IsFair :
    (asked : ℕ → Submission) (schedule : List ℕ) (i : Instance)
    → IsFair i
    → IsFair (steps asked schedule i)
unfolding steps step
steps-IsFair asked [] i fair = fair
steps-IsFair asked (n ∷ ns) i fair =
    steps-IsFair asked ns (step asked n i) (proceed-IsFair n (asked n) (i.phase n) i refl fair)

unclaimed-IsFair : IsFair unclaimed
unclaimed-IsFair = record {
  present = λ n id owned. ground (arith, owned);
  fresh = λ n id owned. ground (arith, owned);
  apart = λ n m id owned also. ground (arith, owned);
  single = λ n m claims also. ground (arith, claims);
}

-- However many submissions of the wizard run side by side, and in whatever order their statements
-- are carried out: at most one of them claims the instance, and the account of one that has claimed
-- it is still in the user table.
pub one_admin :
    (asked : ℕ → Submission) (schedule : List ℕ) (n m : ℕ)
    → let after = steps asked schedule unclaimed in
      is_claimed (after.phase n) ≡ true
      → (is_claimed (after.phase m) ≡ true → n ≡ m)
        × ((id : ℕ) → after.phase n ≡ claimed id → listed id after.users ≡ true)
one_admin asked schedule n m h =
    let fair = steps-IsFair asked schedule unclaimed unclaimed-IsFair in
    (λ also. fair.single n m h also, λ id here. fair.present n id (ap owner_of here))

abbrev pub IsAcceptable : Submission → Type 0
IsAcceptable s = (12 ≤ length s.password) × (non_empty (strip s.username) ≡ true)

-- Two submissions that take turns, each acceptable and with different usernames, are both discarded:
-- each is told that another account was created, and the instance has none.
pub both_discarded :
    (asked : ℕ → Submission)
    → IsAcceptable (asked 0)
    → IsAcceptable (asked 1)
    → text_eq (strip (asked 0).username) (strip (asked 1).username) ≡ false
    → let after = steps asked (0 ∷ 1 ∷ 0 ∷ 1 ∷ 0 ∷ 1 ∷ 0 ∷ 1 ∷ []) unclaimed in
      (after.users ≡ [])
      × (after.phase 0 ≡ refused taken_meanwhile)
      × (after.phase 1 ≡ refused taken_meanwhile)
unfolding steps step proceed checked counted
both_discarded asked h0 h1 apart =
    (ground (arith, h0, h1), ground (arith, h0, h1), ground (arith, h0, h1))
