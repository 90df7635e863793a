-- ===== src/RateLimit/Lock.antt =====
-- When app/ratelimit.py refuses a sign in, and when it stops.
use hivesync.Prelude.{
  ℕ, suc, ◌-◌, ◌≤◌, ◌≡◌, refl, true, false, Bool-cases, not, some, Option-cases, List, [], ◌∷◌,
  Text, text_eq_refl, non_empty, ltb, keep, length, min, arith, inl, inr,
}
use hivesync.RateLimit.{
  AttemptScope, username, address, LoginAttempt, retention, counts, recent, earliest,
  oldest_in_window, pass, scope_verdict, check, added, record_failure, clear,
}

-- The sweep removes nothing that counts.
recent-sweep :
    (scope : AttemptScope) (value : Text) (since cut : ℕ) (attempts : List LoginAttempt)
    → cut ≤ since
    → recent scope value since (keep (λ a. not (ltb a.attempted_at cut)) attempts)
      ≡ recent scope value since attempts
unfolding recent
recent-sweep scope value since cut [] h = refl
recent-sweep scope value since cut (a ∷ as') h =
    ground (arith, h, recent-sweep scope value since cut as' h)

-- Where rows count there is an oldest one.
oldest-there :
    (scope : AttemptScope) (value : Text) (since : ℕ) (attempts : List LoginAttempt)
    → 1 ≤ recent scope value since attempts
    → (t : ℕ) × (oldest_in_window scope value since attempts ≡ some t)
unfolding recent oldest_in_window
oldest-there scope value since attempts h = go (keep (counts scope value since) attempts) h
  where
    go : (rows : List LoginAttempt) → 1 ≤ length rows → (t : ℕ) × (earliest rows ≡ some t)
    go [] h = ground (arith, h)
    go (a ∷ as') h = elim (Option-cases (earliest as')) [
      | inl gone ↦ (a.attempted_at, ground (arith, gone))
      | inr (t, there) ↦ (min a.attempted_at t, ground (arith, there))
    ]

module _ (lower : Text → Text) where
  -- Failures of one user, each with its time and the address it came from, the newest first.
  unfoldable pub failures : Text → List (ℕ × Text) → List LoginAttempt → List LoginAttempt
  failures user [] attempts = attempts
  failures user ((at, from) ∷ rest) attempts =
      record_failure lower at user from (failures user rest attempts)

  -- Each of them is within the window and not in the future.
  abbrev pub Within : ℕ → ℕ → List (ℕ × Text) → Type 0
  Within window now [] = Unit
  Within window now ((at, from) ∷ rest) = (now - window ≤ at) × (at ≤ now) × Within window now rest

  recent-added :
      (user from : Text) (at since : ℕ) (attempts : List LoginAttempt)
      → non_empty user ≡ true
      → since ≤ at
      → recent username (lower user) since (
          added lower address from at
            (non_empty from)
            (added lower username (lower user) at (non_empty user) attempts))
        ≡ suc (recent username (lower user) since attempts)
  unfolding recent
  recent-added user from at since attempts named h =
      ground (arith, named, h, text_eq_refl (lower user), Bool-cases (non_empty from))

  recent-failures :
      (user : Text) (window now : ℕ) (tries : List (ℕ × Text)) (attempts : List LoginAttempt)
      → non_empty user ≡ true
      → window ≤ retention
      → Within window now tries
      → length tries ≤ recent username (lower user) (now - window) (failures user tries attempts)
  unfolding failures record_failure
  recent-failures user window now [] attempts named short h = omega arith
  recent-failures user window now ((at, from) ∷ rest) attempts named short h = omega (
    arith,
    recent-sweep username (lower user) (now - window) (at - retention)
        (added lower address from at (non_empty from)
          (added lower username (lower user) at (non_empty user) (failures user rest attempts)))
        (omega (arith, short, h.1)),
    recent-added user from at (now - window) (failures user rest attempts) named h.0,
    recent-failures user window now rest attempts named short h.2,
  )

  -- As many failures of a user as the limit lock that user, whatever addresses they came from and
  -- whatever address tries next, as long as they are in the window and the window is not longer
  -- than the seven days that failures are kept.
  pub failures_lock :
      (user from : Text) (limit window now later : ℕ) (tries : List (ℕ × Text))
      (attempts : List LoginAttempt)
      → non_empty user ≡ true
      → non_empty (lower user) ≡ true
      → window ≤ 604800
      → 1 ≤ limit
      → limit ≤ length tries
      → Within window now tries
      → let verdict = check lower limit window now later user from (failures user tries attempts) in
        (verdict.allowed ≡ false) × (1 ≤ verdict.retry_after_seconds)
  unfolding check scope_verdict
  failures_lock user from limit window now later tries attempts named lowered short some_limit
        enough h =
      let rows = failures user tries attempts in
      let many = recent-failures user window now tries attempts named short h in
      let (oldest, there) =
        oldest-there username (lower user) (now - window) rows
          (omega (arith, many, some_limit, enough)) in
      ground (arith, lowered, many, enough, there)

  cleared-none :
      (user from : Text) (since : ℕ) (attempts : List LoginAttempt)
      → (recent username (lower user) since (clear lower user from attempts) ≡ 0)
        × (recent address from since (clear lower user from attempts) ≡ 0)
  unfolding recent clear
  cleared-none user from since [] = (refl, refl)
  cleared-none user from since (a ∷ as') = ground (arith, cleared-none user from since as')

  -- After a successful sign in the same user may try again from the same address, whatever failed
  -- before, if the limit is at least one.
  pub clear-allows :
      (user from : Text) (limit window now later : ℕ) (attempts : List LoginAttempt)
      → 1 ≤ limit
      → check lower limit window now later user from (clear lower user from attempts) ≡ pass
  unfolding check scope_verdict
  clear-allows user from limit window now later attempts h =
      ground (arith, h, cleared-none user from (now - window) attempts)
