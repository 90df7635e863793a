-- ===== src/RateLimit.antt =====
-- app/ratelimit.py: failed sign ins, counted per user name and per address. The table is the list of
-- its rows, the newest first; times are whole seconds. `str.lower` is Unicode's, a parameter.
pub mod Lock
use hivesync.Prelude.{
  ℕ, ◌+◌, ◌-◌, Bool, true, false, not, ◌&&◌, ◌||◌, Option, none, some, List, [], ◌∷◌, ◌++◌, Text,
  text_eq, non_empty, ltb, leb, if◌then◌else◌, keep, length, min, max,
}

pub data AttemptScope : Type 0 where
  username address : AttemptScope

abbrev pub scope_eq : AttemptScope → AttemptScope → Bool
scope_eq username username = true
scope_eq address address = true
scope_eq _ _ = false

pub record LoginAttempt : Type 0 where
  pub scope : AttemptScope
  pub value : Text
  pub attempted_at : ℕ

pub record Verdict : Type 0 where
  pub allowed : Bool
  pub retry_after_seconds : ℕ
  pub scope : Option AttemptScope

-- `RETENTION`, seven days.
abbrev pub retention : ℕ
retention = 604800

-- The rows of one scope and value since a time.
abbrev pub counts : AttemptScope → Text → ℕ → LoginAttempt → Bool
counts scope value since a =
    scope_eq a.scope scope && (text_eq a.value value && leb since a.attempted_at)

unfoldable pub recent : AttemptScope → Text → ℕ → List LoginAttempt → ℕ
recent scope value since attempts = length (keep (counts scope value since) attempts)

abbrev pub earliest : List LoginAttempt → Option ℕ
earliest [] = none
earliest (a ∷ as') = elim (earliest as') [
  | none ↦ some a.attempted_at
  | some t ↦ some (min a.attempted_at t)
]

unfoldable pub oldest_in_window : AttemptScope → Text → ℕ → List LoginAttempt → Option ℕ
oldest_in_window scope value since attempts = earliest (keep (counts scope value since) attempts)

abbrev pub pass : Verdict
pass = record { allowed = true; retry_after_seconds = 0; scope = none }

-- One round of the loop over the scopes: `none` goes on to the next.
unfoldable pub scope_verdict :
    ℕ → ℕ → ℕ → ℕ → List LoginAttempt → AttemptScope → Text → Option Verdict
unfolding recent oldest_in_window
scope_verdict limit window now later attempts scope value =
    let since = now - window in
    if not (non_empty value)
    then none
    else if ltb (recent scope value since attempts) limit
    then none
    else elim (oldest_in_window scope value since attempts) [
      | none ↦ none
      | some oldest ↦ some (record {
        allowed = false;
        retry_after_seconds = max (oldest + window - later) 1;
        scope = some scope;
      })
    ]

abbrev pub first_verdict : Option Verdict → Option Verdict → Verdict
first_verdict (some v) second = v
first_verdict none (some v) = v
first_verdict none none = pass

module _ (lower : Text → Text) where
  -- `now` and `later` are the two readings of the clock.
  unfoldable pub check : ℕ → ℕ → ℕ → ℕ → Text → Text → List LoginAttempt → Verdict
  unfolding scope_verdict
  check limit window now later user from attempts =
      first_verdict (scope_verdict limit window now later attempts username (lower user))
        (scope_verdict limit window now later attempts address from)

  abbrev pub added : AttemptScope → Text → ℕ → Bool → List LoginAttempt → List LoginAttempt
  added scope value now false attempts = attempts
  added scope value now true attempts =
      record { scope = scope; value = value; attempted_at = now } ∷ attempts

  unfoldable pub record_failure : ℕ → Text → Text → List LoginAttempt → List LoginAttempt
  record_failure now user from attempts =
      keep (λ a. not (ltb a.attempted_at (now - retention)))
        (added address from now (non_empty from)
          (added username (lower user) now (non_empty user) attempts))

  unfoldable pub clear : Text → Text → List LoginAttempt → List LoginAttempt
  clear user from attempts =
      keep
        (λ a. not (
          (scope_eq a.scope username && text_eq a.value (lower user))
          || (scope_eq a.scope address && text_eq a.value from)))
        attempts
