-- ===== src/Security/Setup.antt =====
-- `create_first_admin` of app/security.py as a process: the wizard's submissions run side by side,
-- and each statement on the database is one step of the one that makes it.
pub mod Fair
pub mod Races
use hivesync.Prelude.{
  any, text_eq, ℕ, suc, ◌+◌, Bool, true, false, ◌||◌, Option, none, some, List, [], ◌∷◌, Text, ltb,
  ◌==◌, if◌then◌else◌, length, keep, not, strip, non_empty,
}

-- `MIN_PASSWORD_LENGTH`
abbrev pub min_password_length : ℕ
min_password_length = 12

pub data Refused : Type 0 where
  already_set_up weak_password no_username name_taken taken_meanwhile : Refused

pub record Submission : Type 0 where
  pub username : Text
  pub password : Text

-- Where a submission is in `create_first_admin`: `found n` has counted `n` accounts after its own
-- insertion.
pub data Phase : Type 0 where
  submitted : Phase
  free : Phase
  inserted : ℕ → Phase
  found : ℕ → ℕ → Phase
  claimed : ℕ → Phase
  refused : Refused → Phase

-- The user table as the list of its ids with the name of each, and the phase of each submission.
pub record Instance : Type 0 where
  pub users : List ℕ
  pub name_of : ℕ → Text
  pub next_id : ℕ
  pub phase : ℕ → Phase

-- `needs_setup`
abbrev pub needs_setup : List ℕ → Bool
needs_setup [] = true
needs_setup (u ∷ us) = false

abbrev pub without_user : ℕ → List ℕ → List ℕ
without_user id users = keep (λ u. not (u == id)) users

unfoldable pub checked : List ℕ → Submission → Phase
checked users s =
    if needs_setup users
    then (if ltb (length s.password) min_password_length
        then refused weak_password
        else if non_empty (strip s.username)
        then free
        else refused no_username)
    else refused already_set_up

unfoldable pub counted : ℕ → ℕ → Phase
counted id total = if total == 1 then claimed id else found id total

abbrev pub at_phase : ℕ → Phase → Instance → Instance
at_phase n p i = record i { phase = λ m. if m == n then p else i.phase m }

-- The unique index on `User.username`.
abbrev pub is_taken : Text → Instance → Bool
is_taken name i = any (λ u. text_eq (i.name_of u) name) i.users

abbrev pub with_user : Text → Instance → Instance
with_user name i = record i {
  users = i.next_id ∷ i.users;
  next_id = suc i.next_id;
  name_of = λ u. if u == i.next_id then name else i.name_of u;
}

-- The next statement of submission `n`. An insertion that the index refuses is an `IntegrityError`,
-- which ends the submission.
unfoldable pub proceed : ℕ → Submission → Phase → Instance → Instance
unfolding checked counted
proceed n s submitted i = at_phase n (checked i.users s) i
proceed n s free i =
    if is_taken (strip s.username) i
    then at_phase n (refused name_taken) i
    else at_phase n (inserted i.next_id) (with_user (strip s.username) i)
proceed n s (inserted id) i = at_phase n (counted id (length i.users)) i
proceed n s (found id total) i =
    at_phase n (refused taken_meanwhile) (record i { users = without_user id i.users })
proceed n s (claimed id) i = i
proceed n s (refused why) i = i

unfoldable pub step : (ℕ → Submission) → ℕ → Instance → Instance
step asked n i = proceed n (asked n) (i.phase n) i

-- The submissions take their steps in the order of a schedule.
unfoldable pub steps : (ℕ → Submission) → List ℕ → Instance → Instance
steps asked [] i = i
steps asked (n ∷ ns) i = steps asked ns (step asked n i)

abbrev pub unclaimed : Instance
unclaimed = record { users = []; name_of = λ u. []; next_id = 1; phase = λ n. submitted }
