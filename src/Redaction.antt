-- ===== src/Redaction.antt =====
-- `Redactor` of app/crypto.py. The set of the values is a list without repetitions.
pub mod Hidden
use hivesync.Prelude.{
  ℕ, zero, suc, ◌-◌, Bool, true, false, Option, List, [], ◌∷◌, ◌++◌, Text, codes, starts_with,
  non_empty, ltb, leb, if◌then◌else◌, length, keep, map,
}
use hivesync.Prelude.Parts.{join_with}
use hivesync.Parsers.{from_keys}

-- `REDACTED`
abbrev pub redacted : Text
redacted = codes "***REDACTED***"

-- `_MIN_REDACTABLE_LENGTH`
abbrev pub min_redactable_length : ℕ
min_redactable_length = 4

abbrev pub is_redactable : Text → Bool
is_redactable value = leb min_redactable_length (length value)

abbrev pub insert_longest : Text → List Text → List Text
insert_longest v [] = v ∷ []
insert_longest v (w ∷ ws) =
    let rest = insert_longest v ws in if ltb (length v) (length w) then w ∷ rest else v ∷ w ∷ ws

-- `sorted(unique, key=len, reverse=True)`
abbrev pub longest_first : List Text → List Text
longest_first [] = []
longest_first (v ∷ vs) = insert_longest v (longest_first vs)

-- `Redactor(values)`
unfoldable pub redactor : List Text → List Text
redactor values = longest_first (from_keys [] (keep is_redactable values))

-- `text.replace(value, REDACTED)` for a value that is not empty; the first number is how many
-- characters of an occurrence are still to be passed over.
unfoldable pub replace_from : ℕ → Text → Text → Text
replace_from skip value [] = []
replace_from (suc skip) value (c ∷ t) = replace_from skip value t
replace_from zero value (c ∷ t) =
    let plain = c ∷ replace_from zero value t in
    let masked = redacted ++ replace_from (length value - 1) value t in
    if starts_with (c ∷ t) value then masked else plain

-- `Redactor.redact`
unfoldable pub redact : List Text → Text → Text
unfolding replace_from
redact [] t = t
redact (v ∷ vs) t = redact vs (replace_from zero v t)

-- `Redactor.redact_argv`
unfoldable pub redact_argv : List Text → List Text → List Text
redact_argv values argv = map (redact values) argv

-- `Redactor.redacted_command_line`
unfoldable pub redacted_command_line : List Text → List Text → Text
unfolding redact_argv
redacted_command_line values argv = join_with (codes " ") (redact_argv values argv)
