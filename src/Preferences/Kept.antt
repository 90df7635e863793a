-- ===== src/Preferences/Kept.antt =====
-- `load` of what `save` wrote, in app/preferences.py.
use hivesync.Prelude.{
  ℕ, ◌≡◌, refl, ◌≤◌, ◌∙◌, ap, inl, inr, Bool, true, false, Bool-cases, not, ◌||◌, Option, none,
  some, [], ◌∷◌, ◌++◌, Text, codes, text_eq, text_eq→eq, starts_with, non_empty, decimal,
  non_empty-decimal, strip, if◌then◌else◌, length, drop, arith,
}
use hivesync.Preferences.{
  Preferences, NotifyTarget, off, webhook, ntfy, discord, Clock, full_day, half_day, SettingRows,
  lookup, put_row, prefix, dump, save_rows, save, stored_rows, model_validate, of_rows, load,
  target_text, clock_text, days_text, read_target, read_clock, read_optional_days, read_int,
  read_days, known_zone, or_defaults,
}

text_eq_apart : (i j k : Text) → text_eq i k ≡ false → text_eq k j ≡ true → text_eq i j ≡ false
text_eq_apart i j k apart same = rw (text_eq→eq k j same) at apart

lookup-put_row :
    (j k v : Text) (rows : SettingRows)
    → lookup j (put_row k v rows) ≡ (if text_eq k j then some v else lookup j rows)
lookup-put_row j k v [] = refl
lookup-put_row j k v ((i, u) ∷ rows) = elim (Bool-cases (text_eq i k)) [
  | inl same ↦ ground (arith, same, ap (λ x. text_eq x j) (text_eq→eq i k same))
  | inr other ↦ elim (Bool-cases (text_eq k j)) [
    | inl this ↦
        ground (arith, other, this, text_eq_apart i j k other this, lookup-put_row j k v rows)
    | inr that ↦ ground (arith, other, that, lookup-put_row j k v rows)
  ]
]

no_prefix : (j k : Text) → starts_with j prefix ≡ false → text_eq j (prefix ++ k) ≡ false
no_prefix j k h = elim (Bool-cases (text_eq j (prefix ++ k))) [
  | inr other ↦ other
  | inl same ↦
      let found : true ≡ false = rw (text_eq→eq j (prefix ++ k) same) at h in
      absurd (ground (arith, found))
]

prefixed : (k p : Text) → starts_with k p ≡ true → k ≡ p ++ drop (length p) k
prefixed k [] h = refl
prefixed [] (b ∷ p) h = ground (arith, h)
prefixed (a ∷ k) (b ∷ p) h = ground (arith, h, prefixed k p)

-- The newest of the rows with the key.
abbrev newest : Text → SettingRows → Option Text → Option Text
newest j [] rest = rest
newest j ((k, v) ∷ rows) rest = newest j rows (if text_eq k j then some v else rest)

lookup-save_rows :
    (j : Text) (rows table : SettingRows)
    → lookup (prefix ++ j) (save_rows rows table) ≡ newest j rows (lookup (prefix ++ j) table)
unfolding save_rows
lookup-save_rows j [] table = refl
lookup-save_rows j ((k, v) ∷ rows) table =
    lookup-save_rows j rows (put_row (prefix ++ k) v table)
    ∙ ap (newest j rows) (lookup-put_row (prefix ++ j) (prefix ++ k) v table)

text_eq_sym : (s t : Text) → text_eq s t ≡ text_eq t s
text_eq_sym [] [] = refl
text_eq_sym [] (b ∷ t) = refl
text_eq_sym (a ∷ s) [] = refl
text_eq_sym (a ∷ s) (b ∷ t) = ground (arith, text_eq_sym s t)

-- A key without the prefix.
pub lookup-save_rows_other :
    (j : Text) (rows table : SettingRows)
    → starts_with j prefix ≡ false
    → lookup j (save_rows rows table) ≡ lookup j table
unfolding save_rows
lookup-save_rows_other j [] table h = refl
lookup-save_rows_other j ((k, v) ∷ rows) table h =
    let other : text_eq (prefix ++ k) j ≡ false = text_eq_sym (prefix ++ k) j ∙ no_prefix j k h in
    lookup-save_rows_other j rows (put_row (prefix ++ k) v table) h
    ∙ lookup-put_row j (prefix ++ k) v table
    ∙ rw other refl

pub lookup-stored_rows :
    (j : Text) (table : SettingRows) → lookup j (stored_rows table) ≡ lookup (prefix ++ j) table
unfolding stored_rows
lookup-stored_rows j [] = refl
lookup-stored_rows j ((k, v) ∷ table) = elim (Bool-cases (starts_with k prefix)) [
  | inl ours ↦
      let same : text_eq k (prefix ++ j) ≡ text_eq (drop (length prefix) k) j =
        ap (λ x. text_eq x (prefix ++ j)) (prefixed k prefix ours) in
      ground (arith, ours, same, lookup-stored_rows j table)
  | inr foreign ↦ ground (arith, foreign, no_prefix k j foreign, lookup-stored_rows j table)
]

saved :
    (j : Text) (p : Preferences) (table : SettingRows)
    → lookup j (stored_rows (save p table)) ≡ newest j (dump p) (lookup (prefix ++ j) table)
unfolding save
saved j p table = lookup-stored_rows j (save p table) ∙ lookup-save_rows j (dump p) table

abbrev pub DaysValid : Option ℕ → Type 0
DaysValid none = Unit
DaysValid (some n) = 1 ≤ n

-- What pydantic accepts.
pub record IsValid (is_zone : Text → Bool) (p : Preferences) : Type 0 where
  pub timeout : (1 ≤ p.notify_timeout_seconds) × (p.notify_timeout_seconds ≤ 60)
  pub days : DaysValid p.archive_retention_days
  pub history : (10 ≤ p.run_history_keep) × (p.run_history_keep ≤ 10000)
  pub logs : (1 ≤ p.log_retention_days) × (p.log_retention_days ≤ 3650)
  pub size : (16 ≤ p.log_max_total_mb) × (p.log_max_total_mb ≤ 102400)
  pub at_once : p.max_concurrent_runs ≤ 32
  pub zone : strip p.display_timezone ≡ p.display_timezone
  pub zone_known : (not (non_empty p.display_timezone) || is_zone p.display_timezone) ≡ true

target-read : (t : NotifyTarget) → read_target (target_text t) ≡ some t
target-read off = refl
target-read webhook = refl
target-read ntfy = refl
target-read discord = refl

clock-read : (c : Clock) → read_clock (clock_text c) ≡ some c
clock-read full_day = refl
clock-read half_day = refl

pub of_rows-model_validate :
    (parse_int : Text → Option ℕ) (is_zone : Text → Bool) (rows : SettingRows)
    → of_rows parse_int is_zone rows
      ≡ or_defaults parse_int is_zone (model_validate parse_int is_zone rows)
unfolding of_rows model_validate
of_rows-model_validate parse_int is_zone [] = refl
of_rows-model_validate parse_int is_zone (row ∷ rows) = refl

module _ (parse_int : Text → Option ℕ) (is_zone : Text → Bool)
    (reads : (n : ℕ) → parse_int (decimal n) ≡ some n) where
  int-read : (lo hi n : ℕ) → lo ≤ n → n ≤ hi → read_int parse_int is_zone lo hi (decimal n) ≡ some n
  int-read lo hi n low high = rw (reads n) (ground (arith, low, high))

  days-read :
      (lo hi n : ℕ) → lo ≤ n → n ≤ hi → read_days parse_int is_zone lo hi (decimal n) ≡ some n
  days-read lo hi n low high = rw (non_empty-decimal n) (int-read lo hi n low high)

  optional-read :
      (d : Option ℕ) → DaysValid d → read_optional_days parse_int is_zone (days_text d) ≡ some d
  optional-read none valid = refl
  optional-read (some n) valid = rw (non_empty-decimal n, reads n) (ground (arith, valid))

  zone-read :
      (z : Text)
      → strip z ≡ z
      → (not (non_empty z) || is_zone z) ≡ true
      → known_zone parse_int is_zone z ≡ some z
  zone-read z same known = rw (same, known) refl

  model_validate-saved :
      (p : Preferences) (table : SettingRows)
      → IsValid is_zone p
      → model_validate parse_int is_zone (stored_rows (save p table)) ≡ some p
  unfolding model_validate
  model_validate-saved p table valid =
      rw
        (
          saved (codes "notify_target") p table,
          saved (codes "notify_webhook_url") p table,
          saved (codes "notify_ntfy_server") p table,
          saved (codes "notify_ntfy_topic") p table,
          saved (codes "notify_timeout_seconds") p table,
          saved (codes "base_url") p table,
          saved (codes "archive_retention_days") p table,
          saved (codes "run_history_keep") p table,
          saved (codes "log_retention_days") p table,
          saved (codes "log_max_total_mb") p table,
          saved (codes "max_concurrent_runs") p table,
          saved (codes "display_timezone") p table,
          saved (codes "clock") p table,
          target-read p.notify_target,
          int-read 1 60 p.notify_timeout_seconds valid.timeout.0 valid.timeout.1,
          optional-read p.archive_retention_days valid.days,
          int-read 10 10000 p.run_history_keep valid.history.0 valid.history.1,
          days-read 1 3650 p.log_retention_days valid.logs.0 valid.logs.1,
          int-read 16 102400 p.log_max_total_mb valid.size.0 valid.size.1,
          int-read 0 32 p.max_concurrent_runs (omega arith) valid.at_once,
          zone-read p.display_timezone valid.zone valid.zone_known,
          clock-read p.clock,
        )
        refl

  -- Preferences that pydantic accepts and that are saved are the ones that are loaded, whatever the
  -- table held before, if it reads each number as it is written; and a row whose key does not begin
  -- with `pref.`, such as the fingerprint of the key, is as it was.
  pub load-save :
      (p : Preferences) (table : SettingRows) (k : Text)
      → IsValid is_zone p
      → starts_with k prefix ≡ false
      → (load parse_int is_zone (save p table) ≡ p) × (lookup k (save p table) ≡ lookup k table)
  unfolding load save
  load-save p table k valid foreign = (
    of_rows-model_validate parse_int is_zone (stored_rows (save p table))
        ∙ ap (or_defaults parse_int is_zone) (model_validate-saved p table valid),
    lookup-save_rows_other k (dump p) table foreign,
  )
