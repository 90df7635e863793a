-- ===== src/Preferences.antt =====
-- app/preferences.py: the preferences in the table of the settings (app/models/setting.py), whose
-- rows are a list of keys and texts, an absent text being an empty one. How pydantic reads a whole
-- number, and which time zones the machine knows, are parameters; a number below zero, which no
-- field allows, is read as none.
pub mod Kept
pub mod Reset
use hivesync.Prelude.{
  ℕ, Bool, true, false, ◌&&◌, ◌||◌, not, Option, none, some, List, [], ◌∷◌, ◌++◌, Text, codes,
  text_eq, starts_with, non_empty, decimal, strip, ltb, leb, if◌then◌else◌, length, drop,
}

pub data NotifyTarget : Type 0 where
  off : NotifyTarget
  webhook : NotifyTarget
  ntfy : NotifyTarget
  discord : NotifyTarget

pub data Clock : Type 0 where
  full_day : Clock
  half_day : Clock

pub record Preferences : Type 0 where
  pub notify_target : NotifyTarget
  pub notify_webhook_url : Text
  pub notify_ntfy_server : Text
  pub notify_ntfy_topic : Text
  pub notify_timeout_seconds : ℕ
  pub base_url : Text
  pub archive_retention_days : Option ℕ
  pub run_history_keep : ℕ
  pub log_retention_days : ℕ
  pub log_max_total_mb : ℕ
  pub max_concurrent_runs : ℕ
  pub display_timezone : Text
  pub clock : Clock

-- `Preferences()`
abbrev pub defaults : Preferences
defaults = record {
  notify_target = off;
  notify_webhook_url = [];
  notify_ntfy_server = codes "https://ntfy.sh";
  notify_ntfy_topic = [];
  notify_timeout_seconds = 10;
  base_url = [];
  archive_retention_days = none;
  run_history_keep = 200;
  log_retention_days = 90;
  log_max_total_mb = 512;
  max_concurrent_runs = 0;
  display_timezone = [];
  clock = full_day;
}

abbrev pub SettingRows : Type 0
SettingRows = List (Text × Text)

abbrev pub lookup : Text → SettingRows → Option Text
lookup k [] = none
lookup k ((j, v) ∷ rows) = let rest = lookup k rows in if text_eq j k then some v else rest

-- `row.value = text`, or a new row.
abbrev pub put_row : Text → Text → SettingRows → SettingRows
put_row k v [] = (k, v) ∷ []
put_row k v ((j, u) ∷ rows) =
    let rest = put_row k v rows in if text_eq j k then (k, v) ∷ rows else (j, u) ∷ rest

-- `PREFIX`
abbrev pub prefix : Text
prefix = codes "pref."

abbrev pub target_text : NotifyTarget → Text
target_text off = codes "none"
target_text webhook = codes "webhook"
target_text ntfy = codes "ntfy"
target_text discord = codes "discord"

abbrev pub clock_text : Clock → Text
clock_text full_day = codes "24h"
clock_text half_day = codes "12h"

abbrev pub days_text : Option ℕ → Text
days_text none = []
days_text (some n) = decimal n

-- `model_dump()`, with `str` of each value and an empty text for `None`.
abbrev pub dump : Preferences → SettingRows
dump p =
    (codes "notify_target", target_text p.notify_target)
    ∷ (codes "notify_webhook_url", p.notify_webhook_url)
    ∷ (codes "notify_ntfy_server", p.notify_ntfy_server)
    ∷ (codes "notify_ntfy_topic", p.notify_ntfy_topic)
    ∷ (codes "notify_timeout_seconds", decimal p.notify_timeout_seconds)
    ∷ (codes "base_url", p.base_url)
    ∷ (codes "archive_retention_days", days_text p.archive_retention_days)
    ∷ (codes "run_history_keep", decimal p.run_history_keep)
    ∷ (codes "log_retention_days", decimal p.log_retention_days)
    ∷ (codes "log_max_total_mb", decimal p.log_max_total_mb)
    ∷ (codes "max_concurrent_runs", decimal p.max_concurrent_runs)
    ∷ (codes "display_timezone", p.display_timezone)
    ∷ (codes "clock", clock_text p.clock)
    ∷ []

unfoldable pub save_rows : SettingRows → SettingRows → SettingRows
save_rows [] table = table
save_rows ((key, text) ∷ rows) table = save_rows rows (put_row (prefix ++ key) text table)

-- `save`
unfoldable pub save : Preferences → SettingRows → SettingRows
unfolding save_rows
save p table = save_rows (dump p) table

-- The rows of `load`, by their keys without the prefix.
unfoldable pub stored_rows : SettingRows → SettingRows
stored_rows [] = []
stored_rows ((k, v) ∷ table) =
    let rest = stored_rows table in
    if starts_with k prefix then (drop (length prefix) k, v) ∷ rest else rest

infixl 5 ◌>>=◌
abbrev pub ◌>>=◌ : {A B : Type 0} → Option A → (A → Option B) → Option B
none >>= f = none
some a >>= f = f a

-- A field that was not stored has its default.
abbrev pub field : {A : Type 0} → (Text → Option A) → A → Option Text → Option A
field read default none = some default
field read default (some t) = read t

abbrev pub plain : Text → Option Text
plain t = some t

abbrev pub read_target : Text → Option NotifyTarget
read_target t =
    if text_eq t (codes "none")
    then some off
    else if text_eq t (codes "webhook")
    then some webhook
    else if text_eq t (codes "ntfy")
    then some ntfy
    else if text_eq t (codes "discord")
    then some discord
    else none

abbrev pub read_clock : Text → Option Clock
read_clock t =
    if text_eq t (codes "24h")
    then some full_day
    else if text_eq t (codes "12h")
    then some half_day
    else none

abbrev pub within : ℕ → ℕ → Option ℕ → Option ℕ
within lo hi none = none
within lo hi (some n) = if leb lo n && leb n hi then some n else none

abbrev pub at_least : ℕ → Option ℕ → Option (Option ℕ)
at_least lo none = none
at_least lo (some n) = if leb lo n then some (some n) else none

module _ (parse_int : Text → Option ℕ) (is_zone : Text → Bool) where
  abbrev pub read_int : ℕ → ℕ → Text → Option ℕ
  read_int lo hi t = within lo hi (parse_int t)

  -- `_coerce` makes `None` of an empty text where the key ends in `_days`.
  abbrev pub read_days : ℕ → ℕ → Text → Option ℕ
  read_days lo hi t = if non_empty t then read_int lo hi t else none

  abbrev pub read_optional_days : Text → Option (Option ℕ)
  read_optional_days t = if non_empty t then at_least 1 (parse_int t) else some none

  -- `_known_zone`
  abbrev pub known_zone : Text → Option Text
  known_zone value =
      let zone = strip value in if not (non_empty zone) || is_zone zone then some zone else none

  -- `Preferences.model_validate(_coerce(stored))`
  unfoldable pub model_validate : SettingRows → Option Preferences
  model_validate rows = do
    target ← field read_target defaults.notify_target (lookup (codes "notify_target") rows)
    url ← field plain defaults.notify_webhook_url (lookup (codes "notify_webhook_url") rows)
    server ← field plain defaults.notify_ntfy_server (lookup (codes "notify_ntfy_server") rows)
    topic ← field plain defaults.notify_ntfy_topic (lookup (codes "notify_ntfy_topic") rows)
    timeout ←
        field (read_int 1 60) defaults.notify_timeout_seconds
          (lookup (codes "notify_timeout_seconds") rows)
    base ← field plain defaults.base_url (lookup (codes "base_url") rows)
    days ←
        field read_optional_days defaults.archive_retention_days
          (lookup (codes "archive_retention_days") rows)
    history ←
        field (read_int 10 10000) defaults.run_history_keep (lookup (codes "run_history_keep") rows)
    logs ←
        field (read_days 1 3650) defaults.log_retention_days
          (lookup (codes "log_retention_days") rows)
    total_mb ←
        field (read_int 16 102400) defaults.log_max_total_mb
          (lookup (codes "log_max_total_mb") rows)
    at_once ←
        field (read_int 0 32) defaults.max_concurrent_runs
          (lookup (codes "max_concurrent_runs") rows)
    zone ← field known_zone defaults.display_timezone (lookup (codes "display_timezone") rows)
    clock ← field read_clock defaults.clock (lookup (codes "clock") rows)
    some (record {
      notify_target = target;
      notify_webhook_url = url;
      notify_ntfy_server = server;
      notify_ntfy_topic = topic;
      notify_timeout_seconds = timeout;
      base_url = base;
      archive_retention_days = days;
      run_history_keep = history;
      log_retention_days = logs;
      log_max_total_mb = total_mb;
      max_concurrent_runs = at_once;
      display_timezone = zone;
      clock = clock;
    })

  abbrev pub or_defaults : Option Preferences → Preferences
  or_defaults none = defaults
  or_defaults (some p) = p

  -- `load` from its rows on.
  unfoldable pub of_rows : SettingRows → Preferences
  unfolding model_validate
  of_rows [] = defaults
  of_rows (row ∷ rows) = or_defaults (model_validate (row ∷ rows))

  unfoldable pub load : SettingRows → Preferences
  unfolding of_rows stored_rows
  load table = of_rows (stored_rows table)
